-- ===== src/Users/Tests.antt =====
-- Users and identities, at concrete tables.
use squash_bot.Prelude.{some, true, false, [], ◌∷◌, arith}
use squash_bot.Prelude.Text.{codes}
use squash_bot.Store.{World}
use squash_bot.Store.Hoare.{Settled}
use squash_bot.Store.Ends.{Ends}
use squash_bot.Users.{Tables, Profile, resolve_identity}
use squash_bot.Users.Roles.{set_server_owner}
use squash_bot.Users.Linked.{IsResolved}
use squash_bot.Users.Resolved.{IsNotExhausted, resolve_identity-IsResolved}
use squash_bot.Users.Roles.Owners.{HasSet, set_server_owner-HasSet}

-- One user, who is the owner.
abbrev tables : Tables
tables = record {
  users =
      record {
        id = 1;
        display_name = codes "@ann";
        is_server_owner = true;
        dm_language = [];
        results_opt_out = false;
      }
      ∷ [];
  identities = [];
  next_user = 2;
}

abbrev start : World Tables (Unit {0})
start = record { db = tables; log = []; down = [] }

abbrev ben : Profile
ben = record { username = codes "ben"; first_name = codes "Ben"; last_name = []; photo_url = [] }

-- The first attempt meets a race.
resolve_identity-IsResolved_example :
    Ends IsNotExhausted
      (λ u t. IsResolved (codes "telegram") (codes "77") ben u t)
      (resolve_identity (some (codes "@ben") ∷ []) (codes "telegram") (codes "77") ben start)
resolve_identity-IsResolved_example =
    resolve_identity-IsResolved (codes "telegram") (codes "77") ben (some (codes "@ben") ∷ []) start

set_server_owner-HasSet_example :
    Settled tables (λ _ t. HasSet 1 false tables t) (set_server_owner 1 false start)
set_server_owner-HasSet_example = set_server_owner-HasSet 1 false start (omega arith)
