-- ===== src/Flags.antt =====
-- Feature flags: internal/featureflags/flags.go, the overrides of
-- cmd/management/storage/feature_flag_repo.go, and the owner's commands of
-- cmd/management/service/feature_flag_service.go.
pub mod Overrides
pub mod Authority
mod Tests
use squash_bot.Prelude.{
  ℕ, zero, suc, ◌+◌, ◌-◌, ◌*◌, ◌/◌, ◌%◌, ◌^◌, ◌≤◌, ◌<◌, min, ◌≡◌, ◌≢◌, ◌⊎◌, ◌↔◌, inl, inr, refl,
  sym, ap, ◌∙◌, Option, none, some, Bool, true, false, ◌&&◌, ◌||◌, not, List, [], ◌∷◌, ◌++◌, map,
  append_assoc, append-nil, length, length-append, take, ltb, leb, is_nil, ◌==◌, if◌then◌else◌, ℤ,
  pos, negsuc, arith, Bool-cases, Option-cases, All, All-append, All-map, ==_iff, ltb→lt, lt→ltb,
  leb→le, String,
}
use squash_bot.Prelude.Int.{eqb_ℤ}
use squash_bot.Prelude.Text.{Text, text_eq, codes}
use squash_bot.Store.{World, Prog, pure, raise, stmt, ◌>>=◌, in_tx, record_event}

-- Definition, without its description and service.
pub record Definition : Type 0 where
  pub key : Text
  pub default : Bool
  pub group_scoped : Bool

abbrev pub score_aware_rating : Text
score_aware_rating = codes "rating.score_aware"

-- Definitions
pub definitions : List Definition
definitions = record { key = score_aware_rating; default = false; group_scoped = true } ∷ []

find_definition : List Definition → Text → Option Definition
find_definition [] key = none
find_definition (d ∷ ds) key =
    let rest = find_definition ds key in if text_eq d.key key then some d else rest

-- Lookup; `none` is ErrUnknown.
unfoldable pub lookup : Text → Option Definition
unfolding find_definition definitions
lookup key = find_definition definitions key

pub data Source : Type 0 where
  default_value : Source
  global_override : Source
  group_override : Source

-- State
pub record State : Type 0 where
  pub definition : Definition
  pub global : Option Bool
  pub override : Option Bool
  pub enabled : Bool
  pub source : Source

with_global : Option Bool → State → State
with_global none s = s
with_global (some b) s = record s { enabled = b; source = Source.global_override }

with_group : Option Bool → State → State
with_group none s = s
with_group (some b) s =
    if s.definition.group_scoped
    then record s { enabled = b; source = Source.group_override }
    else s

-- Resolve
unfoldable pub resolve : Definition → Option Bool → Option Bool → State
unfolding with_global with_group
resolve d global group = with_group group (
    with_global global (record {
      definition = d;
      global = global;
      override = group;
      enabled = d.default;
      source = Source.default_value;
    }))

-- A row of feature_flag_overrides; a missing group stands for the global setting.
pub record FlagRow : Type 0 where
  pub key : Text
  pub group : Option ℤ
  pub enabled : Bool

-- group_id IS NOT DISTINCT FROM $2
pub same_group : Option ℤ → Option ℤ → Bool
same_group none none = true
same_group (some g) (some h) = eqb_ℤ g h
same_group g h = false

pub is_row : Text → Option ℤ → FlagRow → Bool
unfolding same_group
is_row key group row = text_eq row.key key && same_group row.group group

-- The loop of readFlag over the selected rows: the overrides of all groups and of one.
global_in : List FlagRow → Text → Option Bool → Option Bool
unfolding is_row
global_in [] key seen = seen
global_in (r ∷ rs) key seen =
    if is_row key none r then global_in rs key (some r.enabled) else global_in rs key seen

group_in : List FlagRow → Text → Option ℤ → Option Bool → Option Bool
unfolding is_row
group_in rs key none seen = seen
group_in [] key (some g) seen = seen
group_in (r ∷ rs) key (some g) seen =
    if is_row key (some g) r
    then group_in rs key (some g) (some r.enabled)
    else group_in rs key (some g) seen

-- readFlag; `none` is ErrUnknown.
unfoldable pub read_flag : List FlagRow → Text → Option ℤ → Option State
unfolding global_in group_in lookup resolve
read_flag rows key group = elim (lookup key) [
  | none ↦ none
  | some d ↦ some (resolve d (global_in rows key none) (group_in rows key group none))
]

-- SELECT enabled … Scan(&old)
unfoldable pub old_override : List FlagRow → Text → Option ℤ → Option Bool
unfolding is_row
old_override [] key group = none
old_override (r ∷ rs) key group =
    let rest = old_override rs key group in if is_row key group r then some r.enabled else rest

-- DELETE
delete_override : List FlagRow → Text → Option ℤ → List FlagRow
unfolding is_row
delete_override [] key group = []
delete_override (r ∷ rs) key group =
    let rest = delete_override rs key group in if is_row key group r then rest else r ∷ rest

-- INSERT … ON CONFLICT (key, group_id) DO UPDATE; the key and the group are unique in the table.
put_override : List FlagRow → Text → Option ℤ → Bool → List FlagRow
unfolding is_row
put_override [] key group b = record { key = key; group = group; enabled = b } ∷ []
put_override (r ∷ rs) key group b =
    let rest = put_override rs key group b in
    if is_row key group r then record r { enabled = b } ∷ rs else r ∷ rest

-- The writes of FeatureFlagRepo.Set
unfoldable pub set_override : List FlagRow → Text → Option ℤ → Option Bool → List FlagRow
unfolding delete_override put_override
set_override rows key group none = delete_override rows key group
set_override rows key group (some b) = put_override rows key group b

-- The tables that the service reads and writes.
pub record FlagTables : Type 0 where
  pub overrides : List FlagRow
  pub owners : List ℕ
  pub groups : List ℤ

pub data FlagError : Type 0 where
  forbidden bad_scope unknown_flag database : FlagError

-- AuditEventFeatureFlagChanged, with the override before and after.
pub record FlagChanged : Type 0 where
  pub actor : ℕ
  pub key : Text
  pub group : Option ℤ
  pub old : Option Bool
  pub new : Option Bool

abbrev FlagProg : Type 0 → Type 0
FlagProg A = Prog FlagTables FlagChanged FlagError A

pub has_owner : List ℕ → ℕ → Bool
has_owner [] actor = false
has_owner (o ∷ os) actor = o == actor || has_owner os actor

pub has_group : List ℤ → ℤ → Bool
has_group [] g = false
has_group (h ∷ hs) g = eqb_ℤ h g || has_group hs g

-- The part of authorize that reads the group.
check_group : Option ℤ → FlagProg (Unit {0})
check_group none = pure tt
check_group (some g) =
    if eqb_ℤ g (pos 0)
    then raise FlagError.bad_scope
    else stmt FlagError.database (λ t. (has_group t.groups g, t)) >>= λ known.
        if known then pure tt else raise FlagError.bad_scope

-- authorize; the caller's id is never negative here.
pub authorize : ℕ → Option ℤ → FlagProg (Unit {0})
unfolding check_group
authorize actor group =
    if actor == 0
    then raise FlagError.forbidden
    else stmt FlagError.database (λ t. (has_owner t.owners actor, t)) >>= λ owner.
        if owner then check_group group else raise FlagError.forbidden

-- FeatureFlagRepo.Set, with the advisory lock as its first statement.
pub repo_set : Text → Option ℤ → Option Bool → FlagProg (Option Bool)
repo_set key group enabled = elim (lookup key) [
  | none ↦ raise FlagError.unknown_flag
  | some d ↦ in_tx FlagError.database FlagError.database (
      stmt FlagError.database (λ t. (tt {0}, t)) >>= λ _.
      stmt FlagError.database (λ t. (old_override t.overrides key group, t)) >>= λ old.
      stmt FlagError.database
        (λ t. (old, record t { overrides = set_override t.overrides key group enabled })))
]

-- (old == nil && enabled == nil) || (old != nil && enabled != nil && *old == *enabled)
pub same_override : Option Bool → Option Bool → Bool
same_override none none = true
same_override (some true) (some b) = b
same_override (some false) (some b) = not b
same_override old enabled = false

pub scope_allows : Definition → Option ℤ → Bool
scope_allows d none = true
scope_allows d (some g) = d.group_scoped

-- The write and its audit row.
pub write_flag : ℕ → Text → Option ℤ → Option Bool → FlagProg (Unit {0})
write_flag actor key group enabled =
    let event : Option Bool → FlagChanged =
      λ old. record { actor = actor; key = key; group = group; old = old; new = enabled } in
    repo_set key group enabled >>= λ old.
    if same_override old enabled then pure tt else record_event (event old) tt

-- FeatureFlagService.Set
pub set_flag : ℕ → Text → Option ℤ → Option Bool → FlagProg (Unit {0})
unfolding scope_allows
set_flag actor key group enabled = authorize actor group >>= λ _. elim (lookup key) [
  | none ↦ raise FlagError.unknown_flag
  | some d ↦
      if scope_allows d group then write_flag actor key group enabled else raise FlagError.bad_scope
]
