-- ===== src/Games/Publish.antt =====
-- PublishGame of cmd/management/service/game_service.go: the announcement of a game in its chat and
-- the id that the game's row keeps of it. What Telegram and the database answer is chosen anew for
-- every request; the pin, the audit row and the texts do not matter here and are left out.
use squash_bot.Prelude.{
  ℕ, ◌≡◌, ◌⊎◌, inl, inr, refl, ap, Option, none, some, Bool, true, false, List, [], ◌∷◌, ◌==◌,
  if◌then◌else◌, arith,
}
use squash_bot.Results.{Lookup}

-- The game's message_id, and the announcements of the game that stand in the chat.
pub record Board : Type 0 where
  pub message_id : Option ℕ
  pub live : List ℕ

-- The answers to one request: whether the game is read, the id of the sent message, and whether
-- UpdateMessageID and the deletion of the message succeed.
pub record Answers : Type 0 where
  pub read : Lookup (Unit {0})
  pub sent : Option ℕ
  pub update_ok : Bool
  pub delete_ok : Bool

pub data PublishError : Type 0 where
  game_not_found fetch_game already_published send_failed persist_failed : PublishError

delete_message : ℕ → List ℕ → List ℕ
delete_message m [] = []
delete_message m (l ∷ ls) = let rest = delete_message m ls in if l == m then rest else l ∷ rest

-- What follows the sending of the message `m`: UpdateMessageID, or else the deletion of `m`.
pub persist : ℕ → Bool → Bool → Board → (PublishError ⊎ ℕ) × Board
unfolding delete_message
persist m true delete_ok b = (inr m, record b { message_id = some m; live = m ∷ b.live })
persist m false true b = (inl persist_failed, record b { live = delete_message m (m ∷ b.live) })
persist m false false b = (inl persist_failed, record b { live = m ∷ b.live })

announce : Answers → Option ℕ → Board → (PublishError ⊎ ℕ) × Board
announce a none b = (inl send_failed, b)
announce a (some m) b = persist m a.update_ok a.delete_ok b

unpublished : Answers → Option ℕ → Board → (PublishError ⊎ ℕ) × Board
unfolding announce
unpublished a none b = announce a a.sent b
unpublished a (some m) b = (inl already_published, b)

read_game : Answers → Lookup (Unit {0}) → Board → (PublishError ⊎ ℕ) × Board
unfolding unpublished
read_game a Lookup.failed b = (inl fetch_game, b)
read_game a Lookup.missing b = (inl game_not_found, b)
read_game a (Lookup.found u) b = unpublished a b.message_id b

-- PublishGame, with the id of the announcement.
pub publish_game : Answers → Board → (PublishError ⊎ ℕ) × Board
unfolding read_game
publish_game a b = read_game a a.read b

-- A request whose failed announcement can be deleted again.
abbrev pub IsCleanable : Answers → Type 0
IsCleanable a = (a.update_ok ≡ true) ⊎ (a.delete_ok ≡ true)

-- One request after the other.
pub data Requests (b : Board) : Board → Type 0 where
  here : Requests b b
  next : {c : Board} (a : Answers) → Requests b c → IsCleanable a → Requests b (publish_game a c).1

-- The announcements in the chat are the one that the game's row names.
abbrev pub IsAnnounced : Option ℕ → List ℕ → Type 0
IsAnnounced none live = live ≡ []
IsAnnounced (some m) live = live ≡ m ∷ []

abbrev pub IsTidy : Board → Type 0
IsTidy b = IsAnnounced b.message_id b.live

delete_message-head : (m : ℕ) → delete_message m (m ∷ []) ≡ []
unfolding delete_message
delete_message-head m = ground arith

persist-IsTidy :
    (m : ℕ) (u d : Bool) (b : Board)
    → (u ≡ true) ⊎ (d ≡ true)
    → b.message_id ≡ none
    → b.live ≡ []
    → IsTidy (persist m u d b).1
unfolding persist
persist-IsTidy m true d b c i e = ap (λ l. m ∷ l) e
persist-IsTidy m false true b c i e = simp (i, e, delete_message-head)
persist-IsTidy m false false b c i e = ground arith

announce-IsTidy :
    (a : Answers) (sent : Option ℕ) (b : Board)
    → IsCleanable a
    → b.message_id ≡ none
    → b.live ≡ []
    → IsTidy (announce a sent b).1
unfolding announce
announce-IsTidy a none b c i e = simp (i, e)
announce-IsTidy a (some m) b c i e = persist-IsTidy m a.update_ok a.delete_ok b c i e

unpublished-IsTidy :
    (a : Answers) (id : Option ℕ) (b : Board)
    → b.message_id ≡ id
    → IsCleanable a
    → IsTidy b
    → IsTidy (unpublished a id b).1
unfolding unpublished
unpublished-IsTidy a none b i c t = announce-IsTidy a a.sent b c i (simp (i) at t)
unpublished-IsTidy a (some m) b i c t = t

read_game-IsTidy :
    (a : Answers) (r : Lookup (Unit {0})) (b : Board)
    → IsCleanable a
    → IsTidy b
    → IsTidy (read_game a r b).1
unfolding read_game
read_game-IsTidy a Lookup.failed b c t = t
read_game-IsTidy a Lookup.missing b c t = t
read_game-IsTidy a (Lookup.found u) b c t = unpublished-IsTidy a b.message_id b refl c t

publish_game-IsTidy :
    (a : Answers) (b : Board) → IsCleanable a → IsTidy b → IsTidy (publish_game a b).1
unfolding publish_game
publish_game-IsTidy a b c t = read_game-IsTidy a a.read b c t

-- Whatever Telegram and the database answer to the requests to publish a game, as long as a message
-- that could not be recorded is deleted, the chat holds no announcement of an unpublished game and
-- exactly the recorded one of a published game.
pub Requests-IsTidy : (b c : Board) → Requests b c → IsTidy b → IsTidy c
Requests-IsTidy b _ here t = t
Requests-IsTidy b c (next a r k) t = publish_game-IsTidy a _ k (Requests-IsTidy b _ r t)
