-- ===== src/Store.antt =====
-- How the services of cmd/management reach the database through pgx: statements that may fail,
-- transactions that are rolled back on an error, and audit rows written outside of them. The
-- tables are a type of the client's; which statements fail is a list that the statements consume.
-- A transaction takes effect at its commit, and the row locks of the source (FOR UPDATE, advisory
-- locks) serialise those that touch the same rows, so that concurrent requests are sequences of
-- programs, each on the tables that the one before left.
pub mod Hoare
pub mod Calm
pub mod Checks
pub mod Ends
use squash_bot.Prelude.{
  Option, none, some, Bool, true, false, List, [], ◌∷◌, ◌++◌, ◌⊎◌, inl, inr, ◌≡◌, refl,
}

-- `down` tells, for each statement to come, whether it fails; past its end none does.
pub record World {ℓ} (S L : Type ℓ) : Type ℓ where
  pub db : S
  pub log : List L
  pub down : List (Bool)

abbrev pub Prog {ℓ} : Type ℓ → Type ℓ → Type ℓ → Type ℓ → Type ℓ
Prog S L E A = World S L → (E ⊎ A) × World S L

pub next_down : List Bool → Bool
next_down [] = false
next_down (b ∷ bs) = b

pub rest_down : List Bool → List Bool
rest_down [] = []
rest_down (b ∷ bs) = bs

-- `if !b { return e }`
unfoldable pub require {ℓ} : {S L E : Type ℓ} → Bool → E → Prog S L E (Unit {ℓ})
require true e w = (inr tt, w)
require false e w = (inl e, w)

module _ {ℓ} {S L E A : Type ℓ} where
  unfoldable pub pure : A → Prog S L E A
  pure a w = (inr a, w)

  unfoldable pub raise : E → Prog S L E A
  raise e w = (inl e, w)

  -- A value that was found, or the error for a missing one.
  unfoldable pub or_raise : Option A → E → Prog S L E A
  or_raise none e w = (inl e, w)
  or_raise (some a) e w = (inr a, w)

  -- A statement: it fails with `e`, or reads and writes the tables.
  unfoldable pub stmt : E → (S → A × S) → Prog S L E A
  unfolding next_down rest_down
  stmt e f w = elim (next_down w.down) [
    | true ↦ (inl e, record w { down = rest_down w.down })
    | false ↦ (inr (f w.db).0, record w { db = (f w.db).1; down = rest_down w.down })
  ]

  -- A statement whose error the caller only logs: `none` when it fails.
  unfoldable pub attempt : (S → A × S) → Prog S L E (Option A)
  unfolding next_down rest_down
  attempt f w = elim (next_down w.down) [
    | true ↦ (inr none, record w { down = rest_down w.down })
    | false ↦ (inr (some (f w.db).0), record w { db = (f w.db).1; down = rest_down w.down })
  ]

  -- What happens outside of the database, and does not fail.
  unfoldable pub effect : (S → A × S) → Prog S L E A
  effect f w = (inr (f w.db).0, record w { db = (f w.db).1 })

  unfoldable pub continue :
      {B : Type ℓ} → E ⊎ A → World S L → (A → Prog S L E B) → (E ⊎ B) × World S L
  continue (inl e) w f = (inl e, w)
  continue (inr a) w f = f a w

  infixl 10 ◌>>=◌
  unfoldable pub ◌>>=◌ : {B : Type ℓ} → Prog S L E A → (A → Prog S L E B) → Prog S L E B
  unfolding continue
  ◌>>=◌ m f w = continue (m w).0 (m w).1 f

  -- The end of a transaction that was begun on `old`: rollback on an error of the body or of the
  -- commit.
  pub finish : E → S → E ⊎ A → World S L → (E ⊎ A) × World S L
  unfolding next_down rest_down
  finish e old (inl e') w = (inl e', record w { db = old })
  finish e old (inr a) w = elim (next_down w.down) [
    | true ↦ (inl e, record w { db = old; down = rest_down w.down })
    | false ↦ (inr a, record w { down = rest_down w.down })
  ]

  -- Begin, the body, and commit, with `defer tx.Rollback`; `begin_failed` and `commit_failed` are
  -- the errors of the two.
  unfoldable pub in_tx : E → E → Prog S L E A → Prog S L E A
  unfolding finish next_down rest_down
  in_tx begin_failed commit_failed body w = elim (next_down w.down) [
    | true ↦ (inl begin_failed, record w { down = rest_down w.down })
    | false ↦
        let r = body (record w { down = rest_down w.down }) in finish commit_failed w.db r.0 r.1
  ]

  -- A best-effort row of the audit log: an error is only logged.
  pub record_event : L → A → Prog S L E A
  unfolding next_down rest_down
  record_event l a w = elim (next_down w.down) [
    | true ↦ (inr a, record w { down = rest_down w.down })
    | false ↦ (inr a, record w { log = w.log ++ l ∷ []; down = rest_down w.down })
  ]
