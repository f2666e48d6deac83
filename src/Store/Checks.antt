-- ===== src/Store/Checks.antt =====
-- What the checks in a program on the database contribute to its proof.
use squash_bot.Prelude.{Option, none, some, Bool, true, false, [], ◌≡◌, refl}
use squash_bot.Store.{World, require, or_raise}
use squash_bot.Store.Hoare.{After, Settled}
use squash_bot.Store.Calm.{Succeeds}

module _ {ℓ} {S L E : Type ℓ} where
  pub require-Settled :
      (old : S) (Q : Unit {ℓ} → S → Type ℓ) (b : Bool) (e : E) (w : World S L)
      → (b ≡ true → Q tt w.db)
      → (b ≡ false → w.db ≡ old)
      → Settled old Q (require b e w)
  unfolding require
  require-Settled old Q true e w h k = h refl
  require-Settled old Q false e w h k = k refl

  pub require-After :
      (Q : Unit {ℓ} → S → Type ℓ) (b : Bool) (e : E) (w : World S L)
      → (b ≡ true → Q tt w.db)
      → After Q (require b e w)
  unfolding require
  require-After Q true e w h = h refl
  require-After Q false e w h = tt

  pub or_raise-Settled :
      {A : Type ℓ} (old : S) (Q : A → S → Type ℓ) (o : Option A) (e : E) (w : World S L)
      → ((a : A) → o ≡ some a → Q a w.db)
      → (o ≡ none → w.db ≡ old)
      → Settled old Q (or_raise o e w)
  unfolding or_raise
  or_raise-Settled old Q (some a) e w h k = h a refl
  or_raise-Settled old Q none e w h k = k refl

  pub or_raise-After :
      {A : Type ℓ} (Q : A → S → Type ℓ) (o : Option A) (e : E) (w : World S L)
      → ((a : A) → o ≡ some a → Q a w.db)
      → After Q (or_raise o e w)
  unfolding or_raise
  or_raise-After Q (some a) e w h = h a refl
  or_raise-After Q none e w h = tt

module _ {S L E : Type 0} where
  pub require-Succeeds :
      (Q : Unit {0} → S → Type 0) (b : Bool) (e : E) (w : World S L)
      → w.down ≡ []
      → b ≡ true
      → Q tt w.db
      → Succeeds Q (require b e w)
  unfolding require
  require-Succeeds Q true e w calm t h = (h, calm)
  require-Succeeds Q false e w calm t h = cc

  pub or_raise-Succeeds :
      {A : Type 0} (Q : A → S → Type 0) (o : Option A) (a : A) (e : E) (w : World S L)
      → w.down ≡ []
      → o ≡ some a
      → Q a w.db
      → Succeeds Q (or_raise o e w)
  unfolding or_raise
  or_raise-Succeeds Q (some b) a e w calm t h = let same : b ≡ a = cc in rw same (h, calm)
  or_raise-Succeeds Q none a e w calm t h = cc
