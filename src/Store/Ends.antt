-- ===== src/Store/Ends.antt =====
-- Reasoning about how a program on the database ends: what holds of its error, and of its success.
use squash_bot.Prelude.{Option, none, some, Bool-cases, ◌⊎◌, inl, inr, ◌≡◌, refl}
use squash_bot.Store.{
  World, Prog, next_down, rest_down, stmt, or_raise, continue, ◌>>=◌, finish, in_tx,
}

module _ {ℓ} {S L E A : Type ℓ} where
  -- `P` of an error, `Q` of a success.
  abbrev pub Ends : (E → Type ℓ) → (A → S → Type ℓ) → (E ⊎ A) × World S L → Type ℓ
  Ends P Q (inl e, w) = P e
  Ends P Q (inr a, w) = Q a w.db

  pub stmt-Ends :
      (P : E → Type ℓ) (Q : A → S → Type ℓ) (e : E) (f : S → A × S) (w : World S L)
      → P e
      → Q (f w.db).0 (f w.db).1
      → Ends P Q (stmt e f w)
  unfolding stmt
  stmt-Ends P Q e f w p h = elim (Bool-cases (next_down w.down)) [
    | inl d ↦ rw (d, stmt) p
    | inr d ↦ rw (d, stmt) h
  ]

  pub or_raise-Ends :
      (P : E → Type ℓ) (Q : A → S → Type ℓ) (o : Option A) (e : E) (w : World S L)
      → P e
      → ((a : A) → o ≡ some a → Q a w.db)
      → Ends P Q (or_raise o e w)
  unfolding or_raise
  or_raise-Ends P Q (some a) e w p h = h a refl
  or_raise-Ends P Q none e w p h = p

  finish-Ends :
      (P : E → Type ℓ) (Q : A → S → Type ℓ) (e : E) (old : S) (r : E ⊎ A) (v : World S L)
      → P e
      → Ends P Q (r, v)
      → Ends P Q (finish e old r v)
  unfolding finish
  finish-Ends P Q e old (inl e') v p h = h
  finish-Ends P Q e old (inr a) v p h = elim (Bool-cases (next_down v.down)) [
    | inl d ↦ rw (d, finish) p
    | inr d ↦ rw (d, finish) h
  ]

  pub in_tx-Ends :
      (P : E → Type ℓ) (Q : A → S → Type ℓ) (b c : E) (body : Prog S L E A) (w : World S L)
      → P b
      → P c
      → ((v : World S L) → v.db ≡ w.db → Ends P Q (body v))
      → Ends P Q (in_tx b c body w)
  unfolding in_tx
  in_tx-Ends P Q b c body w p q h = elim (Bool-cases (next_down w.down)) [
    | inl d ↦ rw (d, in_tx) p
    | inr d ↦
        let v : World S L = record w { down = rest_down w.down } in
        rw (d, in_tx) (finish-Ends P Q c w.db (body v).0 (body v).1 q (h v refl))
  ]

module _ {ℓ} {S L E A B : Type ℓ} where
  pub bind-Ends :
      (P : E → Type ℓ) (R : A → S → Type ℓ) (Q : B → S → Type ℓ) (m : Prog S L E A)
      (f : A → Prog S L E B) (w : World S L)
      → Ends P R (m w)
      → ((a : A) (v : World S L) → R a v.db → Ends P Q (f a v))
      → Ends P Q ((m >>= f) w)
  unfolding ◌>>=◌ continue
  bind-Ends P R Q m f w hm hf = go (m w).0 (m w).1 hm
    where
      go : (r : E ⊎ A) (v : World S L) → Ends P R (r, v) → Ends P Q (continue r v f)
      go (inl e) v h = h
      go (inr a) v h = hf a v h
