-- ===== src/Store/Hoare.antt =====
-- Reasoning about programs on the database: what holds of the tables after a success, and that an
-- error leaves the tables alone.
use squash_bot.Prelude.{
  Option, none, some, Bool, true, false, Bool-cases, if◌then◌else◌, ◌⊎◌, inl, inr, ◌≡◌, refl,
}
use squash_bot.Store.{
  World, Prog, next_down, rest_down, stmt, attempt, effect, continue, ◌>>=◌, finish, in_tx,
  record_event,
}

module _ {ℓ} {S L E A : Type ℓ} where
  -- `Q` of a success, nothing of an error.
  abbrev pub After : (A → S → Type ℓ) → (E ⊎ A) × World S L → Type ℓ
  After Q (inl e, w) = Unit {ℓ}
  After Q (inr a, w) = Q a w.db

  -- `Q` of a success, and the old tables after an error.
  abbrev pub Settled : S → (A → S → Type ℓ) → (E ⊎ A) × World S L → Type ℓ
  Settled old Q (inl e, w) = w.db ≡ old
  Settled old Q (inr a, w) = Q a w.db

  pub After-map :
      (Q R : A → S → Type ℓ) (r : (E ⊎ A) × World S L)
      → ((a : A) (s : S) → Q a s → R a s)
      → After Q r
      → After R r
  After-map Q R (inl e, w) f h = tt
  After-map Q R (inr a, w) f h = f a w.db h

  pub Settled→After :
      (old : S) (Q : A → S → Type ℓ) (r : (E ⊎ A) × World S L) → Settled old Q r → After Q r
  Settled→After old Q (inl e, w) h = tt
  Settled→After old Q (inr a, w) h = h

  pub Settled-map :
      (Q R : A → S → Type ℓ) (r : (E ⊎ A) × World S L) (old : S)
      → ((a : A) (s : S) → Q a s → R a s)
      → Settled old Q r
      → Settled old R r
  Settled-map Q R (inl e, w) old f h = h
  Settled-map Q R (inr a, w) old f h = f a w.db h

  pub Settled-from :
      (Q : A → S → Type ℓ) (r : (E ⊎ A) × World S L) (old old' : S)
      → old ≡ old'
      → Settled old Q r
      → Settled old' Q r
  Settled-from Q r old old' e h = rw e at h

  pub stmt-After :
      (Q : A → S → Type ℓ) (e : E) (f : S → A × S) (w : World S L)
      → Q (f w.db).0 (f w.db).1
      → After Q (stmt e f w)
  unfolding stmt
  stmt-After Q e f w h = elim (Bool-cases (next_down w.down)) [
    | inl d ↦ rw (d, stmt) tt
    | inr d ↦ rw (d, stmt) h
  ]

  finish-Settled :
      (Q : A → S → Type ℓ) (e : E) (old : S) (r : E ⊎ A) (v : World S L)
      → After Q (r, v)
      → Settled old Q (finish e old r v)
  unfolding finish
  finish-Settled Q e old (inl e') v h = refl
  finish-Settled Q e old (inr a) v h = elim (Bool-cases (next_down v.down)) [
    | inl d ↦ rw (d, finish) refl
    | inr d ↦ rw (d, finish) h
  ]

  -- A transaction is all or nothing.
  pub in_tx-Settled :
      (Q : A → S → Type ℓ) (b c : E) (body : Prog S L E A) (w : World S L)
      → ((v : World S L) → v.db ≡ w.db → After Q (body v))
      → Settled w.db Q (in_tx b c body w)
  unfolding in_tx
  in_tx-Settled Q b c body w h = elim (Bool-cases (next_down w.down)) [
    | inl d ↦ rw (d, in_tx) refl
    | inr d ↦
        let v : World S L = record w { down = rest_down w.down } in
        rw (d, in_tx) (finish-Settled Q c w.db (body v).0 (body v).1 (h v refl))
  ]

  -- A single statement that changes the tables is all or nothing too.
  pub stmt-Settled :
      (Q : A → S → Type ℓ) (e : E) (f : S → A × S) (w : World S L)
      → Q (f w.db).0 (f w.db).1
      → Settled w.db Q (stmt e f w)
  unfolding stmt
  stmt-Settled Q e f w h = elim (Bool-cases (next_down w.down)) [
    | inl d ↦ rw (d, stmt) refl
    | inr d ↦ rw (d, stmt) h
  ]

  -- A statement on tables that are known to be the old ones.
  pub stmt-Settled_from :
      (old : S) (Q : A → S → Type ℓ) (e : E) (f : S → A × S) (w : World S L)
      → w.db ≡ old
      → Q (f old).0 (f old).1
      → Settled old Q (stmt e f w)
  stmt-Settled_from old Q e f w same h =
      Settled-from Q (stmt e f w) w.db old same (stmt-Settled Q e f w (rw same h))

module _ {ℓ} {S L E A B : Type ℓ} where
  pub bind-After :
      (R : A → S → Type ℓ) (Q : B → S → Type ℓ) (m : Prog S L E A) (f : A → Prog S L E B)
      (w : World S L)
      → After R (m w)
      → ((a : A) (v : World S L) → R a v.db → After Q (f a v))
      → After Q ((m >>= f) w)
  unfolding ◌>>=◌ continue
  bind-After R Q m f w hm hf = go (m w).0 (m w).1 hm
    where
      go : (r : E ⊎ A) (v : World S L) → After R (r, v) → After Q (continue r v f)
      go (inl e) v h = tt
      go (inr a) v h = hf a v h

  pub bind-Settled :
      (old : S) (R : A → S → Type ℓ) (Q : B → S → Type ℓ) (m : Prog S L E A) (f : A → Prog S L E B)
      (w : World S L)
      → Settled old R (m w)
      → ((a : A) (v : World S L) → R a v.db → Settled old Q (f a v))
      → Settled old Q ((m >>= f) w)
  unfolding ◌>>=◌ continue
  bind-Settled old R Q m f w hm hf = go (m w).0 (m w).1 hm
    where
      go : (r : E ⊎ A) (v : World S L) → Settled old R (r, v) → Settled old Q (continue r v f)
      go (inl e) v h = h
      go (inr a) v h = hf a v h

pub event-Settled {ℓ} :
    {S L A : Type ℓ} (E : Type ℓ) (old : S) (Q : A → S → Type ℓ) (l : L) (a : A) (w : World S L)
    → Q a w.db
    → Settled old Q (record_event {E = E} l a w)
unfolding record_event
event-Settled E old Q l a w h = elim (Bool-cases (next_down w.down)) [
  | inl d ↦ rw (d, record_event) h
  | inr d ↦ rw (d, record_event) h
]

pub event-After {ℓ} :
    {S L A : Type ℓ} (E : Type ℓ) (Q : A → S → Type ℓ) (l : L) (a : A) (w : World S L)
    → Q a w.db
    → After Q (record_event {E = E} l a w)
unfolding record_event
event-After E Q l a w h = elim (Bool-cases (next_down w.down)) [
  | inl d ↦ rw (d, record_event) h
  | inr d ↦ rw (d, record_event) h
]

module _ {ℓ} {S L A : Type ℓ} (E : Type ℓ) where
  pub attempt-After :
      (Q : Option A → S → Type ℓ) (f : S → A × S) (w : World S L)
      → Q none w.db
      → Q (some (f w.db).0) (f w.db).1
      → After Q (attempt {E = E} f w)
  unfolding attempt
  attempt-After Q f w h k = elim (Bool-cases (next_down w.down)) [
    | inl d ↦ rw (d, attempt) h
    | inr d ↦ rw (d, attempt) k
  ]

  pub effect-After :
      (Q : A → S → Type ℓ) (f : S → A × S) (w : World S L)
      → Q (f w.db).0 (f w.db).1
      → After Q (effect {E = E} f w)
  unfolding effect
  effect-After Q f w h = h

  -- Both branches of an `if`.
  pub if_else-After :
      (Q : A → S → Type ℓ) (b : Bool) (m n : Prog S L E A) (w : World S L)
      → After Q (m w)
      → After Q (n w)
      → After Q ((if b then m else n) w)
  if_else-After Q true m n w h k = h
  if_else-After Q false m n w h k = k
