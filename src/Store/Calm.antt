-- ===== src/Store/Calm.antt =====
-- Programs on the database whose statements do not fail: they succeed.
use squash_bot.Prelude.{Bool, false, List, [], ◌⊎◌, inl, inr, ◌≡◌, refl}
use squash_bot.Store.Hoare.{Settled}
use squash_bot.Store.{
  pure, World, Prog, next_down, rest_down, stmt, continue, ◌>>=◌, finish, in_tx, record_event,
}

next_calm : (down : List Bool) → down ≡ [] → next_down down ≡ false
unfolding next_down
next_calm down e = rw e refl

rest_calm : (down : List Bool) → down ≡ [] → rest_down down ≡ []
unfolding rest_down
rest_calm down e = rw e refl

module _ {S L E A : Type 0} where
  -- A success with `Q`, after which nothing fails either.
  abbrev pub Succeeds : (A → S → Type 0) → (E ⊎ A) × World S L → Type 0
  Succeeds Q (inl e, w) = ⊥
  Succeeds Q (inr a, w) = Q a w.db × (w.down ≡ [])

  -- A success with what holds of every success.
  pub Succeeds-with :
      (R Q : A → S → Type 0) (old : S) (r : (E ⊎ A) × World S L)
      → Succeeds R r
      → Settled old Q r
      → Succeeds Q r
  Succeeds-with R Q old (inl e, w) s h = absurd s
  Succeeds-with R Q old (inr a, w) s h = (h, s.1)

  pub Succeeds-map :
      (R Q : A → S → Type 0) (r : (E ⊎ A) × World S L)
      → ((a : A) (s : S) → R a s → Q a s)
      → Succeeds R r
      → Succeeds Q r
  Succeeds-map R Q (inl e, w) f h = absurd h
  Succeeds-map R Q (inr a, w) f h = (f a w.db h.0, h.1)

  pub stmt-Succeeds :
      (Q : A → S → Type 0) (e : E) (f : S → A × S) (w : World S L)
      → w.down ≡ []
      → Q (f w.db).0 (f w.db).1
      → Succeeds Q (stmt e f w)
  unfolding stmt
  stmt-Succeeds Q e f w calm h = rw (next_calm w.down calm, stmt) (h, rest_calm w.down calm)

  finish-Succeeds :
      (Q : A → S → Type 0) (e : E) (old : S) (r : E ⊎ A) (v : World S L)
      → Succeeds Q (r, v)
      → Succeeds Q (finish e old r v)
  unfolding finish
  finish-Succeeds Q e old (inl e') v h = h
  finish-Succeeds Q e old (inr a) v (h, calm) =
      rw (next_calm v.down calm, finish) (h, rest_calm v.down calm)

  pub in_tx-Succeeds :
      (Q : A → S → Type 0) (b c : E) (body : Prog S L E A) (w : World S L)
      → w.down ≡ []
      → ((v : World S L) → v.db ≡ w.db → v.down ≡ [] → Succeeds Q (body v))
      → Succeeds Q (in_tx b c body w)
  unfolding in_tx
  in_tx-Succeeds Q b c body w calm h =
      let v : World S L = record w { down = rest_down w.down } in
      rw (next_calm w.down calm, in_tx)
        (finish-Succeeds Q c w.db (body v).0 (body v).1 (h v refl (rest_calm w.down calm)))

module _ {S L E A B : Type 0} where
  pub bind-Succeeds :
      (R : A → S → Type 0) (Q : B → S → Type 0) (m : Prog S L E A) (f : A → Prog S L E B)
      (w : World S L)
      → Succeeds R (m w)
      → ((a : A) (v : World S L) → R a v.db → v.down ≡ [] → Succeeds Q (f a v))
      → Succeeds Q ((m >>= f) w)
  unfolding ◌>>=◌ continue
  bind-Succeeds R Q m f w hm hf = go (m w).0 (m w).1 hm
    where
      go : (r : E ⊎ A) (v : World S L) → Succeeds R (r, v) → Succeeds Q (continue r v f)
      go (inl e) v h = absurd h
      go (inr a) v h = hf a v h.0 h.1

pub event-Succeeds :
    {S L A : Type 0} (E : Type 0) (Q : A → S → Type 0) (l : L) (a : A) (w : World S L)
    → w.down ≡ []
    → Q a w.db
    → Succeeds Q (record_event {E = E} l a w)
unfolding record_event
event-Succeeds E Q l a w calm h =
    rw (next_calm w.down calm, record_event) (h, rest_calm w.down calm)

pub pure-Succeeds :
    {S L A : Type 0} (E : Type 0) (Q : A → S → Type 0) (a : A) (w : World S L)
    → w.down ≡ []
    → Q a w.db
    → Succeeds Q (pure {E = E} a w)
unfolding pure
pure-Succeeds E Q a w calm h = (h, calm)
