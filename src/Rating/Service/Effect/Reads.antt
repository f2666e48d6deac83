-- ===== src/Rating/Service/Effect/Reads.antt =====
-- ApplyInTx of cmd/management/service/rating_service.go: reading the flag and the two rows.
use squash_bot.Prelude.{
  ℕ, ◌≡◌, ◌⊎◌, inl, inr, refl, sym, ap, ◌∙◌, Option, none, some, Bool, true, false, if◌then◌else◌,
  arith, Bool-cases, Option-cases,
}
use squash_bot.Prelude.Int.{eqb_ℤ_iff, eqb_ℤ_refl}
use squash_bot.Store.{World, pure, raise}
use squash_bot.Store.Hoare.{After, stmt-After, bind-After}
use squash_bot.Rating.Floats.{Floats}
use squash_bot.Rating.Tables.{GameResult, PlayerRating, Tables, find_rating, upsert, owns}
use squash_bot.Rating.Service.{
  Error, Event, one_row, initial, select_rating, insert_if_absent, insert_rating, or_again,
  or_insert, get_or_init, flag_or_unknown, flag_enabled,
}
use squash_bot.Rating.Service.Counts.{played, games_at, find_rating-upsert, games_at-upsert}
use squash_bot.Rating.Service.Effect.{IsPlayer, Stage, upsert-Kept}

module _ {F : Type 0} (fl : Floats F) (old : Tables F) (res : GameResult) where
  -- A row that was read before anything was written.
  abbrev pub Read : ℕ → PlayerRating F → Tables F → Type 0
  Read p row t =
      Stage fl old res 0 0 0 0 t × (row.games_played ≡ games_at res.group_id p old.ratings)

  select_rating-After :
      (p : ℕ) (w : World (Tables F) (Event F))
      → Stage fl old res 0 0 0 0 w.db
      → After
          (λ o t. Stage fl old res 0 0 0 0 t × (o ≡ find_rating res.group_id p t.ratings))
          (select_rating fl res.group_id p w)
  unfolding select_rating
  select_rating-After p w h =
      stmt-After (λ o t. Stage fl old res 0 0 0 0 t × (o ≡ find_rating res.group_id p t.ratings))
        Error.database _ w (h, refl)

  found_games :
      (p : ℕ) (row : PlayerRating F) (t : Tables F)
      → Stage fl old res 0 0 0 0 t
      → some row ≡ find_rating res.group_id p t.ratings
      → row.games_played ≡ games_at res.group_id p old.ratings
  found_games p row t h e =
      let g = h.games res.group_id p in
      let s : row.games_played ≡ games_at res.group_id p t.ratings = ap played e in
      omega (arith, g, s)

  or_again-After :
      (p : ℕ) (o : Option (PlayerRating F)) (w : World (Tables F) (Event F))
      → Stage fl old res 0 0 0 0 w.db
      → (o ≡ none) ⊎ (o ≡ find_rating res.group_id p w.db.ratings)
      → After (Read p) (or_again fl res.group_id p o w)
  unfolding or_again one_row
  or_again-After p (some r) w h (inl e) = absurd cc
  or_again-After p (some r) w h (inr e) = unfold pure in (h, found_games p r w.db h e)
  or_again-After p none w h e =
      bind-After (λ o t. Stage fl old res 0 0 0 0 t × (o ≡ find_rating res.group_id p t.ratings))
        (Read p) (select_rating fl res.group_id p) one_row w (select_rating-After p w h)
        (λ o v (k, f). again o v k f)
    where
      again :
          (o : Option (PlayerRating F)) (v : World (Tables F) (Event F))
          → Stage fl old res 0 0 0 0 v.db
          → o ≡ find_rating res.group_id p v.db.ratings
          → After (Read p) (one_row o v)
      again none v k f = unfold raise in tt
      again (some r) v k f = unfold pure in (k, found_games p r v.db k f)

  initial-Stage :
      (now p : ℕ) (t : Tables F)
      → IsPlayer fl old res p
      → Stage fl old res 0 0 0 0 t
      → find_rating res.group_id p t.ratings ≡ none
      → Stage fl old res 0 0 0 0
          (record t { ratings = upsert (initial fl now res.group_id p) t.ratings })
  unfolding initial
  initial-Stage now p t is h e = record {
    results_kept = h.results_kept;
    next_kept = h.next_kept;
    kept = upsert-Kept fl old res t (initial fl now res.group_id p) refl is h.kept;
    games = λ g q.
        let new = initial fl now res.group_id p in
        let u = games_at-upsert new t.ratings g q in
        elim (Bool-cases (owns g q new)) [
          | inl o ↦
              let a : res.group_id ≡ g = (eqb_ℤ_iff res.group_id g).0 (ground arith) in
              let b : p ≡ q = ground arith in
              let z : games_at res.group_id p t.ratings ≡ 0 = ap played e in
              let y : games_at g q t.ratings ≡ games_at res.group_id p t.ratings = cc in
              ground (arith, u, o, h.games g q, z, y)
          | inr o ↦ ground (arith, u, o, h.games g q)
        ];
    by_player = h.by_player;
    by_result = h.by_result;
  }

  or_insert-After :
      (now p : ℕ) (o : Option (PlayerRating F)) (w : World (Tables F) (Event F))
      → IsPlayer fl old res p
      → Stage fl old res 0 0 0 0 w.db
      → o ≡ find_rating res.group_id p w.db.ratings
      → After (Read p) (or_insert fl now res.group_id p o w)
  unfolding or_insert insert_rating insert_if_absent initial
  or_insert-After now p (some r) w is h e = unfold pure in (h, found_games p r w.db h e)
  or_insert-After now p none w is h e =
      bind-After Inserted (Read p) (insert_rating fl now res.group_id p)
        (or_again fl res.group_id p) w
        (stmt-After Inserted Error.database _ w (
          rw (← e) (
            initial-Stage now p w.db is h (sym e),
            inr (
                sym (
                  find_rating-upsert (initial fl now res.group_id p) w.db.ratings res.group_id p
                  ∙ own)),
          )))
        (λ o v (k, f). or_again-After p o v k f)
    where
      Inserted : Option (PlayerRating F) → Tables F → Type 0
      Inserted o t =
          Stage fl old res 0 0 0 0 t × ((o ≡ none) ⊎ (o ≡ find_rating res.group_id p t.ratings))

      own :
          (if owns res.group_id p (initial fl now res.group_id p)
            then some (initial fl now res.group_id p)
            else find_rating res.group_id p w.db.ratings)
          ≡ some (initial fl now res.group_id p)
      own = ground (arith, eqb_ℤ_refl res.group_id)

  pub get_or_init-After :
      (now p : ℕ) (w : World (Tables F) (Event F))
      → IsPlayer fl old res p
      → Stage fl old res 0 0 0 0 w.db
      → After (Read p) (get_or_init fl now res.group_id p w)
  unfolding get_or_init
  get_or_init-After now p w is h =
      bind-After (λ o t. Stage fl old res 0 0 0 0 t × (o ≡ find_rating res.group_id p t.ratings))
        (Read p) (select_rating fl res.group_id p) (or_insert fl now res.group_id p) w
        (select_rating-After p w h) (λ o v (k, f). or_insert-After now p o v is k f)

  pub flag_enabled-After :
      (has_flags : Bool) (w : World (Tables F) (Event F))
      → Stage fl old res 0 0 0 0 w.db
      → After (λ b t. Stage fl old res 0 0 0 0 t) (flag_enabled fl has_flags res.group_id w)
  unfolding flag_enabled flag_or_unknown
  flag_enabled-After false w h = unfold pure in h
  flag_enabled-After true w h =
      bind-After (λ o t. Stage fl old res 0 0 0 0 t) (λ b t. Stage fl old res 0 0 0 0 t) _
        (flag_or_unknown fl) w (stmt-After (λ o t. Stage fl old res 0 0 0 0 t) Error.database _ w h)
        (λ o v k. elim (Option-cases o) [
          | inl e ↦ rw e (unfold raise in tt)
          | inr (s, e) ↦ rw e (unfold pure in k)
        ])
