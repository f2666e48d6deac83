-- ===== src/Venues/Service/Inserts.antt =====
-- insertVenueSports of cmd/management/storage/venue_repo.go: the constraints of the table let every
-- sport of an acceptable list through.
use squash_bot.Prelude.{
  ℕ, ◌≡◌, refl, sym, ap, ◌∙◌, Option, none, some, true, false, List, [], ◌∷◌, ◌++◌, map,
  append_assoc, append-nil, ℤ, arith, All,
}
use squash_bot.Prelude.Text.{Text, text_eq}
use squash_bot.Prelude.Text.Sets.{member}
use squash_bot.Store.{World, pure}
use squash_bot.Store.Calm.{Succeeds, stmt-Succeeds, bind-Succeeds, Succeeds-map}
use squash_bot.Store.Checks.{require-Succeeds}
use squash_bot.Venues.{VenueSport, sport_names}
use squash_bot.Venues.Accepted.{IsPlayable, IsOffered, AreSports}
use squash_bot.Venues.Tables.{
  SportRow, Tables, find_venue, has_sport, positive, is_found, sport_allowed, insert_sport, offers,
}
use squash_bot.Venues.Service.{ServiceError, insert_venue_sports}

-- The rows of a venue's sports.
abbrev pub sport_rows : ℕ → List VenueSport → List SportRow
sport_rows id ss = map (λ s. record { venue_id = id; offer = s }) ss

pub offers-append :
    (id : ℕ) (xs ys : List SportRow) → offers id (xs ++ ys) ≡ offers id xs ++ offers id ys
offers-append id [] ys = refl
offers-append id (x ∷ xs) ys = ground (arith, offers-append id xs ys)

pub offers-sport_rows : (id : ℕ) (ss : List VenueSport) → offers id (sport_rows id ss) ≡ ss
offers-sport_rows id [] = refl
offers-sport_rows id (s ∷ ss) = ground (arith, offers-sport_rows id ss)

has_sport-append :
    (id : ℕ) (x : Text) (rs : List SportRow) (s : VenueSport)
    → has_sport id x rs ≡ false
    → text_eq s.sport x ≡ false
    → has_sport id x (rs ++ record { venue_id = id; offer = s } ∷ []) ≡ false
has_sport-append id x [] s h k = ground arith
has_sport-append id x (r ∷ rs) s h k = ground (arith, has_sport-append id x rs s)

-- The venue has none of the sports yet.
abbrev pub AllNew : ℕ → List SportRow → List VenueSport → Type 0
AllNew id rows ss = All (λ s. has_sport id s.sport rows ≡ false) ss

AllNew-append :
    (id : ℕ) (rows : List SportRow) (s : VenueSport) (ss : List VenueSport)
    → member s.sport (sport_names ss) ≡ false
    → AllNew id rows ss
    → AllNew id (rows ++ record { venue_id = id; offer = s } ∷ []) ss
unfolding member
AllNew-append id rows s [] h k = tt
AllNew-append id rows s (x ∷ ss) h k = (
  has_sport-append id x.sport rows s k.0 (ground arith),
  AllNew-append id rows s ss (ground arith) k.1,
)

positive_of-IsPlayable : (s : Text) (n : Option ℤ) → IsPlayable s n → positive n ≡ true
positive_of-IsPlayable s none h = refl
positive_of-IsPlayable s (some n) h = ground arith

sport_allowed-true :
    (id : ℕ) (s : VenueSport) (t : Tables)
    → is_found (find_venue id t.venues) ≡ true
    → IsOffered s
    → has_sport id s.sport t.sports ≡ false
    → sport_allowed id s t ≡ true
unfolding sport_allowed
sport_allowed-true id s t f o n =
    ground (arith, positive_of-IsPlayable s.sport s.players_per_court o.2)

-- The tables with more rows of sports.
abbrev pub with_sports : Tables → List SportRow → Tables
with_sports t rows = record t { sports = t.sports ++ rows }

pub with_sports-cons :
    (t : Tables) (r : SportRow) (rows : List SportRow)
    → with_sports (with_sports t (r ∷ [])) rows ≡ with_sports t (r ∷ rows)
with_sports-cons t r rows =
    ap {A = List SportRow} {B = Tables} (λ l. record t { sports = l })
      (append_assoc t.sports (r ∷ []) rows)

insert_sport-true :
    (id : ℕ) (s : VenueSport) (t : Tables)
    → sport_allowed id s t ≡ true
    → insert_sport id s t ≡ (true, with_sports t (sport_rows id (s ∷ [])))
unfolding insert_sport
insert_sport-true id s t ok = rw ok refl

-- The loop of the inserts stores every sport of an acceptable list.
pub insert_venue_sports-Succeeds :
    (id : ℕ) (ss : List VenueSport) (w : World Tables (Unit {0}))
    → w.down ≡ []
    → is_found (find_venue id w.db.venues) ≡ true
    → AreSports ss
    → AllNew id w.db.sports ss
    → Succeeds (λ _ t. t ≡ with_sports w.db (sport_rows id ss)) (insert_venue_sports id ss w)
unfolding insert_venue_sports
insert_venue_sports-Succeeds id [] w calm f a n =
    unfold pure in
    (
      ap {A = List SportRow} {B = Tables} (λ l. record w.db { sports = l })
          (sym (append-nil w.db.sports)),
      calm,
    )
insert_venue_sports-Succeeds id (s ∷ ss) w calm f a n =
    bind-Succeeds (λ ok t. (ok ≡ true) × (t ≡ with_sports w.db (sport_rows id (s ∷ []))))
      (λ _ t. t ≡ with_sports w.db (sport_rows id (s ∷ ss))) _ _ w
      (stmt-Succeeds _ ServiceError.database (insert_sport id s) w calm (
        let e = insert_sport-true id s w.db (sport_allowed-true id s w.db f a.0.0 n.0) in
        (ap (λ r. r.0) e, ap (λ r. r.1) e)))
      (λ ok v h c.
        bind-Succeeds (λ _ t. t ≡ with_sports w.db (sport_rows id (s ∷ [])))
          (λ _ t. t ≡ with_sports w.db (sport_rows id (s ∷ ss))) _ _ v
          (require-Succeeds _ ok ServiceError.violation v c h.0 h.1)
          (λ _ u k d.
            Succeeds-map (λ _ t. t ≡ with_sports u.db (sport_rows id ss))
              (λ _ t. t ≡ with_sports w.db (sport_rows id (s ∷ ss))) _
              (λ _ t e.
                e ∙ (ap (λ x. with_sports x (sport_rows id ss)) k ∙ with_sports-cons w.db _ _))
              (insert_venue_sports-Succeeds id ss u d (rw k f) (a.0.1, a.1.1)
                (rw k (AllNew-append id w.db.sports s ss a.1.0 n.1)))))
