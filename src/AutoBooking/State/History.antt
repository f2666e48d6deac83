-- ===== src/AutoBooking/State/History.antt =====
-- The rounds of booking and the saved results of cmd/management/service/auto_booking.go, and the
-- statements that change them.
use squash_bot.Prelude.{
  ℕ, ◌≡◌, inl, inr, refl, ◌∙◌, Option, none, some, Bool, true, false, ◌||◌, List, [], ◌∷◌, ◌++◌,
  map, ◌==◌, if◌then◌else◌, arith, Bool-cases, All,
}
use squash_bot.Prelude.Text.{Text}
use squash_bot.Prelude.Text.Equality.{text_eq_refl}
use squash_bot.Store.{World}
use squash_bot.AutoBooking.State.{
  AutoBookingResult, Round, State, is_slot, find_result, save_new, save, set_game_id,
}

abbrev pub W : Type 0
W = World State (Unit {0})

-- Whether the slot has a result.
abbrev pub has_result : ℕ → ℕ → Text → List AutoBookingResult → Bool
has_result venue date time [] = false
has_result venue date time (r ∷ rs) = is_slot venue date time r || has_result venue date time rs

abbrev pub SameSlot : Round → Round → Type 0
SameSlot q r = (q.venue_id ≡ r.venue_id) × (q.game_date ≡ r.game_date) × (q.game_time ≡ r.game_time)

-- No round is of a slot whose booking an earlier round had saved.
abbrev pub IsOnce : List Round → Type 0
IsOnce [] = Unit {0}
IsOnce (r ∷ rs) = All (λ q. SameSlot q r → q.saved ≡ false) rs × IsOnce rs

-- The result of a round that was saved is there.
abbrev pub IsLinked : List Round → List AutoBookingResult → Type 0
IsLinked rounds results =
    All (λ q. q.saved ≡ true → has_result q.venue_id q.game_date q.game_time results ≡ true) rounds

abbrev pub IsTidy : State → Type 0
IsTidy t = IsOnce t.rounds × IsLinked t.rounds t.results

-- No result is lost.
abbrev pub Grows : List AutoBookingResult → List AutoBookingResult → Type 0
Grows old new =
    (venue date : ℕ) (time : Text)
    → has_result venue date time old ≡ true
    → has_result venue date time new ≡ true

abbrev pub IsFurther : State → State → Type 0
IsFurther old t = (t.rounds ≡ old.rounds) × Grows old.results t.results

IsLinked-Grows :
    (rounds : List Round) (old new : List AutoBookingResult)
    → Grows old new
    → IsLinked rounds old
    → IsLinked rounds new
IsLinked-Grows [] old new g h = tt
IsLinked-Grows (q ∷ rounds) old new g h =
    (λ s. g q.venue_id q.game_date q.game_time (h.0 s), IsLinked-Grows rounds old new g h.1)

pub IsTidy-further : (old t : State) → IsTidy old → IsFurther old t → IsTidy t
IsTidy-further old t h f = rw (f.0) (h.0, IsLinked-Grows old.rounds old.results t.results f.1 h.1)

-- A slot without a result has no round that saved one.
pub slot_unsaved :
    (r : Round) (results : List AutoBookingResult) (rounds : List Round)
    → has_result r.venue_id r.game_date r.game_time results ≡ false
    → IsLinked rounds results
    → All (λ q. SameSlot q r → q.saved ≡ false) rounds
slot_unsaved r results [] n h = tt
slot_unsaved r results (q ∷ rounds) n h = (
  λ same. elim (Bool-cases q.saved) [
    | inl e ↦
        let found : has_result r.venue_id r.game_date r.game_time results ≡ true =
          rw (same.0, same.1, same.2) at (h.0 e) in
        absurd cc
    | inr e ↦ e
  ],
  slot_unsaved r results rounds n h.1,
)

pub find_result-has_result :
    (venue date : ℕ) (time : Text) (rs : List AutoBookingResult)
    → find_result venue date time rs ≡ none
    → has_result venue date time rs ≡ false
find_result-has_result venue date time [] h = refl
find_result-has_result venue date time (r ∷ rs) h = elim (Bool-cases (is_slot venue date time r)) [
  | inl e ↦ absurd (ground arith)
  | inr e ↦ rw e (find_result-has_result venue date time rs (rw e at h))
]

has_result-find_result :
    (venue date : ℕ) (time : Text) (rs : List AutoBookingResult) (r : AutoBookingResult)
    → find_result venue date time rs ≡ some r
    → has_result venue date time rs ≡ true
has_result-find_result venue date time [] r h = cc
has_result-find_result venue date time (x ∷ rs) r h =
    elim (Bool-cases (is_slot venue date time x)) [
      | inl e ↦ rw e refl
      | inr e ↦ rw e (has_result-find_result venue date time rs r (rw e at h))
    ]

has_result-append :
    (venue date : ℕ) (time : Text) (rs : List AutoBookingResult) (r : AutoBookingResult)
    → has_result venue date time (rs ++ r ∷ [])
      ≡ (has_result venue date time rs || is_slot venue date time r)
has_result-append venue date time [] r = ground arith
has_result-append venue date time (x ∷ rs) r =
    let rest = has_result-append venue date time rs r in ground arith

-- A save loses no result, and its slot has one.
save_new_lem :
    (o : Option AutoBookingResult) (venue date : ℕ) (time courts : Text) (count : ℕ) (t : State)
    → find_result venue date time t.results ≡ o
    → IsFurther t (save_new o venue date time courts count t).1
      × (has_result venue date time (save_new o venue date time courts count t).1.results ≡ true)
unfolding save_new
save_new_lem (some r) venue date time courts count t e =
    ((refl, λ v d x h. h), has_result-find_result venue date time t.results r e)
save_new_lem none venue date time courts count t e =
    let r : AutoBookingResult = record {
      id = t.next_result;
      venue_id = venue;
      game_date = date;
      game_time = time;
      courts = courts;
      courts_count = count;
      game_id = none;
    } in
    let own : is_slot venue date time r ≡ true = let same = text_eq_refl time in ground arith in
    (
      (refl, λ v d x h. rw (has_result-append v d x t.results r, h) refl),
      rw (has_result-append venue date time t.results r, own) (ground arith),
    )

pub save_lem :
    (venue date : ℕ) (time courts : Text) (count : ℕ) (t : State)
    → IsFurther t (save venue date time courts count t).1
      × (has_result venue date time (save venue date time courts count t).1.results ≡ true)
unfolding save
save_lem venue date time courts count t =
    save_new_lem (find_result venue date time t.results) venue date time courts count t refl

set_game_id-Grows :
    (id game v d : ℕ) (x : Text) (rs : List AutoBookingResult)
    → has_result v d x (
        map {B = AutoBookingResult}
          (λ r. if r.id == id then record r { game_id = some game } else r)
          rs)
      ≡ has_result v d x rs
set_game_id-Grows id game v d x [] = refl
set_game_id-Grows id game v d x (r ∷ rs) =
    let rest = set_game_id-Grows id game v d x rs in
    elim (Bool-cases (r.id == id)) [ inl e ↦ rw (e, rest) refl | inr e ↦ rw (e, rest) refl ]

pub set_game_id-Further : (id game : ℕ) (t : State) → IsFurther t (set_game_id id game t).1
unfolding set_game_id
set_game_id-Further id game t = (refl, λ v d x h. rw (set_game_id-Grows id game v d x t.results) h)

pub Further-trans : (a b c : State) → IsFurther a b → IsFurther b c → IsFurther a c
Further-trans a b c f g = (g.0 ∙ f.0, λ v d x h. g.1 v d x (f.1 v d x h))
