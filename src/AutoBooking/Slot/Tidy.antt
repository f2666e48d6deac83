-- ===== src/AutoBooking/Slot/Tidy.antt =====
-- processTimeSlot of cmd/management/service/auto_booking.go keeps the rounds and the results tidy.
use squash_bot.Prelude.{
  ℕ, ◌≡◌, refl, Option, none, some, true, false, ◌&&◌, List, [], ◌∷◌, length, is_nil, ℤ,
}
use squash_bot.Prelude.Text.{Text, join}
use squash_bot.Store.{pure}
use squash_bot.Store.Hoare.{
  After, After-map, bind-After, attempt-After, effect-After, if_else-After,
}
use squash_bot.Booking.Rotation.{Call, Run, Failure, Outcome, hard_error, result}
use squash_bot.Venues.{Venue}
use squash_bot.AutoBooking.Notify.{Notice, success, fail_dm, no_credentials}
use squash_bot.AutoBooking.State.{Round, State, find_result, save, set_game_id}
use squash_bot.AutoBooking.Slot.{
  GameDate, Answers, tell, create, after_create, create_unpublished_game, notice_of,
  notify_failures, note, is_saved, after_save, persist, give_up, with_result, with_outcome,
  process_time_slot,
}
use squash_bot.AutoBooking.State.History.{
  W, has_result, IsTidy, IsFurther, IsTidy-further, slot_unsaved, find_result-has_result, save_lem,
  set_game_id-Further, Further-trans,
}

-- What leaves the rounds and the results alone.
abbrev IsStill : State → State → Type 0
IsStill old t = (t.rounds ≡ old.rounds) × (t.results ≡ old.results)

Still→Further : (old t : State) → IsStill old t → IsFurther old t
Still→Further old t h = (h.0, λ v d x k. rw (h.1) k)

tell-After :
    (a : Answers) (n : Notice) (old : State) (w : W)
    → IsStill old w.db
    → After (λ _ t. IsStill old t) (tell a n w)
unfolding tell
tell-After a n old w h = effect-After ⊥ _ _ w h

notify_failures-After :
    (a : Answers) (venue : Venue) (date : GameDate) (time : Text) (booked target : ℕ)
    (fs : List Failure) (old : State) (w : W)
    → IsStill old w.db
    → After (λ _ t. IsStill old t) (notify_failures a venue date time booked target fs w)
unfolding notify_failures pure
notify_failures-After a venue date time booked target [] old w h = h
notify_failures-After a venue date time booked target (f ∷ fs) old w h =
    bind-After (λ _ t. IsStill old t) _ _ _ w
      (tell-After a (notice_of a venue date time booked target f) old w h)
      λ _ v k. notify_failures-After a venue date time booked target fs old v k

after_create-After :
    (a : Answers) (venue : Venue) (date : GameDate) (time : Text) (id : ℕ) (g : Option ℕ)
    (old : State) (w : W)
    → IsStill old w.db
    → After (λ _ t. IsFurther old t) (after_create a venue date time id g w)
unfolding after_create pure
after_create-After a venue date time id none old w h =
    After-map (λ _ t. IsStill old t) (λ _ t. IsFurther old t) _ (λ _ t k. Still→Further old t k)
      (tell-After a _ old w h)
after_create-After a venue date time id (some g) old w h =
    bind-After (λ _ t. IsFurther old t) _ _ _ w
      (attempt-After ⊥ (λ _ t. IsFurther old t) (set_game_id id g) w (Still→Further old w.db h)
        (Further-trans old w.db (set_game_id id g w.db).1 (Still→Further old w.db h)
          (set_game_id-Further id g w.db)))
      λ _ v k. k

create_unpublished_game-After :
    (a : Answers) (chat : ℤ) (venue : Venue) (date : GameDate) (time courts : Text) (count id : ℕ)
    (w : W)
    → After
        (λ _ t. IsFurther w.db t)
        (create_unpublished_game a chat venue date time courts count id w)
unfolding create_unpublished_game create pure
create_unpublished_game-After a chat venue date time courts count id w =
    if_else-After ⊥ (λ _ t. IsFurther w.db t) a.has_games _ _ w
      (bind-After (λ _ t. IsStill w.db t) _ _ _ w
        (attempt-After ⊥ (λ _ t. IsStill w.db t) _ w (refl, refl) (refl, refl))
        λ g v k. after_create-After a venue date time id g w.db v k)
      (refl, λ v d x h. h)

-- Writing down a round of a slot that had no result.
note-IsTidy :
    (r : Round) (old : State) (w : W)
    → IsTidy old
    → has_result r.venue_id r.game_date r.game_time old.results ≡ false
    → IsFurther old w.db
    → (r.saved ≡ true → has_result r.venue_id r.game_date r.game_time w.db.results ≡ true)
    → After (λ _ t. IsTidy t) (note r w)
unfolding note
note-IsTidy r old w h n f k =
    let tidy = IsTidy-further old w.db h f in
    effect-After ⊥ (λ (_ : Unit {0}) t. IsTidy t) _ w
      ((rw (f.0) (slot_unsaved r old.results old.rounds n h.1), tidy.0), (k, tidy.1))

tell-IsTidy :
    (a : Answers) (n : Notice) (w : W) → IsTidy w.db → After (λ _ t. IsTidy t) (tell a n w)
tell-IsTidy a n w h =
    After-map (λ _ t. IsStill w.db t) (λ _ t. IsTidy t) _
      (λ _ t k. IsTidy-further w.db t h (Still→Further w.db t k))
      (tell-After a n w.db w (refl, refl))

-- A round that booked nothing.
give_up-IsTidy :
    (venue : Venue) (date : GameDate) (time : Text) (calls : List Call) (old : State) (w : W)
    → IsTidy old
    → has_result venue.id date.day time old.results ≡ false
    → IsStill old w.db
    → After (λ _ t. IsTidy t) (give_up venue date time calls w)
unfolding give_up pure
give_up-IsTidy venue date time calls old w h n k =
    bind-After (λ _ t. IsTidy t) _ _ _ w
      (note-IsTidy
        (record {
          venue_id = venue.id;
          game_date = date.day;
          game_time = time;
          calls = calls;
          saved = false;
        })
        old w h n (Still→Further old w.db k) (λ e. cc))
      λ _ v t. t

after_save-IsTidy :
    (a : Answers) (chat : ℤ) (venue : Venue) (date : GameDate) (time courts : Text) (count : ℕ)
    (id : Option ℕ) (w : W)
    → IsTidy w.db
    → After (λ _ t. IsTidy t) (after_save a chat venue date time courts count id w)
unfolding after_save pure
after_save-IsTidy a chat venue date time courts count none w h = h
after_save-IsTidy a chat venue date time courts count (some id) w h =
    After-map (λ _ t. IsFurther w.db t) (λ _ t. IsTidy t) _ (λ _ t f. IsTidy-further w.db t h f)
      (create_unpublished_game-After a chat venue date time courts count id w)

-- What the save leaves, by its answer.
IsSavedAs : ℕ → ℕ → Text → State → Option ℕ → State → Type 0
IsSavedAs venue date time old id t =
    IsFurther old t × (is_saved id ≡ true → has_result venue date time t.results ≡ true)

persist-IsTidy :
    (a : Answers) (chat : ℤ) (venue : Venue) (date : GameDate) (time : Text) (run : Run)
    (old : State) (w : W)
    → IsTidy old
    → has_result venue.id date.day time old.results ≡ false
    → IsStill old w.db
    → After (λ _ t. IsTidy t) (persist a chat venue date time run w)
unfolding persist pure IsSavedAs
persist-IsTidy a chat venue date time run old w h n k =
    let courts = join run.booked_labels b',' in
    let count = length run.booked_labels in
    let saved = save_lem venue.id date.day time courts count w.db in
    let from = Still→Further old w.db k in
    bind-After (λ id t. IsSavedAs venue.id date.day time old id t) _ _ _ w
      (attempt-After ⊥ (λ id t. IsSavedAs venue.id date.day time old id t)
        (save venue.id date.day time courts count) w (from, λ e. cc)
        (
          Further-trans old w.db (save venue.id date.day time courts count w.db).1 from saved.0,
          λ _. saved.1,
        ))
      λ id v1 s.
        bind-After (λ _ t. IsTidy t) _ _ _ v1
          (note-IsTidy
            (record {
              venue_id = venue.id;
              game_date = date.day;
              game_time = time;
              calls = run.calls;
              saved = is_saved id;
            })
            old v1 h n s.0 s.1)
          λ _ v2 t.
            bind-After (λ _ t. IsTidy t) _ _ _ v2
              (after_save-IsTidy a chat venue date time courts count id v2 t)
              λ _ v3 u.
                bind-After (λ _ t. IsTidy t) _ _ _ v3
                  (tell-IsTidy a (success count venue.name date.text time) v3 u) λ _ v4 x. x

with_result-IsTidy :
    (a : Answers) (chat : ℤ) (venue : Venue) (date : GameDate) (time : Text) (target : ℕ)
    (run : Run) (w : W)
    → IsTidy w.db
    → has_result venue.id date.day time w.db.results ≡ false
    → After (λ _ t. IsTidy t) (with_result a chat venue date time target run w)
unfolding with_result
with_result-IsTidy a chat venue date time target run w h n =
    if_else-After ⊥ (λ _ t. IsTidy t) (is_nil run.booked_labels && is_nil run.failures) _ _ w
      (bind-After (λ _ t. IsStill w.db t) _ _ _ w
        (tell-After a (no_credentials venue.name) w.db w (refl, refl))
        λ _ v k. give_up-IsTidy venue date time run.calls w.db v h n k)
      (bind-After (λ _ t. IsStill w.db t) _ _ _ w
        (notify_failures-After a venue date time (length run.booked_labels) target run.failures w.db
          w (refl, refl))
        λ _ v k.
          if_else-After ⊥ (λ _ t. IsTidy t) (is_nil run.booked_labels) _ _ v
            (give_up-IsTidy venue date time run.calls w.db v h n k)
            (persist-IsTidy a chat venue date time run w.db v h n k))

with_outcome-IsTidy :
    (a : Answers) (chat : ℤ) (venue : Venue) (date : GameDate) (time : Text) (target : ℕ)
    (o : Outcome) (w : W)
    → IsTidy w.db
    → has_result venue.id date.day time w.db.results ≡ false
    → After (λ _ t. IsTidy t) (with_outcome a chat venue date time target o w)
unfolding with_outcome
with_outcome-IsTidy a chat venue date time target (hard_error e) w h n =
    bind-After (λ _ t. IsStill w.db t) _ _ _ w
      (tell-After a (fail_dm venue.name date.text time 0 target) w.db w (refl, refl))
      λ _ v k. give_up-IsTidy venue date time [] w.db v h n k
with_outcome-IsTidy a chat venue date time target (result run) w h n =
    with_result-IsTidy a chat venue date time target run w h n

-- A slot without a result is booked, and the rounds stay tidy.
pub process_time_slot-IsTidy :
    (a : Answers) (chat : ℤ) (venue : Venue) (date : GameDate) (time : Text) (target : ℕ) (w : W)
    → IsTidy w.db
    → find_result venue.id date.day time w.db.results ≡ none
    → After (λ _ t. IsTidy t) (process_time_slot a chat venue date time target w)
unfolding process_time_slot
process_time_slot-IsTidy a chat venue date time target w h n =
    with_outcome-IsTidy a chat venue date time target _ w h
      (find_result-has_result venue.id date.day time w.db.results n)
