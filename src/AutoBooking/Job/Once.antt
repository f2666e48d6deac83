-- ===== src/AutoBooking/Job/Once.antt =====
-- The loops of cmd/management/service/auto_booking.go book a slot once.
use squash_bot.Prelude.{
  ℕ, ◌≡◌, refl, Option, none, some, Bool, true, false, List, [], ◌∷◌, length, ℤ,
}
use squash_bot.Prelude.Text.{Text}
use squash_bot.Store.{pure}
use squash_bot.Store.Hoare.{After, bind-After, attempt-After, if_else-After}
use squash_bot.Venues.{Venue}
use squash_bot.AutoBooking.State.{AutoBookingResult, find_result}
use squash_bot.AutoBooking.Slot.{GameDate}
use squash_bot.AutoBooking.State.History.{W, IsTidy}
use squash_bot.AutoBooking.Slot.Tidy.{process_time_slot-IsTidy}
use squash_bot.AutoBooking.Job.{
  Group, Clock, Services, set_last_auto_booking_at, unless_done, time_loop, mark_if, may_book,
  process_auto_booking_for_venue, is_due, venue_loop, resolve_group_timezone, fires, with_venues,
  group_loop, run_auto_booking,
}

mark_if-IsTidy :
    (id : ℕ) (b : Bool) (w : W) → IsTidy w.db → After (λ _ t. IsTidy t) (mark_if id b w)
unfolding mark_if set_last_auto_booking_at pure
mark_if-IsTidy id false w h = h
mark_if-IsTidy id true w h =
    bind-After (λ _ t. IsTidy t) _ _ _ w (attempt-After ⊥ (λ _ t. IsTidy t) _ w h h) λ _ v k. k

module _ (services : Services) where
  unless_done-IsTidy :
      (chat : ℤ) (venue : Venue) (date : GameDate) (time : Text) (target : ℕ)
      (r : Option (Option AutoBookingResult)) (w : W)
      → IsTidy w.db
      → (r ≡ some none → find_result venue.id date.day time w.db.results ≡ none)
      → After (λ _ t. IsTidy t) (unless_done services chat venue date time target r w)
  unfolding unless_done pure
  unless_done-IsTidy chat venue date time target none w h n = h
  unless_done-IsTidy chat venue date time target (some (some r)) w h n = h
  unless_done-IsTidy chat venue date time target (some none) w h n =
      process_time_slot-IsTidy (services (length w.db.rounds)) chat venue date time target w h
        (n refl)

  time_loop-IsTidy :
      (chat : ℤ) (venue : Venue) (date : GameDate) (target : ℕ) (times : List Text) (w : W)
      → IsTidy w.db
      → After (λ _ t. IsTidy t) (time_loop services chat venue date target times w)
  unfolding time_loop pure
  time_loop-IsTidy chat venue date target [] w h = h
  time_loop-IsTidy chat venue date target (time ∷ times) w h =
      bind-After (λ _ t. IsTidy t) _ _ _ w
        (bind-After
          (λ r t. IsTidy t × (r ≡ some none → find_result venue.id date.day time t.results ≡ none))
          _ _ _ w
          (attempt-After ⊥
            (λ r t.
              IsTidy t × (r ≡ some none → find_result venue.id date.day time t.results ≡ none))
            _ w (h, λ e. cc) (h, λ e. cc))
          λ r v k. unless_done-IsTidy chat venue date time target r v k.0 k.1)
        λ b v k.
          bind-After (λ _ t. IsTidy t) _ _ _ v (time_loop-IsTidy chat venue date target times v k)
            λ c u l. l

  process_auto_booking_for_venue-IsTidy :
      (chat : ℤ) (venue : Venue) (c : Clock) (w : W)
      → IsTidy w.db
      → After (λ _ t. IsTidy t) (process_auto_booking_for_venue services chat venue c w)
  unfolding process_auto_booking_for_venue pure
  process_auto_booking_for_venue-IsTidy chat venue c w h =
      if_else-After ⊥ (λ _ t. IsTidy t) (may_book venue) _ _ w
        (bind-After (λ _ t. IsTidy t) _ _ _ w (time_loop-IsTidy chat venue _ _ _ w h)
          λ b v k. mark_if-IsTidy venue.id b v k)
        h

  venue_loop-IsTidy :
      (chat : ℤ) (c : Clock) (venues : List Venue) (w : W)
      → IsTidy w.db
      → After (λ _ t. IsTidy t) (venue_loop services chat c venues w)
  unfolding venue_loop pure
  venue_loop-IsTidy chat c [] w h = h
  venue_loop-IsTidy chat c (venue ∷ venues) w h =
      bind-After (λ _ t. IsTidy t) _ _ _ w
        (if_else-After ⊥ (λ (_ : Bool) t. IsTidy t) (is_due venue c) _ _ w
          (process_auto_booking_for_venue-IsTidy chat venue c w h) h)
        λ b v k.
          bind-After (λ _ t. IsTidy t) _ _ _ v (venue_loop-IsTidy chat c venues v k) λ n u l. l

module _ (services : Services) (load_location : Text → Option Text) (loc : Text)
    (clock : Text → Clock) (venues_of : ℤ → Option (List Venue)) where
  with_venues-IsTidy :
      (chat : ℤ) (c : Clock) (r : Option (List Venue)) (w : W)
      → IsTidy w.db
      → After (λ _ t. IsTidy t) (with_venues services load_location loc clock venues_of chat c r w)
  unfolding with_venues pure
  with_venues-IsTidy chat c none w h = h
  with_venues-IsTidy chat c (some venues) w h = venue_loop-IsTidy services chat c venues w h

  group_loop-IsTidy :
      (force : Bool) (gs : List Group) (w : W)
      → IsTidy w.db
      → After (λ _ t. IsTidy t) (group_loop services load_location loc clock venues_of force gs w)
  unfolding group_loop pure
  group_loop-IsTidy force [] w h = h
  group_loop-IsTidy force (g ∷ gs) w h =
      let c = clock (resolve_group_timezone load_location loc g.timezone) in
      bind-After (λ _ t. IsTidy t) _ _ _ w
        (if_else-After ⊥ (λ (_ : ℕ) t. IsTidy t) (fires force g c) _ _ w
          (with_venues-IsTidy g.chat_id c (venues_of g.chat_id) w h) h)
        λ n v k. bind-After (λ _ t. IsTidy t) _ _ _ v (group_loop-IsTidy force gs v k) λ m u l. l

  -- Over any runs of the job, whatever fails and whatever the other services answer, no round of
  -- booking is of a slot (a venue, a date and a time) whose booking an earlier round had saved,
  -- and the result of every round that was saved is in the database: a run keeps this so.
  pub run_auto_booking-IsTidy :
      (has_client force : Bool) (groups : Option (List Group)) (w : W)
      → IsTidy w.db
      → After
          (λ _ t. IsTidy t)
          (run_auto_booking services load_location loc clock venues_of has_client force groups w)
  unfolding run_auto_booking pure
  run_auto_booking-IsTidy has_client force none w h = h
  run_auto_booking-IsTidy has_client force (some groups) w h =
      if_else-After ⊥ (λ _ t. IsTidy t) has_client _ _ w (group_loop-IsTidy force groups w h) h
