-- ===== src/Lib.antt =====
-- Squash Bot: a model of the core of the management service of a Telegram bot that books squash
-- courts, keeps the players of a game and rates them, with the theorems that make it correct.
--
-- The parts and how they meet. A group has venues (Venues), each for some sports (Sports), with the
-- credentials of its accounts at the booking site (Booking.Credentials). Games have courts, named by
-- their numbers (Courts). The booking job (AutoBooking) and the booking command (Games) rotate
-- through the credentials and book free courts (Booking); the reminder before a game frees unused
-- ones (Cancellation). A game is created, published and changed (Games), and players join it, skip
-- it and bring guests (Participation). Players are users, whom an identity of a provider names
-- (Users). Players submit results, which the opponent or a job approves (Results) after their score
-- is checked (ResultScore); an approval rates both players in the same database transaction
-- (Rating), by a policy that a feature flag switches (Flags). Transactions and failing statements
-- are those of Store.
--
--   Prelude       numbers, lists and Go's strings, which the other files share
--   ResultScore   internal/resultscore/score.go
--   Sports        internal/sport/sport.go
--   Courts        the court lists of cmd/management/service/auto_booking.go and
--                 court_cancellation.go: Labels has the parsing, Free the choice of free courts,
--                 Groups the grouping of courts and the choice of those to cancel
--   Booking       Credentials is venue_credential_service.go, with the statements of
--                 venue_credential_repo.go in its Service; Rotation is booking_core.go
--   AutoBooking   auto_booking.go: Notify has the messages to the administrators, State the results
--                 of auto_booking_result_repo.go, Slot the booking of a time slot, Job the loops
--                 over groups, venues and times
--   Cancellation  court_cancellation.go: the selection of courts, and below it Cancel, the calls
--                 and the game's row
--   Store         the use of pgx in cmd/management/storage and service: statements, transactions,
--                 best-effort audit rows; Hoare, Calm, Checks and Ends reason about them
--   Flags         internal/featureflags/flags.go, cmd/management/storage/feature_flag_repo.go and
--                 cmd/management/service/feature_flag_service.go
--   Rating        cmd/management/service/rating (Glicko, Policy), the tables of results and ratings
--                 (Tables) and rating_service.go (Service, Leaderboard)
--   Results       game_result_service.go, game_result_repo.go and auto_approve_results.go: Submit,
--                 the decisions, and Ledger, the tables over time
--   Participation participation_service.go over participation_repo.go, guest_repo.go and
--                 player_repo.go: the addition of a guest, and in Service the other operations
--   Venues        internal/models/venue.go, venue_service.go and venue_repo.go, with the constraints
--                 of the tables and the check of bookings in court_booking_repo.go
--   Games         internal/models/game.go, game_service.go and the statements it uses of
--                 game_repo.go: Courts has the removal of courts, Booked the booking command,
--                 Publish the message of a game
--   Users         user_repo.go: identities and their races, server owners, preferences
--
-- How the code is read. A record stands for a struct, with the fields that the modelled code reads
-- or writes. What another service answers is an argument: a list of replies that a loop consumes,
-- or a function. A statement on the database fails when the list of failures in the world says so,
-- so that a theorem about any world is one about any failures; SQL is read by its meaning, and a
-- transaction that is not committed leaves the tables as they were. Log lines, edits of chat
-- messages and the wording of errors and messages are left out. Times are counted in seconds, and
-- ids and counts are natural numbers, far below the ends of Go's integers; chat ids, which are
-- negative, are integers.
--
-- Fuel. The loop over `groups` in selectCourtsToCancel runs as many rounds as courts are asked for,
-- and the attempts of ResolveIdentity are three, which are the code's own bounds. The two numerical
-- loops of glicko2.go run on fuel, since whether they end depends on the floating-point numbers,
-- which are a parameter (Rating.Floats): a call that runs out of fuel stands for one that does not
-- return, and its transaction is not committed.
--
-- Not modelled: the Telegram client (cmd/telegram), the web server (cmd/web), the booking service
-- (cmd/booking), the handlers of cmd/management/api, the scheduler's jobs other than the booking,
-- the approval and the cancellation of courts, the contents of audit rows, the cipher of the
-- credentials, configuration, translations and formatting; of the modelled parts, plain lists of
-- rows that no operation above reads.
mod Prelude
pub mod ResultScore
pub mod Courts
pub mod Booking
pub mod Cancellation
pub mod Store
pub mod Flags
pub mod Rating
pub mod Results
pub mod Participation
pub mod Sports
pub mod Venues
pub mod Games
pub mod AutoBooking
pub mod Users
