-- ===== src/Courts.antt =====
-- The court lists of a game and of a venue: cmd/management/service/court_cancellation.go and
-- cmd/management/service/auto_booking.go.
pub mod Labels
pub mod Groups
pub mod Free
mod Tests
