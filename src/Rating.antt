-- ===== src/Rating.antt =====
-- Ratings of players: cmd/management/service/rating and rating_service.go.
pub mod Floats
pub mod Glicko
pub mod Policy
pub mod Tables
pub mod Service
pub mod Leaderboard
