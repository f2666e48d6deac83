-- ===== src/Participation/Service/Refinement/Runs.antt =====
-- The requests of participation_service.go together.
use squash_bot.Participation.{Participation}
