-- ===== src/AutoBooking.antt =====
-- The job of cmd/management/service/auto_booking.go that books courts when a booking window opens.
-- Notify has the messages to the administrators, State what the job changes, Slot the booking of one
-- time slot, Job the loops over groups, venues and times.
pub mod Notify
pub mod State
pub mod Slot
pub mod Job
mod Tests
