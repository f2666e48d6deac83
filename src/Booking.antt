-- ===== src/Booking.antt =====
-- Booking of free courts by rotating credentials: bookFreeCourts of
-- cmd/management/service/booking_core.go and ListForBooking of
-- cmd/management/service/venue_credential_service.go.
pub mod Credentials
pub mod Rotation
