-- ===== src/Booking/HoldCheck.antt =====
-- app/services/booking.py, `_validate_hold`: the hold that a booking is made from.
use desmobapp_backend.Prelude.{
  ℕ, ◌&&◌, ◌||◌, not, some, Result, ok, ◌>>=◌, ◌>>◌, raise_if, or_raise, find_first, leb, ◌==◌,
  opt_eq, availability_validation, hold_required, hold_inactive, hold_level_mismatch, hold_mismatch,
}
use desmobapp_backend.Db.{Db, Uuid, Hold, level_eq, hold_is_pending}
use desmobapp_backend.Availability.{ResourceContext}

unfoldable pub validate_hold : ℕ → Db → Uuid → Uuid → ℕ → ℕ → ResourceContext → Result Hold
validate_hold now db hold_id user_id start_time end_time c = do
  hold ←
      or_raise (find_first (λ h. h.id == hold_id && h.user_id == user_id) db.holds)
        (availability_validation hold_required)
  raise_if (not (hold_is_pending hold.status) || leb hold.expires_at now)
      (availability_validation hold_inactive)
  raise_if (not (level_eq hold.level c.level)) (availability_validation hold_level_mismatch)
  raise_if
      (not (opt_eq hold.venue_id (some c.venue_id))
        || not (opt_eq hold.room_id c.room_id)
        || not (opt_eq hold.seat_id c.seat_id)
        || not (hold.start_time == start_time)
        || not (hold.end_time == end_time))
      (availability_validation hold_mismatch)
  ok hold
