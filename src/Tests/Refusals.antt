-- ===== src/Tests/Refusals.antt =====
-- Requests for the other desk while the first is booked.
use desmobapp_backend.Prelude.{
  none, some, List, here, false, ok, err, ◌≡◌, refl, booking_conflict, not_available,
}
use desmobapp_backend.Db.{seat, Booking, Hold}
use desmobapp_backend.Availability.{ResourceContext, resolve_resource, load_conflicts}
use desmobapp_backend.Availability.Total.{load_conflicts-total}
use desmobapp_backend.Time.{ensure_utc}
use desmobapp_backend.Booking.{BookingCreateRequest, create_booking, validate_booking_window}
use desmobapp_backend.Booking.Refused.{create_booking-refused}
use desmobapp_backend.Tests.Samples.{zones, env, booked_db, desk_row, wall, at_minute}
use desmobapp_backend.Tests.Bookings.{two_requests_db}

abbrev pub other_context : ResourceContext
other_context = record {
  level = seat;
  venue_id = 1;
  room_id = some 2;
  seat_id = some 4;
  timezone = "UTC";
}

abbrev other_request : BookingCreateRequest
other_request = record {
  level = seat;
  seat_id = some 4;
  room_id = none;
  venue_id = none;
  hold_id = none;
  start_time = wall 630;
  end_time = wall 690;
}

pub other_resolved : resolve_resource booked_db seat (some 4) none none ≡ ok other_context
unfolding two_requests_db
other_resolved = refl

other_window :
    validate_booking_window zones 0 booked_db other_context (at_minute 630) (at_minute 690)
    ≡ ok (60, 0, false)
unfolding two_requests_db
other_window = refl

load_conflicts-total_example :
    (bookings : List Booking) × (holds : List Hold) × (load_conflicts 0 booked_db other_context
        (at_minute 630)
        (at_minute 690)
      ≡ ok (bookings, holds))
load_conflicts-total_example =
    load_conflicts-total 0 booked_db seat (some 4) none none other_context (at_minute 630)
      (at_minute 690) other_resolved

other_start : ensure_utc (wall 630) ≡ ok (at_minute 630)
unfolding two_requests_db
other_start = refl

other_end : ensure_utc (wall 690) ≡ ok (at_minute 690)
unfolding two_requests_db
other_end = refl

-- The one desk is booked, so the other cannot be.
create_booking-refused_example :
    create_booking zones (env 12) 8 other_request booked_db ≡ err (booking_conflict not_available)
create_booking-refused_example =
    create_booking-refused zones (env 12) 8 other_request booked_db (at_minute 630) (at_minute 690)
      other_context (60, 0, false) desk_row refl other_start other_end other_resolved other_window
      (here refl) refl refl refl
