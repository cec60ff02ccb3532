-- ===== src/Tests/Bookings.antt =====
-- Bookings of the sample desk.
use desmobapp_backend.Prelude.{
  ◌<◌, true, any, filter_by, find_first, update_where, ◌++◌, none, some, List, [], ◌∷◌, false, ok,
  ◌≡◌, refl, In, here, there, arith,
}
use desmobapp_backend.Db.{
  Db, Booking, Hold, hold_is_pending, BookingStatus, seat, booking_only, insert_booking,
}
use desmobapp_backend.Time.{ensure_utc}
use desmobapp_backend.Notification.{create_notification_record}
use desmobapp_backend.Availability.{
  is_blocking, overlaps, get_seat, get_room, resolve_resource, resolve_booking_rule,
  resolve_operating_hours, load_conflicts, resource_filter, ResourceContext,
}
use desmobapp_backend.Booking.{
  create_booking, place_booking, commit_booking, named_hold, validate_booking_window, check_order,
  check_rule, check_hours, check_conflicts, booking_row, convert_hold, reschedule_booking,
  move_booking, moved_row, find_booking, resolve_booked, cancel_booking, cancelled_row,
}
use desmobapp_backend.Booking.Added.{Added, create_booking-Added}
use desmobapp_backend.Booking.Rescheduled.{Rescheduled, reschedule_booking-Rescheduled}
use desmobapp_backend.Booking.Cancelled.{Cancelled, cancel_booking-Cancelled}
use desmobapp_backend.Availability.Complete.{load_conflicts_complete}
use desmobapp_backend.Api.Invariant.{Inv}
use desmobapp_backend.Api.Preserve.{create_booking-Inv}
use desmobapp_backend.Api.Run.{run-Inv}
use desmobapp_backend.Api.{Request, create_booking_call, run, serve, create_booking_endpoint}
use desmobapp_backend.Api.Seats.{no_double_booking, takes_seat, IsUnused, IsUnused-Inv}
use desmobapp_backend.Tests.Samples.{
  zones, env, empty_db, desk_request, desk_booking, desk, hall, at_minute, desk_row, booked_db,
  note, move_request,
}

abbrev two_requests : List Request
two_requests =
    record { env = env 10; user_id = 9; call = create_booking_call (desk_request 600 660) }
    ∷ record { env = env 11; user_id = 9; call = create_booking_call (desk_request 660 720) }
    ∷ []

abbrev later_row : Booking
later_row = desk_booking 11 660 720

-- The database after the two requests. To unfold it is to unfold all that it runs through.
unfoldable pub two_requests_db : Db
unfolding run serve create_booking_endpoint create_booking place_booking commit_booking named_hold
    ensure_utc resolve_resource validate_booking_window check_order check_rule check_hours
    resolve_booking_rule resolve_operating_hours load_conflicts resource_filter check_conflicts
    booking_row convert_hold insert_booking create_notification_record any filter_by find_first
two_requests_db = run zones two_requests empty_db

-- Two requests for one desk, one hour after the other, are both served.
two_requests_bookings : (run zones two_requests empty_db).bookings ≡ desk_row ∷ later_row ∷ []
unfolding two_requests_db
two_requests_bookings = refl

two_requests_places :
    (get_seat (run zones two_requests empty_db) 3 ≡ some desk)
    × (get_room (run zones two_requests empty_db) 2 ≡ some hall)
unfolding two_requests_db
two_requests_places = (refl, refl)

empty_db-IsUnused : IsUnused empty_db
empty_db-IsUnused = record { no_bookings = refl; no_checkins = refl; no_transactions = refl }

no_double_booking_example :
    overlaps (at_minute 600) (at_minute 660) (at_minute 660) (at_minute 720) ≡ false
no_double_booking_example =
    no_double_booking zones two_requests empty_db desk hall desk_row later_row empty_db-IsUnused
      two_requests_places.0 two_requests_places.1 (rw two_requests_bookings (here refl))
      (rw two_requests_bookings (there (here refl))) (omega arith) refl refl (takes_seat refl refl)
      (takes_seat refl refl)

run-Inv_example : Inv (run zones two_requests empty_db)
run-Inv_example = run-Inv zones two_requests empty_db (IsUnused-Inv empty_db empty_db-IsUnused)

desk_created :
    create_booking zones (env 10) 9 (desk_request 600 660) empty_db ≡ ok (desk_row, booked_db)
unfolding two_requests_db
desk_created = refl

create_booking-Added_example :
    Added zones (env 10) 9 (desk_request 600 660) empty_db desk_row booked_db
create_booking-Added_example =
    create_booking-Added zones (env 10) 9 (desk_request 600 660) empty_db desk_created

pub booked_db-Inv : Inv booked_db
booked_db-Inv =
    create_booking-Inv zones (env 10) 9 (desk_request 600 660) empty_db
      (IsUnused-Inv empty_db empty_db-IsUnused) desk_created

-- The booking moves to an interval that meets its own old one.
abbrev moved_desk_row : Booking
moved_desk_row = desk_booking 10 630 690

abbrev moved_db : Db
moved_db = record booked_db {
  bookings = moved_desk_row ∷ [];
  notifications = booked_db.notifications ++ note 11 "booking_rescheduled" (booking_only 10) ∷ [];
}

desk_moved :
    reschedule_booking zones (env 11) 10 9 (move_request 630 690) booked_db
    ≡ ok (moved_desk_row, moved_db)
unfolding two_requests_db reschedule_booking move_booking moved_row find_booking resolve_booked
    update_where
desk_moved = refl

reschedule_booking-Rescheduled_example :
    Rescheduled zones (env 11) 10 9 (move_request 630 690) booked_db moved_desk_row moved_db
reschedule_booking-Rescheduled_example =
    reschedule_booking-Rescheduled zones (env 11) 10 9 (move_request 630 690) booked_db
      booked_db-Inv.homed desk_moved

abbrev cancelled_db : Db
cancelled_db = record booked_db {
  bookings = record desk_row { status = BookingStatus.cancelled; cancelled_at = some 0 } ∷ [];
  notifications = booked_db.notifications ++ note 11 "booking_cancelled" (booking_only 10) ∷ [];
}

desk_cancelled : cancel_booking (env 11) 10 9 booked_db ≡ ok cancelled_db
unfolding two_requests_db cancel_booking cancelled_row find_booking update_where
desk_cancelled = refl

cancel_booking-Cancelled_example : Cancelled (env 11) 10 9 booked_db cancelled_db
cancel_booking-Cancelled_example =
    cancel_booking-Cancelled (env 11) 10 9 booked_db booked_db-Inv.safe desk_cancelled

abbrev other_context : ResourceContext
other_context = record {
  level = seat;
  venue_id = 1;
  room_id = some 2;
  seat_id = some 4;
  timezone = "UTC";
}

other_desk_resolved : resolve_resource empty_db seat (some 4) none none ≡ ok other_context
unfolding two_requests_db
other_desk_resolved = refl

-- A booking of the one desk is loaded for the other.
desk_loaded :
    load_conflicts 0 booked_db other_context (at_minute 630) (at_minute 690)
    ≡ ok (desk_row ∷ [], [])
unfolding two_requests_db
desk_loaded = refl

load_conflicts_complete_example :
    ((b : Booking)
      → In b booked_db.bookings
      → is_blocking b.status ≡ true
      → b.venue_id ≡ some 1
      → overlaps (at_minute 630) (at_minute 690) b.start_time b.end_time ≡ true
      → In b (desk_row ∷ []))
    × ((h : Hold)
        → In h booked_db.holds
        → hold_is_pending h.status ≡ true
        → 0 < h.expires_at
        → h.venue_id ≡ some 1
        → overlaps (at_minute 630) (at_minute 690) h.start_time h.end_time ≡ true
        → In h [])
load_conflicts_complete_example =
    load_conflicts_complete 0 booked_db other_context (at_minute 630) (at_minute 690)
      (desk_row ∷ []) [] desk_loaded
