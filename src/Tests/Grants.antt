-- ===== src/Tests/Grants.antt =====
-- A request for the sample desk that is granted.
use desmobapp_backend.Prelude.{◌≡◌, ◌↔◌, refl, some, none, ok, any, arith}
use desmobapp_backend.Db.{seat, Booking}
use desmobapp_backend.Time.{ensure_utc}
use desmobapp_backend.Availability.{ResourceContext, resolve_resource, default_close_time}
use desmobapp_backend.Booking.{create_booking, validate_booking_window}
use desmobapp_backend.Booking.Allowed.{
  IsAllowed, no_rule, window_answer, validate_booking_window-IsAllowed,
}
use desmobapp_backend.Booking.Added.{Added}
use desmobapp_backend.Booking.Accepted.{DrawsUnused, IsVacant, granted_db, create_booking-granted}
use desmobapp_backend.Tests.Samples.{zones, utc, env, empty_db, at_minute, desk_request, wall}
use desmobapp_backend.Tests.Bookings.{two_requests_db}

abbrev desk_context : ResourceContext
desk_context = record {
  level = seat;
  venue_id = 1;
  room_id = some 2;
  seat_id = some 3;
  timezone = "UTC";
}

validate_booking_window-IsAllowed_example :
    (validate_booking_window zones 0 empty_db desk_context (at_minute 600) (at_minute 660)
      ≡ ok (window_answer empty_db desk_context (at_minute 600) (at_minute 660)))
    ↔ IsAllowed zones 0 empty_db desk_context (at_minute 600) (at_minute 660)
validate_booking_window-IsAllowed_example =
    validate_booking_window-IsAllowed zones 0 empty_db desk_context (at_minute 600) (at_minute 660)

window-IsAllowed : IsAllowed zones 0 empty_db desk_context (at_minute 600) (at_minute 660)
unfolding two_requests_db
window-IsAllowed = record {
  before = omega arith;
  future = omega arith;
  by_rule = no_rule;
  zone = utc;
  known = refl;
  is_open = record {
    one_day = refl;
    hours = (0, default_close_time);
    open_on = refl;
    opens = omega arith;
    closes = omega arith;
  };
}

start_read : ensure_utc (wall 600) ≡ ok (at_minute 600)
unfolding two_requests_db
start_read = refl

end_read : ensure_utc (wall 660) ≡ ok (at_minute 660)
unfolding two_requests_db
end_read = refl

desk_resolved : resolve_resource empty_db seat (some 3) none none ≡ ok desk_context
unfolding two_requests_db
desk_resolved = refl

vacant : IsVacant 0 empty_db 1 (at_minute 600) (at_minute 660)
vacant = record {
  bookings = λ b m blocks o. elim m [ ];
  holds = λ h m pending active o. elim m [ ];
}

draws_unused : DrawsUnused (env 10) empty_db
unfolding any
draws_unused = record { booking_unused = refl; notification_unused = refl }

create_booking-granted_example :
    (b : Booking) × (create_booking zones (env 10) 9 (desk_request 600 660) empty_db
      ≡ ok (b, granted_db (env 10) 9 b empty_db))
    × Added zones (env 10) 9 (desk_request 600 660) empty_db b (granted_db (env 10) 9 b empty_db)
create_booking-granted_example =
    create_booking-granted zones (env 10) 9 (desk_request 600 660) empty_db (at_minute 600)
      (at_minute 660) desk_context refl start_read end_read desk_resolved window-IsAllowed vacant
      draws_unused
