-- ===== src/Tests/Conversions.antt =====
-- A booking of the sample desk that is made from a hold.
use desmobapp_backend.Prelude.{◌≡◌, refl, some, [], ◌∷◌, ok, update_where}
use desmobapp_backend.Db.{Db, Booking, converted, seat, booking_level}
use desmobapp_backend.Booking.{BookingCreateRequest, create_booking, validate_hold}
use desmobapp_backend.Booking.Converted.{Converts, create_booking-Converts}
use desmobapp_backend.Tests.Samples.{zones, env, desk_request, desk_booking, note}
use desmobapp_backend.Tests.Bookings.{two_requests_db}
use desmobapp_backend.Tests.Ledgers.{desk_hold, held_db}

abbrev from_hold : BookingCreateRequest
from_hold = record (desk_request 600 660) { hold_id = some 20 }

abbrev held_row : Booking
held_row = record (desk_booking 21 600 660) { hold_id = some 20 }

abbrev converted_db : Db
converted_db = record held_db {
  holds = record desk_hold { status = converted } ∷ [];
  bookings = held_row ∷ [];
  notifications = note 21 "booking_created" (booking_level 21 seat) ∷ [];
}

hold_converted : create_booking zones (env 21) 9 from_hold held_db ≡ ok (held_row, converted_db)
unfolding two_requests_db validate_hold update_where
hold_converted = refl

create_booking-Converts_example : Converts (env 21) 9 20 held_db held_row converted_db
create_booking-Converts_example =
    create_booking-Converts zones (env 21) 9 20 from_hold held_db refl hold_converted
