-- ===== src/Tests/Samples.antt =====
-- A venue with one room of two seats, in the zone UTC, and requests about it.
use desmobapp_backend.Prelude.{ℕ, ◌+◌, ◌*◌, none, some, String, [], ◌∷◌, true}
use desmobapp_backend.Db.{
  Db, Venue, Room, Seat, seat, active, pos, Booking, confirmed, push, Notification, Payload,
  booking_level,
}
use desmobapp_backend.Time.{Zone, ZoneInfo, Env, Datetime, aware, ahead, day, minute}
use desmobapp_backend.Booking.{BookingCreateRequest, BookingWindowUpdateRequest}
use desmobapp_backend.Notification.{notification_row}

abbrev pub utc : Zone
utc = record { from_utc = λ t. t; to_utc = λ t. t }

abbrev pub zones : ZoneInfo
zones key = some utc

-- All clocks show the first instant.
abbrev pub env : ℕ → Env
env i = record {
  window_now = 0;
  hold_now = 0;
  conflicts_now = 0;
  own_now = 0;
  notify_now = 0;
  db_now = 0;
  new_id = i;
  external_id = i;
  notification_id = i;
}

abbrev pub house : Venue
house = record { id = 1; name = "House"; address = "Street"; timezone = "UTC"; status = active }

abbrev pub hall : Room
hall = record {
  id = 2;
  venue_id = 1;
  name = "Hall";
  allow_full_room_booking = true;
  grid_width = none;
  grid_height = none;
}

abbrev pub desk : Seat
desk = record {
  id = 3;
  room_id = 2;
  label = "A1";
  grid_x = pos 0;
  grid_y = pos 0;
  seat_type = none;
  attributes = none;
  active = true;
}

abbrev pub other_desk : Seat
other_desk = record {
  id = 4;
  room_id = 2;
  label = "A2";
  grid_x = pos 1;
  grid_y = pos 0;
  seat_type = none;
  attributes = none;
  active = true;
}

abbrev pub empty_db : Db
empty_db = record {
  venues = house ∷ [];
  rooms = hall ∷ [];
  seats = desk ∷ other_desk ∷ [];
  features = [];
  feature_links = [];
  room_hours = [];
  tariffs = [];
  booking_rules = [];
  holds = [];
  bookings = [];
  checkins = [];
  transactions = [];
  notifications = [];
  preferences = [];
  devices = [];
  favorites = [];
}

-- The minute `m` of the second day.
abbrev pub at_minute : ℕ → ℕ
at_minute m = day + m * minute

abbrev pub wall : ℕ → Datetime
wall m = aware (at_minute m) (ahead 0)

abbrev pub desk_request : ℕ → ℕ → BookingCreateRequest
desk_request from until = record {
  level = seat;
  seat_id = some 3;
  room_id = none;
  venue_id = none;
  hold_id = none;
  start_time = wall from;
  end_time = wall until;
}

abbrev pub desk_booking : ℕ → ℕ → ℕ → Booking
desk_booking i from until = record {
  id = i;
  user_id = 9;
  hold_id = none;
  level = seat;
  venue_id = some 1;
  room_id = some 2;
  seat_id = some 3;
  start_time = at_minute from;
  end_time = at_minute until;
  status = confirmed;
  price_amount_cents = 0;
  price_currency = "RUB";
  created_at = 0;
  updated_at = 0;
  cancelled_at = none;
}

abbrev pub move_request : ℕ → ℕ → BookingWindowUpdateRequest
move_request from until = record { start_time = wall from; end_time = wall until }

abbrev pub note : ℕ → String → Payload → Notification
note i template payload = notification_row (env i) push 9 template payload

abbrev pub desk_row : Booking
desk_row = desk_booking 10 600 660

-- The desk is booked from minute 600 to minute 660, by request 10 of user 9.
abbrev pub booked_db : Db
booked_db = record empty_db {
  bookings = desk_row ∷ [];
  notifications = note 10 "booking_created" (booking_level 10 seat) ∷ [];
}
