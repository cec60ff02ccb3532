-- ===== src/Booking/Create.antt =====
-- app/services/booking.py, `create_booking`, with the request of app/schemas/booking.py.
use desmobapp_backend.Prelude.{
  ℕ, Bool, true, not, Option, none, some, List, Result, ok, ◌>>=◌, ◌>>◌, raise_if, any, filter_by,
  update_where, ◌==◌, if◌then◌else◌, booking_conflict, not_available, on_hold,
}
use desmobapp_backend.Db.{
  Db, Uuid, BookingLevel, BookingStatus, confirmed, converted, Hold, Booking, booking_level,
  insert_booking,
}
use desmobapp_backend.Time.{Datetime, ensure_utc, ZoneInfo, Env}
use desmobapp_backend.Availability.{ResourceContext, resolve_resource, overlaps, load_conflicts}
use desmobapp_backend.Notification.{create_notification_record}
use desmobapp_backend.Booking.Window.{validate_booking_window}
use desmobapp_backend.Booking.HoldCheck.{validate_hold}

pub record BookingCreateRequest : Type 0 where
  pub level : BookingLevel
  pub seat_id : Option Uuid
  pub room_id : Option Uuid
  pub venue_id : Option Uuid
  pub hold_id : Option Uuid
  pub start_time : Datetime
  pub end_time : Datetime

-- A booking of a hold that is named, or none.
unfoldable pub named_hold :
    ℕ → Db → Option Uuid → Uuid → ℕ → ℕ → ResourceContext → Result (Option Hold)
named_hold now db none user_id start_time end_time c = ok none
named_hold now db (some hold_id) user_id start_time end_time c = do
  hold ← validate_hold now db hold_id user_id start_time end_time c
  ok (some hold)

-- `hold is None or item.id != hold.id`
abbrev pub is_other_hold : Option Hold → Hold → Bool
is_other_hold none item = true
is_other_hold (some hold) item = not (item.id == hold.id)

-- The two refusals for a conflict, over what `_load_conflicts` returned.
unfoldable pub check_conflicts : List Booking → List Hold → ℕ → ℕ → Result (Unit {0})
check_conflicts bookings holds start_time end_time = do
  raise_if (any (λ b. overlaps start_time end_time b.start_time b.end_time) bookings)
      (booking_conflict not_available)
  raise_if (any (λ h. overlaps start_time end_time h.start_time h.end_time) holds)
      (booking_conflict on_hold)
  ok tt

-- `PENDING if requires_payment else CONFIRMED`
abbrev pub initial_status : Bool → BookingStatus
initial_status requires_payment = if requires_payment then BookingStatus.pending else confirmed

abbrev pub hold_id_of : Option Hold → Option Uuid
hold_id_of none = none
hold_id_of (some hold) = some hold.id

unfoldable pub booking_row : Env → Uuid → Option Hold → ResourceContext → ℕ → ℕ → ℕ → Bool → Booking
booking_row env user_id hold c start_time end_time price requires_payment = record {
  id = env.new_id;
  user_id = user_id;
  hold_id = hold_id_of hold;
  level = c.level;
  venue_id = some c.venue_id;
  room_id = c.room_id;
  seat_id = c.seat_id;
  start_time = start_time;
  end_time = end_time;
  status = initial_status requires_payment;
  price_amount_cents = price;
  price_currency = "RUB";
  created_at = env.db_now;
  updated_at = env.db_now;
  cancelled_at = none;
}

-- `hold.status = HoldStatus.CONVERTED`
unfoldable pub convert_hold : Option Hold → Db → Db
convert_hold none db = db
convert_hold (some hold) db = record db {
  holds = update_where (λ h. h.id == hold.id) (λ h. record h { status = converted }) db.holds;
}

-- The end of `create_booking`: the row is added, its hold converted and the notification recorded.
-- The response shows the row, so the row stands for it.
unfoldable pub commit_booking : Env → Uuid → Option Hold → Booking → Db → Result (Booking × Db)
commit_booking env user_id hold booking db = do
  added ← insert_booking booking db
  notified ←
      create_notification_record env user_id "booking_created"
        (booking_level booking.id booking.level) (convert_hold hold added)
  ok (booking, notified)

-- `create_booking`, once the resource is known.
unfoldable pub place_booking :
    ZoneInfo → Env → Uuid → Option Uuid → ℕ → ℕ → ResourceContext → Db → Result (Booking × Db)
place_booking zones env user_id hold_id start_time end_time c db = do
  window ← validate_booking_window zones env.window_now db c start_time end_time
  hold ← named_hold env.hold_now db hold_id user_id start_time end_time c
  conflicts ← load_conflicts env.conflicts_now db c start_time end_time
  check_conflicts conflicts.0 (filter_by (is_other_hold hold) conflicts.1) start_time end_time
  commit_booking env user_id hold
      (booking_row env user_id hold c start_time end_time window.1 window.2) db

-- `create_booking`
unfoldable pub create_booking :
    ZoneInfo → Env → Uuid → BookingCreateRequest → Db → Result (Booking × Db)
create_booking zones env user_id payload db = do
  start_time ← ensure_utc payload.start_time
  end_time ← ensure_utc payload.end_time
  c ← resolve_resource db payload.level payload.seat_id payload.room_id payload.venue_id
  place_booking zones env user_id payload.hold_id start_time end_time c db
