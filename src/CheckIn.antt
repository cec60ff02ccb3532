-- ===== src/CheckIn.antt =====
-- app/services/checkin.py, with the request of app/schemas/checkin.py: a guest checks in.
pub mod Effect
use Prim.Native.String.{count}
use desmobapp_backend.Prelude.{
  ℕ, Bool, true, false, ◌||◌, Option, none, some, String, Result, ok, ◌>>=◌, ◌>>◌, raise_if,
  or_raise, find_first, ◌==◌, checkin_validation, checkin_not_found, booking_missing,
  cancelled_no_checkin, already_checked_in, geo_needs_position, qr_needs_code,
}
use desmobapp_backend.Db.{
  Db, Uuid, BookingStatus, checked_in, status_eq, CheckinMethod, qr, manual, geo, Booking, Checkin,
  booking_only, insert_checkin,
}
use desmobapp_backend.Time.{Env}
use desmobapp_backend.Notification.{create_notification_record}
use desmobapp_backend.Booking.{own_booking, save_booking}

pub record CheckinRequest : Type 0 where
  pub method : CheckinMethod
  pub lat : Option ℕ
  pub lon : Option ℕ
  pub qr_code : Option String

abbrev pub is_none {ℓ} : {A : Type ℓ} → Option A → Bool
is_none none = true
is_none (some _) = false

-- `not payload.qrCode`: an empty text counts as none.
abbrev pub is_blank : Option String → Bool
is_blank none = true
is_blank (some s) = count s == 0

-- The two checks on what the method needs.
unfoldable pub check_method : CheckinRequest → Result (Unit {0})
check_method payload = elim payload.method [
  | geo ↦
      raise_if (is_none payload.lat || is_none payload.lon) (checkin_validation geo_needs_position)
  | qr ↦ raise_if (is_blank payload.qr_code) (checkin_validation qr_needs_code)
  | manual ↦ ok tt
]

abbrev pub notes_of : CheckinMethod → Option String → Option String
notes_of qr code = code
notes_of manual code = none
notes_of geo code = none

unfoldable pub checkin_row : Env → CheckinRequest → Booking → Checkin
checkin_row env payload booking = record {
  id = env.new_id;
  booking_id = booking.id;
  method = payload.method;
  lat = payload.lat;
  lon = payload.lon;
  notes = notes_of payload.method payload.qr_code;
  checked_in_at = env.own_now;
}

unfoldable pub checked_in_row : Env → Booking → Booking
checked_in_row env b = record b { status = checked_in; updated_at = env.db_now }

-- `create_checkin`
unfoldable pub create_checkin : Env → Uuid → Uuid → CheckinRequest → Db → Result (Checkin × Db)
create_checkin env booking_id user_id payload db = do
  booking ←
      or_raise (find_first (own_booking booking_id user_id) db.bookings)
        (checkin_not_found booking_missing)
  raise_if (status_eq booking.status BookingStatus.cancelled)
      (checkin_validation cancelled_no_checkin)
  raise_if (status_eq booking.status checked_in) (checkin_validation already_checked_in)
  check_method payload
  let checkin = checkin_row env payload booking
  added ← insert_checkin checkin (save_booking (checked_in_row env booking) db)
  notified ←
      create_notification_record env user_id "booking_checked_in" (booking_only booking.id) added
  ok (checkin, notified)
