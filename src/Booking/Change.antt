-- ===== src/Booking/Change.antt =====
-- app/services/booking.py, `reschedule_booking`, `repeat_booking` and `cancel_booking`.
use desmobapp_backend.Prelude.{
  ℕ, Bool, true, false, not, ◌&&◌, Option, none, some, Result, ok, ◌>>=◌, ◌>>◌, raise_if, filter_by,
  update_where, ◌==◌, if◌then◌else◌, availability_validation, not_reschedulable,
}
use desmobapp_backend.Db.{
  Db, Uuid, BookingLevel, seat, room, venue, BookingStatus, confirmed, status_eq, level_eq, Booking,
  booking_only,
}
use desmobapp_backend.Time.{Datetime, ensure_utc, ZoneInfo, Env}
use desmobapp_backend.Availability.{ResourceContext, resolve_resource, load_conflicts}
use desmobapp_backend.Notification.{create_notification_record}
use desmobapp_backend.Booking.Window.{validate_booking_window}
use desmobapp_backend.Booking.Create.{create_booking, check_conflicts, initial_status}
use desmobapp_backend.Booking.Query.{find_booking}

pub record BookingWindowUpdateRequest : Type 0 where
  pub start_time : Datetime
  pub end_time : Datetime

-- `seat_id if level == "seat" else None`, and so for the other two.
abbrev pub id_at_level : BookingLevel → BookingLevel → Option Uuid → Option Uuid
id_at_level wanted level id = if level_eq level wanted then id else none

-- `booking.status in {PENDING, CONFIRMED}`
abbrev pub is_reschedulable : BookingStatus → Bool
is_reschedulable BookingStatus.pending = true
is_reschedulable confirmed = true
is_reschedulable _ = false

-- The row after a move. The database stamps `updated_at` only where a column really changes.
unfoldable pub moved_row : Env → ℕ → ℕ → Bool → Booking → Booking
moved_row env start_time end_time requires_payment b =
    if b.start_time == start_time
      && b.end_time == end_time
      && status_eq b.status (initial_status requires_payment)
    then b
    else record b {
      start_time = start_time;
      end_time = end_time;
      status = initial_status requires_payment;
      updated_at = env.db_now;
    }

-- Writes `booking` over the row of its identifier.
abbrev pub save_booking : Booking → Db → Db
save_booking booking db = record db {
  bookings = update_where (λ b. b.id == booking.id) (λ b. booking) db.bookings;
}

-- `_resource_kwargs_for_level`, given to `_resolve_resource`.
unfoldable pub resolve_booked : Db → Booking → Result ResourceContext
resolve_booked db b =
    resolve_resource db b.level (id_at_level seat b.level b.seat_id)
      (id_at_level room b.level b.room_id) (id_at_level venue b.level b.venue_id)

-- `reschedule_booking`, once the resource is known: the booking itself is no obstacle, any hold is.
unfoldable pub move_booking :
    ZoneInfo → Env → Uuid → Booking → ℕ → ℕ → ResourceContext → Db → Result (Booking × Db)
move_booking zones env user_id booking start_time end_time c db = do
  window ← validate_booking_window zones env.window_now db c start_time end_time
  conflicts ← load_conflicts env.conflicts_now db c start_time end_time
  check_conflicts (filter_by (λ b. not (b.id == booking.id)) conflicts.0) conflicts.1 start_time
      end_time
  let moved = moved_row env start_time end_time window.2 booking
  notified ←
      create_notification_record env user_id "booking_rescheduled" (booking_only booking.id)
        (save_booking moved db)
  ok (moved, notified)

-- `reschedule_booking`
unfoldable pub reschedule_booking :
    ZoneInfo → Env → Uuid → Uuid → BookingWindowUpdateRequest → Db → Result (Booking × Db)
reschedule_booking zones env booking_id user_id payload db = do
  booking ← find_booking db booking_id user_id
  raise_if (not (is_reschedulable booking.status)) (availability_validation not_reschedulable)
  start_time ← ensure_utc payload.start_time
  end_time ← ensure_utc payload.end_time
  c ← resolve_booked db booking
  move_booking zones env user_id booking start_time end_time c db

-- `repeat_booking`: a new booking of the same place, without a hold.
unfoldable pub repeat_booking :
    ZoneInfo → Env → Uuid → Uuid → BookingWindowUpdateRequest → Db → Result (Booking × Db)
repeat_booking zones env booking_id user_id payload db = do
  b ← find_booking db booking_id user_id
  create_booking zones env user_id
      (record {
        level = b.level;
        seat_id = id_at_level seat b.level b.seat_id;
        room_id = id_at_level room b.level b.room_id;
        venue_id = id_at_level venue b.level b.venue_id;
        hold_id = none;
        start_time = payload.start_time;
        end_time = payload.end_time;
      })
      db

unfoldable pub cancelled_row : Env → Booking → Booking
cancelled_row env b = record b {
  status = BookingStatus.cancelled;
  cancelled_at = some env.own_now;
  updated_at = env.db_now;
}

-- `cancel_booking`: a booking that is cancelled already is left as it is.
unfoldable pub cancel_booking : Env → Uuid → Uuid → Db → Result Db
cancel_booking env booking_id user_id db = do
  booking ← find_booking db booking_id user_id
  elim (status_eq booking.status BookingStatus.cancelled) [
    | true ↦ ok db
    | false ↦
        create_notification_record env user_id "booking_cancelled" (booking_only booking.id)
          (save_booking (cancelled_row env booking) db)
  ]
