-- ===== src/Hold.antt =====
-- app/services/hold.py: holds are made and cancelled.
pub mod Effect
use desmobapp_backend.Prelude.{
  ℕ, ◌+◌, ◌*◌, ◌&&◌, Option, none, some, List, Result, ok, ◌>>=◌, ◌>>◌, raise_if, or_raise, any,
  find_first, update_where, min, ◌==◌, if◌then◌else◌, hold_conflict, hold_not_found, not_available,
  on_hold, hold_missing,
}
use desmobapp_backend.Db.{
  Db, Uuid, BookingLevel, HoldStatus, hold_is_pending, Hold, Booking, BookingRule, insert_hold,
}
use desmobapp_backend.Time.{Datetime, ensure_utc, ZoneInfo, load_zone, Env, second}
use desmobapp_backend.Availability.{
  ResourceContext, resolve_resource, resolve_booking_rule, overlaps, load_conflicts,
}
use desmobapp_backend.Booking.{check_order, check_rule, check_hours}

pub record HoldCreateRequest : Type 0 where
  pub level : BookingLevel
  pub seat_id : Option Uuid
  pub room_id : Option Uuid
  pub venue_id : Option Uuid
  pub start_time : Datetime
  pub end_time : Datetime

abbrev pub hold_ttl_seconds : Option BookingRule → ℕ
hold_ttl_seconds none = 900
hold_ttl_seconds (some rule) = rule.hold_ttl_seconds

unfoldable pub check_hold_conflicts : List Booking → List Hold → ℕ → ℕ → Result (Unit {0})
check_hold_conflicts bookings holds start_time end_time = do
  raise_if (any (λ b. overlaps start_time end_time b.start_time b.end_time) bookings)
      (hold_conflict not_available)
  raise_if (any (λ h. overlaps start_time end_time h.start_time h.end_time) holds)
      (hold_conflict on_hold)
  ok tt

unfoldable pub hold_row : Env → Uuid → ResourceContext → ℕ → ℕ → ℕ → Hold
hold_row env user_id c start_time end_time ttl_seconds = record {
  id = env.new_id;
  user_id = user_id;
  level = c.level;
  venue_id = some c.venue_id;
  room_id = c.room_id;
  seat_id = c.seat_id;
  start_time = start_time;
  end_time = end_time;
  status = HoldStatus.pending;
  expires_at = min start_time (env.own_now + ttl_seconds * second);
  created_at = env.db_now;
}

-- `create_hold`, once the window has passed: the search for conflicts and the new row.
unfoldable pub place_hold : Env → Uuid → ResourceContext → ℕ → ℕ → ℕ → Db → Result (Hold × Db)
place_hold env user_id c start_time end_time ttl_seconds db = do
  conflicts ← load_conflicts env.conflicts_now db c start_time end_time
  check_hold_conflicts conflicts.0 conflicts.1 start_time end_time
  let hold = hold_row env user_id c start_time end_time ttl_seconds
  added ← insert_hold hold db
  ok (hold, added)

-- `create_hold`. Its checks of the window are those of `_validate_booking_window`, in another order.
unfoldable pub create_hold : ZoneInfo → Env → Uuid → HoldCreateRequest → Db → Result (Hold × Db)
create_hold zones env user_id payload db = do
  start_time ← ensure_utc payload.start_time
  end_time ← ensure_utc payload.end_time
  check_order env.own_now start_time end_time
  c ← resolve_resource db payload.level payload.seat_id payload.room_id payload.venue_id
  let rule = resolve_booking_rule db c
  check_rule env.own_now start_time end_time rule
  zone ← load_zone zones c.timezone
  check_hours db c zone start_time end_time
  place_hold env user_id c start_time end_time (hold_ttl_seconds rule) db

-- `cancel_hold`: only a pending hold changes.
unfoldable pub cancel_hold : Uuid → Uuid → Db → Result Db
cancel_hold hold_id user_id db = do
  hold ←
      or_raise (find_first (λ h. h.id == hold_id && h.user_id == user_id) db.holds)
        (hold_not_found hold_missing)
  ok (
      if hold_is_pending hold.status
      then record db {
        holds =
            update_where (λ h. h.id == hold.id) (λ h. record h { status = HoldStatus.cancelled })
              db.holds;
      }
      else db)
