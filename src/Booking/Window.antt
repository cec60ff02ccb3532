-- ===== src/Booking/Window.antt =====
-- app/services/booking.py, `_validate_booking_window`, and the same checks in `create_hold`
-- (app/services/hold.py): the interval lies in the future, obeys the booking rule and falls in one
-- day's opening hours.
use desmobapp_backend.Prelude.{
  ℕ, ◌+◌, ◌*◌, Bool, false, not, ◌||◌, Option, none, some, Result, ok, ◌>>=◌, ◌>>◌, raise_if,
  or_raise, ltb, leb, ◌==◌, availability_validation, end_not_after_start, start_not_in_future,
  below_min_duration, above_max_duration, beyond_max_advance, not_one_day, closed_on_date,
  outside_hours,
}
use desmobapp_backend.Db.{Db, BookingRule}
use desmobapp_backend.Time.{ZoneInfo, Zone, load_zone, day, date_of, combine, duration_minutes}
use desmobapp_backend.Availability.{ResourceContext, resolve_booking_rule, resolve_operating_hours}

-- `end_time <= start_time`, then `start_time <= now`.
unfoldable pub check_order : ℕ → ℕ → ℕ → Result (Unit {0})
check_order now start_time end_time = do
  raise_if (leb end_time start_time) (availability_validation end_not_after_start)
  raise_if (leb start_time now) (availability_validation start_not_in_future)
  ok tt

-- The checks against a booking rule, where there is one.
unfoldable pub check_rule : ℕ → ℕ → ℕ → Option BookingRule → Result (Unit {0})
check_rule now start_time end_time none = ok tt
check_rule now start_time end_time (some rule) = do
  raise_if (ltb (duration_minutes start_time end_time) rule.min_duration_minutes)
      (availability_validation below_min_duration)
  raise_if (ltb rule.max_duration_minutes (duration_minutes start_time end_time))
      (availability_validation above_max_duration)
  raise_if (ltb (now + rule.max_advance_days * day) start_time)
      (availability_validation beyond_max_advance)
  ok tt

-- The checks of the local day and its opening hours. Two times of one zone compare by wall clock.
unfoldable pub check_hours : Db → ResourceContext → Zone → ℕ → ℕ → Result (Unit {0})
check_hours db c zone start_time end_time = do
  let local_start = zone.from_utc start_time
  let local_end = zone.from_utc end_time
  raise_if (not (date_of local_start == date_of local_end)) (availability_validation not_one_day)
  hours ←
      or_raise (resolve_operating_hours db c (date_of local_start))
        (availability_validation closed_on_date)
  raise_if
      (ltb local_start (combine (date_of local_start) hours.0)
        || ltb (combine (date_of local_start) hours.1) local_end)
      (availability_validation outside_hours)
  ok tt

abbrev pub rule_requires_payment : Option BookingRule → Bool
rule_requires_payment none = false
rule_requires_payment (some rule) = rule.requires_payment

-- `_validate_booking_window`: the duration, the price, which is always 0, and whether the rule asks
-- for a payment.
unfoldable pub validate_booking_window :
    ZoneInfo → ℕ → Db → ResourceContext → ℕ → ℕ → Result (ℕ × ℕ × Bool)
validate_booking_window zones now db c start_time end_time = do
  check_order now start_time end_time
  let rule = resolve_booking_rule db c
  check_rule now start_time end_time rule
  zone ← load_zone zones c.timezone
  check_hours db c zone start_time end_time
  ok (duration_minutes start_time end_time, 0, rule_requires_payment rule)
