-- ===== src/Analytics.antt =====
-- app/services/analytics.py and app/api/routes/analytics.py: how much of the places is booked.
pub mod Bounded
use desmobapp_backend.Prelude.{
  value_error, dates_swapped, ℕ, ◌+◌, ◌-◌, ◌*◌, ◌/◌, Bool, true, false, ◌&&◌, List, [], ◌∷◌, map,
  length, filter_by, min, max, ltb, ◌==◌, if◌then◌else◌,
}
use desmobapp_backend.Db.{Db, Booking, BookingStatus, confirmed, checked_in, completed, Seat, Room}
use desmobapp_backend.Time.{day, minute}
use desmobapp_backend.Api.{Response, success, failure}

-- `Booking.status.in_({...})`
abbrev pub counts : BookingStatus → Bool
counts BookingStatus.pending = true
counts confirmed = true
counts checked_in = true
counts completed = true
counts _ = false

abbrev pub in_period : ℕ → ℕ → Booking → Bool
in_period period_start period_end b =
    counts b.status && ltb b.start_time period_end && ltb period_start b.end_time

-- `max(0, int((effective_end - effective_start).total_seconds() // 60))`: the difference stops at 0.
abbrev pub booked_minutes : ℕ → ℕ → Booking → ℕ
booked_minutes period_start period_end b =
    (min b.end_time period_end - max b.start_time period_start) / minute

unfoldable pub sum : List ℕ → ℕ
sum [] = 0
sum (n ∷ ns) = n + sum ns

-- `capacity_units`: the active seats, else the rooms, else 1.
abbrev pub or_if_zero : ℕ → ℕ → ℕ
or_if_zero n other = if n == 0 then other else n

unfoldable pub capacity_units : Db → ℕ
capacity_units db =
    or_if_zero (length (filter_by (λ (s : Seat). s.active) db.seats))
      (or_if_zero (length db.rooms) 1)

-- The two rates are fractions here: `occupancyRate` is the quotient of `occupied` by `available`, to
-- four digits, and `revenue` the amount in cents divided by 100.
pub record OccupancyAnalyticsResponse : Type 0 where
  pub start_date : ℕ
  pub end_date : ℕ
  pub occupied : ℕ
  pub available : ℕ
  pub total_bookings : ℕ
  pub revenue_cents : ℕ

-- `get_occupancy_analytics`. `min(1.0, booked / total)` is the quotient of the smaller of the two
-- by the second.
unfoldable pub get_occupancy_analytics : ℕ → ℕ → Db → OccupancyAnalyticsResponse
unfolding capacity_units sum
get_occupancy_analytics start_date end_date db =
    let period_start = start_date * day in
    let period_end = (end_date + 1) * day in
    let bookings = filter_by (in_period period_start period_end) db.bookings in
    let total_period_minutes = max 1 (capacity_units db * ((period_end - period_start) / minute)) in
    record {
      start_date = start_date;
      end_date = end_date;
      occupied =
          min total_period_minutes (sum (map (booked_minutes period_start period_end) bookings));
      available = total_period_minutes;
      total_bookings = length bookings;
      revenue_cents = sum (map (λ b. b.price_amount_cents) bookings);
    }

-- `occupancy_analytics`, which asks for the permission `analytics.read` first.
unfoldable pub occupancy_analytics_endpoint : ℕ → ℕ → Db → Response OccupancyAnalyticsResponse
occupancy_analytics_endpoint start_date end_date db =
    if ltb end_date start_date
    then failure 400 (value_error dates_swapped)
    else success 200 (get_occupancy_analytics start_date end_date db)
