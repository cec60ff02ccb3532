-- ===== src/Analytics/Bounded.antt =====
-- app/services/analytics.py: the occupancy is a rate, of the minutes that the places offer.
use desmobapp_backend.Prelude.{
  ℕ, zero, suc, ◌+◌, ◌-◌, ◌*◌, ◌/◌, ◌<◌, ◌≤◌, ◌≡◌, ap, ◌∙◌, min, max, arith,
}
use desmobapp_backend.Db.{Db, Booking}
use desmobapp_backend.Time.{day, minute}
use desmobapp_backend.Analytics.{booked_minutes, capacity_units, get_occupancy_analytics}

-- The minutes of the days from `start_date` to `end_date`.
abbrev pub minutes_of : ℕ → ℕ → ℕ
minutes_of start_date end_date = (end_date + 1 - start_date) * 1440

minutes_of_lem :
    (start_date end_date : ℕ)
    → ((end_date + 1) * day - start_date * day) / minute ≡ minutes_of start_date end_date
minutes_of_lem s e = omega arith

capacity_units-positive : (db : Db) → 1 ≤ capacity_units db
unfolding capacity_units
capacity_units-positive db = ground arith

product_positive : (a b : ℕ) → 1 ≤ a → 1 ≤ b → 1 ≤ a * b
product_positive (suc a) (suc b) h k = omega arith
product_positive zero b h k = absurd (omega arith)
product_positive (suc a) zero h k = absurd (omega arith)

booked_minutes-bound :
    (start_date end_date : ℕ) (b : Booking)
    → booked_minutes (start_date * day) ((end_date + 1) * day) b ≤ minutes_of start_date end_date
booked_minutes-bound s e b = omega arith

max_of_le : (a b : ℕ) → a ≤ b → max a b ≡ b
max_of_le a b h = omega arith

one_le_max : (a : ℕ) → 0 < max 1 a
one_le_max a = omega arith

min_le_left : (a b : ℕ) → min a b ≤ a
min_le_left a b = omega arith

-- For a period that does not end before it starts, the occupancy is at most all of what the places
-- offer, which is a positive number: the minutes of the days of the period, each of 1440 minutes, times the number of
-- places, which is at least 1. No booking counts for more than the minutes of the period.
pub get_occupancy_analytics-bounds :
    (start_date end_date : ℕ) (db : Db)
    → start_date ≤ end_date
    → let response = get_occupancy_analytics start_date end_date db in
      (response.available ≡ capacity_units db * minutes_of start_date end_date)
      × (1 ≤ capacity_units db)
      × (0 < response.available)
      × (response.occupied ≤ response.available)
      × ((b : Booking)
          → booked_minutes (start_date * day) ((end_date + 1) * day) b
            ≤ minutes_of start_date end_date)
unfolding get_occupancy_analytics
get_occupancy_analytics-bounds s e db h =
    let units = capacity_units-positive db in
    let positive = product_positive (capacity_units db) (minutes_of s e) units (omega arith) in
    (
      ap (λ m. max 1 (capacity_units db * m)) (minutes_of_lem s e)
          ∙ max_of_le 1 (capacity_units db * minutes_of s e) positive,
      units,
      one_le_max _,
      min_le_left _ _,
      booked_minutes-bound s e,
    )
