-- ===== src/Availability/Slots.antt =====
-- app/services/availability.py, lines 186-250: the slots of a day and whether each is free.
use desmobapp_backend.Prelude.{
  ℕ, zero, suc, ◌+◌, ◌-◌, ◌*◌, ◌/◌, Bool, true, false, ◌||◌, not, Option, none, some, List, [], ◌∷◌,
  Result, ok, ◌>>=◌, ◌>>◌, raise_if, any, ltb, leb, availability_validation, duration_below_15,
  below_min_duration, above_max_duration,
}
use desmobapp_backend.Db.{Db, Uuid, BookingLevel, seat, room, venue, Booking, Hold, BookingRule}
use desmobapp_backend.Time.{Zone, ZoneInfo, load_zone, minute, combine}
use desmobapp_backend.Availability.Resource.{
  ResourceContext, resolve_resource, resolve_booking_rule, resolve_operating_hours,
}
use desmobapp_backend.Availability.Conflicts.{overlaps, load_conflicts}

pub record AvailabilitySlot : Type 0 where
  pub start_time : ℕ
  pub end_time : ℕ
  pub available : Bool
  pub seat_id : Option Uuid

pub record AvailabilityResponse : Type 0 where
  pub date : ℕ
  pub time_slots : List AvailabilitySlot

unfoldable pub is_blocked : List Booking → List Hold → ℕ → ℕ → Bool
is_blocked bookings holds slot_start slot_end =
    any (λ b. overlaps slot_start slot_end b.start_time b.end_time) bookings
    || any (λ h. overlaps slot_start slot_end h.start_time h.end_time) holds

abbrev pub slot_seat_id : ResourceContext → Option Uuid
slot_seat_id c = elim c.level [ seat ↦ c.seat_id | room ↦ none | venue ↦ none ]

module _ (zone : Zone) (c : ResourceContext) (bookings : List Booking) (holds : List Hold) where
  -- One slot, at wall-clock time `current`.
  unfoldable pub slot_at : ℕ → ℕ → AvailabilitySlot
  slot_at duration current =
      let slot_start = zone.to_utc current in
      let slot_end = zone.to_utc (current + duration) in
      record {
        start_time = slot_start;
        end_time = slot_end;
        available = not (is_blocked bookings holds slot_start slot_end);
        seat_id = slot_seat_id c;
      }

  -- The `while` loop, on fuel.
  unfoldable pub slots_from : ℕ → ℕ → ℕ → ℕ → List AvailabilitySlot
  slots_from duration limit zero current = []
  slots_from duration limit (suc fuel) current = elim (leb (current + duration) limit) [
    | true ↦ slot_at duration current ∷ slots_from duration limit fuel (current + duration)
    | false ↦ []
  ]

abbrev pub rule_allows : Option BookingRule → ℕ → Result (Unit {0})
rule_allows none minutes = ok tt
rule_allows (some rule) minutes = do
  raise_if (ltb minutes rule.min_duration_minutes) (availability_validation below_min_duration)
  raise_if (ltb rule.max_duration_minutes minutes) (availability_validation above_max_duration)
  ok tt

-- The rest of the handler on a day that is open from `open_time` to `close_time`. The fuel is the
-- number of slots that fit, and one.
unfoldable pub open_day :
    ZoneInfo → ℕ → Db → ResourceContext → ℕ → ℕ → ℕ → ℕ → Result AvailabilityResponse
open_day zones now db c date minutes open_time close_time = do
  zone ← load_zone zones c.timezone
  let local_start = combine date open_time
  let limit = combine date close_time
  let duration = minutes * minute
  elim (ltb limit (local_start + duration)) [
    | true ↦ ok (record { date = date; time_slots = [] })
    | false ↦ load_conflicts now db c (zone.to_utc local_start) (zone.to_utc limit) >>= λ conflicts.
        ok (record {
          date = date;
          time_slots =
              slots_from zone c conflicts.0 conflicts.1 duration limit
                (suc ((limit - local_start) / duration)) local_start;
        })
  ]

-- `get_availability`
unfoldable pub get_availability :
    ZoneInfo
    → ℕ
    → Db
    → BookingLevel
    → Option Uuid
    → Option Uuid
    → Option Uuid
    → ℕ
    → ℕ
    → Result AvailabilityResponse
get_availability zones now db level seat_id room_id venue_id date minutes = do
  raise_if (ltb minutes 15) (availability_validation duration_below_15)
  c ← resolve_resource db level seat_id room_id venue_id
  rule_allows (resolve_booking_rule db c) minutes
  elim (resolve_operating_hours db c date) [
    | none ↦ ok (record { date = date; time_slots = [] })
    | some (open_time, close_time) ↦ open_day zones now db c date minutes open_time close_time
  ]
