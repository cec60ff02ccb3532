-- ===== src/Availability/Sliced.antt =====
-- app/services/availability.py, `get_availability`: the slots of a day, against a list of them that
-- is written without the loop.
use native.Mathlib.Nat.{div-eq_of_lt, div-eq-sub-div}
use desmobapp_backend.Prelude.{
  ℕ, zero, suc, ◌+◌, ◌-◌, ◌*◌, ◌/◌, ◌<◌, ◌≤◌, ◌≡◌, refl, ap, true, false, Option, some, List, [],
  ◌∷◌, map, ok, Bool-cases, inl, inr, arith, leb, ltb, ltb→le, ltb→lt,
}
use desmobapp_backend.Db.{Db, Uuid, BookingLevel, Booking, Hold}
use desmobapp_backend.Time.{Zone, ZoneInfo, minute, combine}
use desmobapp_backend.Availability.Resource.{ResourceContext, resolve_resource}
use desmobapp_backend.Availability.Total.{load_conflicts-total}
use desmobapp_backend.Availability.Conflicts.{load_conflicts}
use desmobapp_backend.Availability.Slots.{
  AvailabilitySlot, AvailabilityResponse, slot_at, slots_from, open_day,
}

-- `n` wall-clock times, `duration` apart, from `current` on.
unfoldable pub starts : ℕ → ℕ → ℕ → List ℕ
starts duration zero current = []
starts duration (suc n) current = current ∷ starts duration n (current + duration)

module _ (zone : Zone) (c : ResourceContext) (bookings : List Booking) (holds : List Hold)
    (duration limit : ℕ) (positive : 0 < duration) where
  loop : ℕ → ℕ → List AvailabilitySlot
  loop = slots_from zone c bookings holds duration limit

  listed_slots : ℕ → ℕ → List AvailabilitySlot
  listed_slots n current = map (slot_at zone c bookings holds duration) (starts duration n current)

  stop :
      (fuel current : ℕ)
      → leb (current + duration) limit ≡ false
      → loop (suc fuel) current ≡ listed_slots ((limit - current) / duration) current
  unfolding loop listed_slots slots_from starts
  stop fuel current f = rw (f, slots_from, div-eq_of_lt short) refl
    where
      short : limit - current < duration
      short = ground arith

  one_more :
      (current : ℕ)
      → leb (current + duration) limit ≡ true
      → (limit - current) / duration ≡ suc ((limit - (current + duration)) / duration)
  one_more current t =
      let fits : duration ≤ limit - current = ground arith in
      let less : limit - current - duration ≡ limit - (current + duration) = omega arith in
      let e = div-eq-sub-div positive fits in let e' = ap (λ x. x / duration) less in omega arith

  count_drops :
      (current fuel : ℕ)
      → leb (current + duration) limit ≡ true
      → (limit - current) / duration < suc fuel
      → (limit - (current + duration)) / duration < fuel
  count_drops current fuel t h = let e = one_more current t in omega arith

  go_on :
      (fuel current : ℕ)
      → leb (current + duration) limit ≡ true
      → loop fuel (current + duration)
        ≡ listed_slots ((limit - (current + duration)) / duration) (current + duration)
      → loop (suc fuel) current ≡ listed_slots ((limit - current) / duration) current
  unfolding loop listed_slots slots_from starts
  go_on fuel current t rest =
      rw (t, slots_from, one_more current t)
        (ap (λ xs. slot_at zone c bookings holds duration current ∷ xs) rest)

  -- On enough fuel the loop gives all the slots that fit, one after the other, and no more.
  pub slots_from-enough :
      (fuel current : ℕ)
      → (limit - current) / duration < fuel
      → slots_from zone c bookings holds duration limit fuel current
        ≡ map
            (slot_at zone c bookings holds duration)
            (starts duration ((limit - current) / duration) current)
  unfolding loop listed_slots
  slots_from-enough zero current h = absurd (omega arith)
  slots_from-enough (suc fuel) current h = elim (Bool-cases (leb (current + duration) limit)) [
    | inl t ↦
        go_on fuel current t
          (slots_from-enough fuel (current + duration) (count_drops current fuel t h))
    | inr f ↦ stop fuel current f
  ]

-- What a day's answer is: no slots where not even one fits, or else all that fit from the opening on,
-- each judged by the bookings and holds that the whole day's search returned.
pub data Sliced (now : ℕ) (db : Db) (zone : Zone) (c : ResourceContext)
    (date minutes open_time close_time : ℕ) (response : AvailabilityResponse) : Type 0 where
  too_short :
      combine date close_time < combine date open_time + minutes * minute
      → response ≡ record { date = date; time_slots = [] }
      → Sliced now db zone c date minutes open_time close_time response
  sliced :
      (bookings : List Booking) (holds : List Hold)
      → combine date open_time + minutes * minute ≤ combine date close_time
      → load_conflicts now db c
          (zone.to_utc (combine date open_time))
          (zone.to_utc (combine date close_time))
        ≡ ok (bookings, holds)
      → response ≡ record {
        date = date;
        time_slots = map (slot_at zone c bookings holds (minutes * minute)) (
            starts
              (minutes * minute)
              ((combine date close_time - combine date open_time) / (minutes * minute))
              (combine date open_time));
      }
      → Sliced now db zone c date minutes open_time close_time response

-- On a day that is open, for a resource that was resolved and whose zone is known, `open_day`
-- returns, for every length of a slot but 0: the loop of `get_availability` ends and gives the slots
-- that fit, from the opening on, without a gap.
pub open_day-Sliced :
    (zones : ZoneInfo) (zone : Zone) (now : ℕ) (db : Db) (level : BookingLevel)
    (s r v : Option Uuid) (c : ResourceContext) (date minutes open_time close_time : ℕ)
    → resolve_resource db level s r v ≡ ok c
    → zones c.timezone ≡ some zone
    → 0 < minutes
    → (response : AvailabilityResponse) × (open_day zones now db c date minutes open_time close_time
        ≡ ok response)
      × Sliced now db zone c date minutes open_time close_time response
unfolding open_day
open_day-Sliced zones zone now db level s r v c date minutes open_time close_time e known positive =
    let start : ℕ = combine date open_time in
    let limit : ℕ = combine date close_time in
    let duration : ℕ = minutes * minute in
    let (bookings, holds, loaded) =
      load_conflicts-total now db level s r v c (zone.to_utc start) (zone.to_utc limit) e in
    elim (Bool-cases (ltb limit (start + duration))) [
      | inl t ↦ (
        record { date = date; time_slots = [] },
        rw (known, t) refl,
        too_short (ltb→lt limit (start + duration) t) refl,
      )
      | inr f ↦ (
        record {
          date = date;
          time_slots =
              slots_from zone c bookings holds duration limit (suc ((limit - start) / duration))
                start;
        },
        rw (known, f, loaded) refl,
        sliced bookings holds (ltb→le limit (start + duration) f) loaded (
            ap (λ slots. record { date = date; time_slots = slots })
              (slots_from-enough zone c bookings holds duration limit (omega arith)
                (suc ((limit - start) / duration)) start (omega arith))),
      )
    ]
