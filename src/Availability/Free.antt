-- ===== src/Availability/Free.antt =====
-- app/services/availability.py, `get_availability`: what the mark of a slot says of the tables.
use desmobapp_backend.Prelude.{
  ||-false, ℕ, ◌+◌, ◌<◌, ◌≤◌, ◌≡◌, Bool, true, false, not, some, List, In, any, any-false, ok,
  Bool-cases, inl, inr, true_and_false, arith,
}
use desmobapp_backend.Db.{Db, Booking, Hold, hold_is_pending}
use desmobapp_backend.Time.{Zone}
use desmobapp_backend.Availability.Resource.{ResourceContext}
use desmobapp_backend.Availability.Conflicts.{load_conflicts, overlaps, is_blocking}
use desmobapp_backend.Availability.Complete.{load_conflicts-bookings, load_conflicts-holds}
use desmobapp_backend.Availability.Slots.{AvailabilitySlot, slot_at, is_blocked}

-- The slot meets no blocking booking and no active hold of the resource's venue.
pub record IsOffered (now : ℕ) (db : Db) (c : ResourceContext) (slot : AvailabilitySlot)
    : Type 0 where
  pub no_booking :
      (b : Booking)
      → In b db.bookings
      → is_blocking b.status ≡ true
      → b.venue_id ≡ some c.venue_id
      → overlaps slot.start_time slot.end_time b.start_time b.end_time ≡ false
  pub no_hold :
      (h : Hold)
      → In h db.holds
      → hold_is_pending h.status ≡ true
      → now < h.expires_at
      → h.venue_id ≡ some c.venue_id
      → overlaps slot.start_time slot.end_time h.start_time h.end_time ≡ false

overlaps-wider :
    (a b rs re x y : ℕ) → rs ≤ a → b ≤ re → overlaps a b x y ≡ true → overlaps rs re x y ≡ true
overlaps-wider a b rs re x y lo hi h = ground arith

not-true : (b : Bool) → not b ≡ true → b ≡ false
not-true b h = ground arith

-- A slot of a day, within the day's instants, that is marked as available meets no blocking booking
-- and no active hold of the resource's venue.
pub available-IsOffered :
    (zone : Zone) (now : ℕ) (db : Db) (c : ResourceContext) (range_start range_end : ℕ)
    (bookings : List Booking) (holds : List Hold) (duration current : ℕ)
    → load_conflicts now db c range_start range_end ≡ ok (bookings, holds)
    → range_start ≤ zone.to_utc current
    → zone.to_utc (current + duration) ≤ range_end
    → (slot_at zone c bookings holds duration current).available ≡ true
    → IsOffered now db c (slot_at zone c bookings holds duration current)
unfolding slot_at is_blocked
available-IsOffered zone now db c rs re bookings holds duration current loaded lo hi free =
    let a : ℕ = zone.to_utc current in
    let b : ℕ = zone.to_utc (current + duration) in
    let (no_b, no_h) =
      ||-false (any (λ (x : Booking). overlaps a b x.start_time x.end_time) bookings)
        (any (λ (x : Hold). overlaps a b x.start_time x.end_time) holds) (not-true _ free) in
    record {
      no_booking = λ x m blocks home. elim (Bool-cases (overlaps a b x.start_time x.end_time)) [
        | inl hit ↦ absurd (
            true_and_false hit (
              any-false _ bookings no_b (
                load_conflicts-bookings now db c rs re bookings holds x loaded m blocks home
                  (overlaps-wider a b rs re x.start_time x.end_time lo hi hit))))
        | inr miss ↦ miss
      ];
      no_hold = λ x m waits fresh home. elim (Bool-cases (overlaps a b x.start_time x.end_time)) [
        | inl hit ↦ absurd (
            true_and_false hit (
              any-false _ holds no_h (
                load_conflicts-holds now db c rs re bookings holds x loaded m waits fresh home
                  (overlaps-wider a b rs re x.start_time x.end_time lo hi hit))))
        | inr miss ↦ miss
      ];
    }
