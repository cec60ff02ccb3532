-- ===== src/Availability/Complete.antt =====
-- app/services/availability.py, `_load_conflicts`: what its filters take in at each level.
use desmobapp_backend.Prelude.{
  ℕ, ◌≡◌, sym, true, Option, none, some, List, ok, >>=-eq-ok, ok-injective, ap, subst, In,
  In-filter_by, String, OnOk, OnOk-apply, ◌<◌, ==_refl, arith,
}
use desmobapp_backend.Db.{Db, Uuid, BookingLevel, seat, room, venue, Booking, Hold, hold_is_pending}
use desmobapp_backend.Availability.Resource.{ResourceContext}
use desmobapp_backend.Availability.Conflicts.{
  overlaps, is_blocking, ResourceFilter, resource_filter, load_conflicts,
}

abbrev CoversVenue : Uuid → ResourceFilter → Type 0
CoversVenue v matches = (r s : Option Uuid) → matches (some v) r s ≡ true

covers_of_level :
    (db : Db) (level : BookingLevel) (v : Uuid) (room_id seat_id : Option Uuid) (zone : String)
    → OnOk (CoversVenue v) (
        resource_filter db (record {
          level = level;
          venue_id = v;
          room_id = room_id;
          seat_id = seat_id;
          timezone = zone;
        }))
unfolding resource_filter
covers_of_level db seat v none none zone = tt
covers_of_level db seat v none (some i) zone = tt
covers_of_level db seat v (some r) none zone = tt
covers_of_level db seat v (some r) (some i) zone = λ room_id seat_id. ground (arith, ==_refl v)
covers_of_level db room v none i zone = tt
covers_of_level db room v (some r) i zone = λ room_id seat_id. ground (arith, ==_refl v)
covers_of_level db venue v r i zone = λ room_id seat_id. ground (arith, ==_refl v)

-- Whatever the level, a row of the context's venue matches.
resource_filter-venue :
    (db : Db) (c : ResourceContext) {matches : ResourceFilter}
    → resource_filter db c ≡ ok matches
    → CoversVenue c.venue_id matches
resource_filter-venue db c e =
    OnOk-apply (CoversVenue c.venue_id)
      (covers_of_level db c.level c.venue_id c.room_id c.seat_id c.timezone) e

-- Whatever the level of the resource, a blocking booking of its venue that shares an instant with
-- the range is among the bookings that `load_conflicts` returns.
pub load_conflicts-bookings :
    (now : ℕ) (db : Db) (c : ResourceContext) (range_start range_end : ℕ) (bookings : List Booking)
    (holds : List Hold) (b : Booking)
    → load_conflicts now db c range_start range_end ≡ ok (bookings, holds)
    → In b db.bookings
    → is_blocking b.status ≡ true
    → b.venue_id ≡ some c.venue_id
    → overlaps range_start range_end b.start_time b.end_time ≡ true
    → In b bookings
unfolding load_conflicts
load_conflicts-bookings now db c rs re bookings holds b h m blocks v o =
    let (matches, e, k) = >>=-eq-ok (resource_filter db c) _ h in
    let hit : matches b.venue_id b.room_id b.seat_id ≡ true =
      subst (λ x. matches x b.room_id b.seat_id ≡ true) (sym v)
        (resource_filter-venue db c e b.room_id b.seat_id) in
    subst (In b) (ap (λ (p : List Booking × List Hold). p.0) (ok-injective k))
      (In-filter_by _ db.bookings m (ground (arith, hit)))

-- A pending hold of the venue that has not expired and shares an instant with the range is among the
-- holds that `load_conflicts` returns.
pub load_conflicts-holds :
    (now : ℕ) (db : Db) (c : ResourceContext) (range_start range_end : ℕ) (bookings : List Booking)
    (holds : List Hold) (b : Hold)
    → load_conflicts now db c range_start range_end ≡ ok (bookings, holds)
    → In b db.holds
    → hold_is_pending b.status ≡ true
    → now < b.expires_at
    → b.venue_id ≡ some c.venue_id
    → overlaps range_start range_end b.start_time b.end_time ≡ true
    → In b holds
unfolding load_conflicts
load_conflicts-holds now db c rs re bookings holds b h m pending active v o =
    let (matches, e, k) = >>=-eq-ok (resource_filter db c) _ h in
    let hit : matches b.venue_id b.room_id b.seat_id ≡ true =
      subst (λ x. matches x b.room_id b.seat_id ≡ true) (sym v)
        (resource_filter-venue db c e b.room_id b.seat_id) in
    subst (In b) (ap (λ (p : List Booking × List Hold). p.1) (ok-injective k))
      (In-filter_by _ db.holds m (ground (arith, hit)))

-- Whatever blocks a place is found: where `load_conflicts` returns for a resource, the bookings that
-- it returns hold every blocking booking of the venue that shares an instant with the range, and the
-- holds every pending hold of the venue that has not expired and does so, at every level.
pub load_conflicts_complete :
    (now : ℕ) (db : Db) (c : ResourceContext) (range_start range_end : ℕ) (bookings : List Booking)
    (holds : List Hold)
    → load_conflicts now db c range_start range_end ≡ ok (bookings, holds)
    → ((b : Booking)
        → In b db.bookings
        → is_blocking b.status ≡ true
        → b.venue_id ≡ some c.venue_id
        → overlaps range_start range_end b.start_time b.end_time ≡ true
        → In b bookings)
      × ((h : Hold)
          → In h db.holds
          → hold_is_pending h.status ≡ true
          → now < h.expires_at
          → h.venue_id ≡ some c.venue_id
          → overlaps range_start range_end h.start_time h.end_time ≡ true
          → In h holds)
load_conflicts_complete now db c rs re bookings holds h = (
  λ b. load_conflicts-bookings now db c rs re bookings holds b h,
  λ k. load_conflicts-holds now db c rs re bookings holds k h,
)
