-- ===== src/Booking/Homed.antt =====
-- app/services/booking.py: the columns in which a booking keeps the place of its request, and what
-- they resolve to.
use desmobapp_backend.Prelude.{
  find_first_self, ◌≡◌, refl, ◌∙◌, subst, Option, none, some, ok, or_raise-eq-ok, ok-injective,
  Result,
}
use desmobapp_backend.Db.{Db, Uuid, BookingLevel, seat, room, venue, Booking, Seat, Room, Venue}
use desmobapp_backend.Availability.{
  ResourceContext, resolve_resource, get_seat, get_room, get_venue,
}
use desmobapp_backend.Booking.Spec.{SamePlace}
use desmobapp_backend.Booking.Change.{resolve_booked, id_at_level}

-- The place of `b` is known, and its row says where.
pub record IsHomed (db : Db) (b : Booking) : Type 0 where
  pub context : ResourceContext
  pub known : resolve_booked db b ≡ ok context
  pub in_venue : b.venue_id ≡ some context.venue_id
  pub in_room : b.room_id ≡ context.room_id
  pub at_seat : b.seat_id ≡ context.seat_id

abbrev pub resolve_context : Db → ResourceContext → Result ResourceContext
resolve_context db c =
    resolve_resource db c.level (id_at_level seat c.level c.seat_id)
      (id_at_level room c.level c.room_id) (id_at_level venue c.level (some c.venue_id))

resolve_seat-again :
    (db : Db) (i : Uuid) {c : ResourceContext}
    → resolve_resource db seat (some i) none none ≡ ok c
    → resolve_context db c ≡ ok c
unfolding resolve_resource
resolve_seat-again db i e0 =
    let (s, es, e1) = or_raise-eq-ok (get_seat db i) _ _ e0 in
    let (r, er, e2) = or_raise-eq-ok (get_room db s.room_id) _ _ e1 in
    let (v, ev, e3) = or_raise-eq-ok (get_venue db r.venue_id) _ _ e2 in
    subst (λ x. resolve_context db x ≡ ok x) (ok-injective e3)
      (rw (find_first_self (λ (s : Seat). s.id) i db.seats es, er, ev))

resolve_room-again :
    (db : Db) (i : Uuid) {c : ResourceContext}
    → resolve_resource db room none (some i) none ≡ ok c
    → resolve_context db c ≡ ok c
unfolding resolve_resource
resolve_room-again db i e0 =
    let (r, er, e1) = or_raise-eq-ok (get_room db i) _ _ e0 in
    let (v, ev, e2) = or_raise-eq-ok (get_venue db r.venue_id) _ _ e1 in
    subst (λ x. resolve_context db x ≡ ok x) (ok-injective e2)
      (rw (find_first_self (λ (r : Room). r.id) i db.rooms er, ev))

resolve_venue-again :
    (db : Db) (i : Uuid) {c : ResourceContext}
    → resolve_resource db venue none none (some i) ≡ ok c
    → resolve_context db c ≡ ok c
unfolding resolve_resource
resolve_venue-again db i e0 =
    let (v, ev, e1) = or_raise-eq-ok (get_venue db i) _ _ e0 in
    subst (λ x. resolve_context db x ≡ ok x) (ok-injective e1)
      (rw (find_first_self (λ (v : Venue). v.id) i db.venues ev))

-- A resource that was resolved is resolved again, to the same, from what a row keeps of it.
pub resolve_resource-again :
    (db : Db) (level : BookingLevel) (s r v : Option Uuid) {c : ResourceContext}
    → resolve_resource db level s r v ≡ ok c
    → resolve_context db c ≡ ok c
unfolding resolve_resource
resolve_resource-again db seat (some i) none none e = resolve_seat-again db i e
resolve_resource-again db room none (some i) none e = resolve_room-again db i e
resolve_resource-again db venue none none (some i) e = resolve_venue-again db i e
resolve_resource-again db seat none r v e = cc
resolve_resource-again db seat (some i) (some r) v e = cc
resolve_resource-again db seat (some i) none (some v) e = cc
resolve_resource-again db room none none v e = cc
resolve_resource-again db room none (some r) (some v) e = cc
resolve_resource-again db room (some s) r v e = cc
resolve_resource-again db venue none none none e = cc
resolve_resource-again db venue none (some r) v e = cc
resolve_resource-again db venue (some s) r v e = cc

-- The tables of places are the same.
pub record SameSpace (db db' : Db) : Type 0 where
  pub same_seats : db'.seats ≡ db.seats
  pub same_rooms : db'.rooms ≡ db.rooms
  pub same_venues : db'.venues ≡ db.venues

-- The tables of check-ins and transactions are the same.
pub record SameLedgers (db db' : Db) : Type 0 where
  pub same_checkins : db'.checkins ≡ db.checkins
  pub same_transactions : db'.transactions ≡ db.transactions

resolve_resource-space :
    (db db' : Db) (level : BookingLevel) (s r v : Option Uuid)
    → SameSpace db db'
    → resolve_resource db' level s r v ≡ resolve_resource db level s r v
unfolding resolve_resource
resolve_resource-space db db' seat (some i) none none e =
    rw (e.same_seats, e.same_rooms, e.same_venues)
resolve_resource-space db db' room none (some i) none e = rw (e.same_rooms, e.same_venues)
resolve_resource-space db db' venue none none (some i) e = rw e.same_venues
resolve_resource-space db db' seat none r v e = refl
resolve_resource-space db db' seat (some i) (some r) v e = refl
resolve_resource-space db db' seat (some i) none (some v) e = refl
resolve_resource-space db db' room none none v e = refl
resolve_resource-space db db' room none (some r) (some v) e = refl
resolve_resource-space db db' room (some s) r v e = refl
resolve_resource-space db db' venue none none none e = refl
resolve_resource-space db db' venue none (some r) v e = refl
resolve_resource-space db db' venue (some s) r v e = refl

pub resolve_booked-space :
    (db db' : Db) (b : Booking) → SameSpace db db' → resolve_booked db' b ≡ resolve_booked db b
unfolding resolve_booked
resolve_booked-space db db' b e = resolve_resource-space db db' b.level _ _ _ e

-- A row that keeps its place, over the same tables of places, stays homed.
pub SamePlace-IsHomed :
    (db db' : Db) (x y : Booking) → SameSpace db db' → SamePlace x y → IsHomed db x → IsHomed db' y
unfolding resolve_booked
SamePlace-IsHomed db db' x y e p h = record {
  context = h.context;
  known =
      resolve_booked-space db db' y e
      ∙ rw (p.same_level, p.same_venue, p.same_room, p.same_seat) h.known;
  in_venue = p.same_venue ∙ h.in_venue;
  in_room = p.same_room ∙ h.in_room;
  at_seat = p.same_seat ∙ h.at_seat;
}
