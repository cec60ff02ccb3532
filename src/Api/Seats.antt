-- ===== src/Api/Seats.antt =====
-- The invariant of the database, read for one seat.
use desmobapp_backend.Prelude.{
  ◌≡◌, ◌≢◌, refl, sym, ◌∙◌, ap, subst, true, false, some, none, List, [], In, In-nil, ok,
  find_first-In, find_first_self, eq_of_some, or_raise-eq-ok, ok-injective, ◌==◌, ==→eq,
}
use desmobapp_backend.Db.{Db, Uuid, seat, room, venue, Booking, Seat, Room, Venue}
use desmobapp_backend.Time.{ZoneInfo}
use desmobapp_backend.Availability.{
  ResourceContext, resolve_resource, get_seat, get_room, get_venue, is_blocking, overlaps,
}
use desmobapp_backend.Booking.{resolve_booked}
use desmobapp_backend.Booking.Spec.Safe.{Safe, Safe-nil}
use desmobapp_backend.Booking.Homed.{IsHomed}
use desmobapp_backend.Api.{Request, run}
use desmobapp_backend.Api.Invariant.{Inv}
use desmobapp_backend.Api.Run.{run-Inv}

-- The booking takes the seat `s` of the room `r`: the seat itself, its room, or the room's venue.
pub data Takes (s : Seat) (r : Room) (b : Booking) : Type 0 where
  takes_seat : b.level ≡ seat → b.seat_id ≡ some s.id → Takes s r b
  takes_room : b.level ≡ room → b.room_id ≡ some r.id → Takes s r b
  takes_venue : b.level ≡ venue → b.venue_id ≡ some r.venue_id → Takes s r b

get_venue-id : (db : Db) (i : Uuid) {v : Venue} → get_venue db i ≡ some v → v.id ≡ i
get_venue-id db i {v} e = ==→eq v.id i (find_first-In (λ (x : Venue). x.id == i) db.venues e).1

resolve_room-venue :
    (db : Db) (r : Room) {c : ResourceContext}
    → get_room db r.id ≡ some r
    → resolve_resource db room none (some r.id) none ≡ ok c
    → c.venue_id ≡ r.venue_id
unfolding resolve_resource
resolve_room-venue db r {c} er e0 =
    let (r', er', e1) = or_raise-eq-ok (get_room db r.id) _ _ e0 in
    let (v, ev, e2) = or_raise-eq-ok (get_venue db r'.venue_id) _ _ e1 in
    let same : r' ≡ r = eq_of_some (sym er' ∙ er) in
    ap (λ (x : ResourceContext). x.venue_id) (sym (ok-injective e2))
    ∙ get_venue-id db r'.venue_id ev
    ∙ ap (λ (x : Room). x.venue_id) same

resolve_seat-venue :
    (db : Db) (s : Seat) (r : Room) {c : ResourceContext}
    → get_seat db s.id ≡ some s
    → get_room db s.room_id ≡ some r
    → resolve_resource db seat (some s.id) none none ≡ ok c
    → c.venue_id ≡ r.venue_id
unfolding resolve_resource
resolve_seat-venue db s r {c} es er e0 =
    let (s', es', e1) = or_raise-eq-ok (get_seat db s.id) _ _ e0 in
    let (r', er', e2) = or_raise-eq-ok (get_room db s'.room_id) _ _ e1 in
    let (v, ev, e3) = or_raise-eq-ok (get_venue db r'.venue_id) _ _ e2 in
    let same_seat : s' ≡ s = eq_of_some (sym es' ∙ es) in
    let same_room : r' ≡ r =
      eq_of_some (sym er' ∙ ap (λ (x : Seat). get_room db x.room_id) same_seat ∙ er) in
    ap (λ (x : ResourceContext). x.venue_id) (sym (ok-injective e3))
    ∙ get_venue-id db r'.venue_id ev
    ∙ ap (λ (x : Room). x.venue_id) same_room

get_room_self : (db : Db) (i : Uuid) {r : Room} → get_room db i ≡ some r → get_room db r.id ≡ some r
get_room_self db i e = find_first_self (λ (x : Room). x.id) i db.rooms e

-- Whoever takes the seat is in its venue.
Takes-venue :
    (db : Db) (s : Seat) (r : Room) (b : Booking)
    → get_seat db s.id ≡ some s
    → get_room db s.room_id ≡ some r
    → IsHomed db b
    → Takes s r b
    → b.venue_id ≡ some r.venue_id
unfolding resolve_booked
Takes-venue db s r b es er h (takes_seat l e) =
    h.in_venue ∙ ap some (resolve_seat-venue db s r es er (sym (rw (l, e) refl) ∙ h.known))
Takes-venue db s r b es er h (takes_room l e) =
    h.in_venue
    ∙ ap some
        (resolve_room-venue db r (get_room_self db s.room_id er) (sym (rw (l, e) refl) ∙ h.known))
Takes-venue db s r b es er h (takes_venue l e) = e

-- No seat is ever taken twice at one time: in a database that has kept its invariant, two bookings
-- that block, take one seat and have different identifiers share no instant.
seat_exclusive :
    (db : Db) (s : Seat) (r : Room) (a b : Booking)
    → Inv db
    → get_seat db s.id ≡ some s
    → get_room db s.room_id ≡ some r
    → In a db.bookings
    → In b db.bookings
    → a.id ≢ b.id
    → is_blocking a.status ≡ true
    → is_blocking b.status ≡ true
    → Takes s r a
    → Takes s r b
    → overlaps a.start_time a.end_time b.start_time b.end_time ≡ false
seat_exclusive db s r a b v es er ma mb ne ha hb ta tb = v.safe.exclusive a b ma mb ne ha hb (
    Takes-venue db s r a es er (v.homed a ma) ta
    ∙ sym (Takes-venue db s r b es er (v.homed b mb) tb))

-- Nothing has been booked, let in or paid yet; the places are arbitrary.
pub record IsUnused (db : Db) : Type 0 where
  pub no_bookings : db.bookings ≡ []
  pub no_checkins : db.checkins ≡ []
  pub no_transactions : db.transactions ≡ []

not-In-nil : {A : Type 0} {x : A} {xs : List A} → xs ≡ [] → In x xs → ⊥
not-In-nil {x = x} e m = In-nil (subst (In x) e m)

pub IsUnused-Inv : (db : Db) → IsUnused db → Inv db
IsUnused-Inv db u = record {
  safe = subst Safe (sym u.no_bookings) Safe-nil;
  homed = λ b m. absurd (not-In-nil u.no_bookings m);
  checked = λ c m. absurd (not-In-nil u.no_checkins m);
  balanced = λ t m. absurd (not-In-nil u.no_transactions m);
}

-- From a database without bookings, check-ins and transactions on, whatever requests are served one
-- after the other: two bookings of different identifiers that block and take one seat, be it the seat
-- itself, its room or its room's venue, have no instant in common.
pub no_double_booking :
    (zones : ZoneInfo) (rs : List Request) (db : Db) (s : Seat) (r : Room) (a b : Booking)
    → IsUnused db
    → get_seat (run zones rs db) s.id ≡ some s
    → get_room (run zones rs db) s.room_id ≡ some r
    → In a (run zones rs db).bookings
    → In b (run zones rs db).bookings
    → a.id ≢ b.id
    → is_blocking a.status ≡ true
    → is_blocking b.status ≡ true
    → Takes s r a
    → Takes s r b
    → overlaps a.start_time a.end_time b.start_time b.end_time ≡ false
no_double_booking zones rs db s r a b u =
    seat_exclusive (run zones rs db) s r a b (run-Inv zones rs db (IsUnused-Inv db u))
