-- ===== src/Availability/Total.antt =====
-- app/services/availability.py: a resource that `_resolve_resource` returns, as `_load_conflicts`
-- takes it, with the two `assert`s there.
use desmobapp_backend.Prelude.{
  ℕ, ◌≡◌, refl, Option, none, some, List, Result, ok, or_raise-eq-ok, ◌>>=◌, ok-injective, subst,
}
use desmobapp_backend.Db.{Db, Uuid, BookingLevel, seat, room, venue, Booking, Hold}
use desmobapp_backend.Availability.Resource.{
  ResourceContext, resolve_resource, get_seat, get_room, get_venue,
}
use desmobapp_backend.Availability.Conflicts.{load_conflicts, resource_filter, ResourceFilter}

>>=-ok : {A B : Type 0} (m : Result A) (f : A → Result B) {a : A} → m ≡ ok a → (m >>= f) ≡ f a
>>=-ok m f e = rw e refl

-- The context has the columns that the filter of its level needs.
HasFilter : Db → ResourceContext → Type 0
HasFilter db c = (matches : ResourceFilter) × (resource_filter db c ≡ ok matches)

resolve_seat-HasFilter :
    (db : Db) (i : Uuid) {c : ResourceContext}
    → resolve_resource db seat (some i) none none ≡ ok c
    → HasFilter db c
unfolding resolve_resource resource_filter HasFilter
resolve_seat-HasFilter db i e0 =
    let (s, es, e1) = or_raise-eq-ok (get_seat db i) _ _ e0 in
    let (r, er, e2) = or_raise-eq-ok (get_room db s.room_id) _ _ e1 in
    let (v, ev, e3) = or_raise-eq-ok (get_venue db r.venue_id) _ _ e2 in
    subst (HasFilter db) (ok-injective e3) (_, refl)

resolve_room-HasFilter :
    (db : Db) (i : Uuid) {c : ResourceContext}
    → resolve_resource db room none (some i) none ≡ ok c
    → HasFilter db c
unfolding resolve_resource resource_filter HasFilter
resolve_room-HasFilter db i e0 =
    let (r, er, e1) = or_raise-eq-ok (get_room db i) _ _ e0 in
    let (v, ev, e2) = or_raise-eq-ok (get_venue db r.venue_id) _ _ e1 in
    subst (HasFilter db) (ok-injective e2) (_, refl)

resolve_venue-HasFilter :
    (db : Db) (i : Uuid) {c : ResourceContext}
    → resolve_resource db venue none none (some i) ≡ ok c
    → HasFilter db c
unfolding resolve_resource resource_filter HasFilter
resolve_venue-HasFilter db i e0 =
    let (v, ev, e1) = or_raise-eq-ok (get_venue db i) _ _ e0 in
    subst (HasFilter db) (ok-injective e1) (_, refl)

resolve_resource-HasFilter :
    (db : Db) (level : BookingLevel) (s r v : Option Uuid) {c : ResourceContext}
    → resolve_resource db level s r v ≡ ok c
    → HasFilter db c
unfolding resolve_resource
resolve_resource-HasFilter db seat (some i) none none e = resolve_seat-HasFilter db i e
resolve_resource-HasFilter db room none (some i) none e = resolve_room-HasFilter db i e
resolve_resource-HasFilter db venue none none (some i) e = resolve_venue-HasFilter db i e
resolve_resource-HasFilter db seat none r v e = cc
resolve_resource-HasFilter db seat (some i) (some r) v e = cc
resolve_resource-HasFilter db seat (some i) none (some v) e = cc
resolve_resource-HasFilter db room none none v e = cc
resolve_resource-HasFilter db room none (some r) (some v) e = cc
resolve_resource-HasFilter db room (some s) r v e = cc
resolve_resource-HasFilter db venue none none none e = cc
resolve_resource-HasFilter db venue none (some r) v e = cc
resolve_resource-HasFilter db venue (some s) r v e = cc

-- For a resource that `resolve_resource` returned, `load_conflicts` returns: neither `assert` fails.
pub load_conflicts-total :
    (now : ℕ) (db : Db) (level : BookingLevel) (s r v : Option Uuid) (c : ResourceContext)
    (range_start range_end : ℕ)
    → resolve_resource db level s r v ≡ ok c
    → (bookings : List Booking) × (holds : List Hold) × (load_conflicts now db c range_start
          range_end
        ≡ ok (bookings, holds))
unfolding load_conflicts HasFilter
load_conflicts-total now db level s r v c rs re e =
    let (matches, k) = resolve_resource-HasFilter db level s r v e in
    (_, _, >>=-ok (resource_filter db c) _ k)
