-- ===== src/Availability/Elsewhere.antt =====
-- app/services/availability.py, `_load_conflicts`: the rows that its filters leave out.
use desmobapp_backend.Prelude.{
  ◌≡◌, ◌≢◌, refl, sym, ◌∙◌, subst, Bool, false, ◌||◌, Option, none, some, List, [], ◌∷◌, map, ok,
  or_raise-eq-ok, ok-injective, In, here, there, map-In, any, any-In, filter_by, filter_by-In,
  find_first-In, ◌==◌, ==→eq, sql_eq, sql_eq→eq, Bool-cases, inl, inr, arith,
}
use desmobapp_backend.Db.{Db, Uuid, BookingLevel, seat, room, venue, Seat, Room}
use desmobapp_backend.Availability.Resource.{
  ResourceContext, resolve_resource, get_seat, get_room, get_venue,
}
use desmobapp_backend.Availability.Conflicts.{ResourceFilter, resource_filter, sql_in}

-- The columns of a row say that it is not in the venue `w`: neither itself, nor by a room of theirs,
-- nor by the room of a seat of theirs.
pub record IsElsewhere (db : Db) (w : Uuid) (venue_id room_id seat_id : Option Uuid) : Type 0 where
  pub other_venue : venue_id ≢ some w
  pub other_room : (r : Room) → In r db.rooms → room_id ≡ some r.id → r.venue_id ≢ w
  pub other_seat :
      (s : Seat) (r : Room)
      → In s db.seats
      → In r db.rooms
      → seat_id ≡ some s.id
      → r.id ≡ s.room_id
      → r.venue_id ≢ w

three_false : (a b c : Bool) → a ≡ false → b ≡ false → c ≡ false → (a || b || c) ≡ false
three_false a b c ha hb hc = ground arith

sql_in-false :
    (o : Option Uuid) (ids : List Uuid)
    → ((i : Uuid) → In i ids → sql_eq o i ≡ false)
    → sql_in o ids ≡ false
unfolding any
sql_in-false o [] h = refl
sql_in-false o (i ∷ ids) h =
    let a = h i (here refl) in let b = sql_in-false o ids (λ j m. h j (there m)) in ground arith

module _ (db : Db) (w : Uuid) {v r s : Option Uuid} (e : IsElsewhere db w v r s) where
  venue_miss : sql_eq v w ≡ false
  venue_miss = elim (Bool-cases (sql_eq v w)) [
    | inl t ↦ absurd (e.other_venue (sql_eq→eq v w t))
    | inr f ↦ f
  ]

  room_miss : (x : Room) → In x db.rooms → x.venue_id ≡ w → sql_eq r x.id ≡ false
  room_miss x m here_too = elim (Bool-cases (sql_eq r x.id)) [
    | inl t ↦ absurd (e.other_room x m (sql_eq→eq r x.id t) here_too)
    | inr f ↦ f
  ]

  seat_miss :
      (x : Seat) (y : Room)
      → In x db.seats
      → In y db.rooms
      → y.id ≡ x.room_id
      → y.venue_id ≡ w
      → sql_eq s x.id ≡ false
  seat_miss x y m k same here_too = elim (Bool-cases (sql_eq s x.id)) [
    | inl t ↦ absurd (e.other_seat x y m k (sql_eq→eq s x.id t) same here_too)
    | inr f ↦ f
  ]

  -- The seats of a room of the venue.
  seats_miss :
      (y : Room)
      → In y db.rooms
      → y.venue_id ≡ w
      → sql_in s (map (λ x. x.id) (filter_by (λ x. x.room_id == y.id) db.seats)) ≡ false
  seats_miss y k here_too =
      sql_in-false s (map (λ x. x.id) (filter_by (λ x. x.room_id == y.id) db.seats)) (λ i m.
        let (x, j, same) = map-In (λ x. x.id) (filter_by (λ x. x.room_id == y.id) db.seats) m in
        let (n, t) = filter_by-In (λ x. x.room_id == y.id) db.seats j in
        subst (λ z. sql_eq s z ≡ false) (sym same)
          (seat_miss x y n k (sym (==→eq x.room_id y.id t)) here_too))

  abbrev rooms_here : List Uuid
  rooms_here = map (λ x. x.id) (filter_by (λ x. x.venue_id == w) db.rooms)

  rooms_miss : sql_in r rooms_here ≡ false
  rooms_miss = sql_in-false r rooms_here (λ i m.
      let (x, j, same) = map-In (λ x. x.id) (filter_by (λ x. x.venue_id == w) db.rooms) m in
      let (n, t) = filter_by-In (λ x. x.venue_id == w) db.rooms j in
      subst (λ z. sql_eq r z ≡ false) (sym same) (room_miss x n (==→eq x.venue_id w t)))

  all_seats_miss :
      sql_in s (map (λ x. x.id) (filter_by (λ x. sql_in (some x.room_id) rooms_here) db.seats))
      ≡ false
  all_seats_miss =
      sql_in-false s
        (map (λ x. x.id) (filter_by (λ x. sql_in (some x.room_id) rooms_here) db.seats))
        (λ i m.
          let (x, j, same) =
            map-In (λ x. x.id) (filter_by (λ x. sql_in (some x.room_id) rooms_here) db.seats) m in
          let (n, t) = filter_by-In (λ x. sql_in (some x.room_id) rooms_here) db.seats j in
          let (q, k, hit) = any-In (λ q. sql_eq (some x.room_id) q) rooms_here t in
          let (y, l, is_y) = map-In (λ y. y.id) (filter_by (λ y. y.venue_id == w) db.rooms) k in
          let (o, u) = filter_by-In (λ y. y.venue_id == w) db.rooms l in
          subst (λ z. sql_eq s z ≡ false) (sym same)
            (seat_miss x y n o (sym (==→eq x.room_id q hit ∙ is_y)) (==→eq y.venue_id w u)))

-- A row that is elsewhere is left out.
abbrev Skips : Db → ResourceContext → Type 0
Skips db c =
    (matches : ResourceFilter) (v r s : Option Uuid)
    → resource_filter db c ≡ ok matches
    → IsElsewhere db c.venue_id v r s
    → matches v r s ≡ false

resolve_seat-Skips :
    (db : Db) (i : Uuid) {c : ResourceContext}
    → resolve_resource db seat (some i) none none ≡ ok c
    → Skips db c
unfolding resolve_resource resource_filter
resolve_seat-Skips db i e0 =
    let (x, es, e1) = or_raise-eq-ok (get_seat db i) _ _ e0 in
    let (y, er, e2) = or_raise-eq-ok (get_room db x.room_id) _ _ e1 in
    let (z, ev, e3) = or_raise-eq-ok (get_venue db y.venue_id) _ _ e2 in
    let (m, hs) = find_first-In (λ r. r.id == i) db.seats es in
    let (k, hr) = find_first-In (λ r. r.id == x.room_id) db.rooms er in
    let (l, hv) = find_first-In (λ r. r.id == y.venue_id) db.venues ev in
    let home : y.venue_id ≡ z.id = sym (==→eq z.id y.venue_id hv) in
    subst (Skips db) (ok-injective e3) (λ matches v r s f away.
      subst (λ (g : ResourceFilter). g v r s ≡ false) (ok-injective f)
        (three_false (sql_eq s x.id) (sql_eq r y.id) (sql_eq v z.id)
          (seat_miss db z.id away x y m k (==→eq y.id x.room_id hr) home)
          (room_miss db z.id away y k home) (venue_miss db z.id away)))

resolve_room-Skips :
    (db : Db) (i : Uuid) {c : ResourceContext}
    → resolve_resource db room none (some i) none ≡ ok c
    → Skips db c
unfolding resolve_resource resource_filter
resolve_room-Skips db i e0 =
    let (y, er, e2) = or_raise-eq-ok (get_room db i) _ _ e0 in
    let (z, ev, e3) = or_raise-eq-ok (get_venue db y.venue_id) _ _ e2 in
    let (k, hr) = find_first-In (λ r. r.id == i) db.rooms er in
    let (l, hv) = find_first-In (λ r. r.id == y.venue_id) db.venues ev in
    let home : y.venue_id ≡ z.id = sym (==→eq z.id y.venue_id hv) in
    subst (Skips db) (ok-injective e3) (λ matches v r s f away.
      subst (λ (g : ResourceFilter). g v r s ≡ false) (ok-injective f)
        (three_false (sql_eq r y.id) (sql_eq v z.id) _ (room_miss db z.id away y k home)
          (venue_miss db z.id away) (seats_miss db z.id away y k home)))

resolve_venue-Skips :
    (db : Db) (i : Uuid) {c : ResourceContext}
    → resolve_resource db venue none none (some i) ≡ ok c
    → Skips db c
unfolding resolve_resource resource_filter
resolve_venue-Skips db i e0 =
    let (z, ev, e3) = or_raise-eq-ok (get_venue db i) _ _ e0 in
    subst (Skips db) (ok-injective e3) (λ matches v r s f away.
      subst (λ (g : ResourceFilter). g v r s ≡ false) (ok-injective f)
        (three_false (sql_eq v z.id) _ _ (venue_miss db z.id away) (rooms_miss db z.id away)
          (all_seats_miss db z.id away)))

-- For a resource that is there, at every level, the filter leaves out what is elsewhere.
pub resolve_resource-Skips :
    (db : Db) (level : BookingLevel) (s r v : Option Uuid) {c : ResourceContext}
    → resolve_resource db level s r v ≡ ok c
    → Skips db c
unfolding resolve_resource
resolve_resource-Skips db seat (some i) none none e = resolve_seat-Skips db i e
resolve_resource-Skips db room none (some i) none e = resolve_room-Skips db i e
resolve_resource-Skips db venue none none (some i) e = resolve_venue-Skips db i e
resolve_resource-Skips db seat none r v e = cc
resolve_resource-Skips db seat (some i) (some r) v e = cc
resolve_resource-Skips db seat (some i) none (some v) e = cc
resolve_resource-Skips db room none none v e = cc
resolve_resource-Skips db room none (some r) (some v) e = cc
resolve_resource-Skips db room (some s) r v e = cc
resolve_resource-Skips db venue none none none e = cc
resolve_resource-Skips db venue none (some r) v e = cc
resolve_resource-Skips db venue (some s) r v e = cc
