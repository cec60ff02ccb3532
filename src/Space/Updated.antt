-- ===== src/Space/Updated.antt =====
-- app/api/routes/space.py, `admin_update_room_layout`: all that the request does to the seats.
use desmobapp_backend.Prelude.{
  ℕ, true, ◌≡◌, refl, sym, ap, subst, ◌⊎◌, inl, inr, some, List, Result, Error, err, ok, In,
  In-filter_by, find_first-In, any-true, find_first, find_first-any, IsUnique, >>=-eq-ok,
  ok-injective, ◌==◌, ==→eq, ==_refl,
}
use desmobapp_backend.Db.{Db, Uuid, Seat}
use desmobapp_backend.Api.{answer, Response, success, failure}
use desmobapp_backend.Space.{
  Letters, RoomFull, find_room, get_room, RoomLayoutSeatInput, RoomLayoutUpdate, LayoutWrite,
  change, layout_writes, changed_seat, send_writes, set_full_room_booking, room_seats,
  update_room_layout, space_code, admin_update_room_layout_endpoint,
}
use desmobapp_backend.Space.Laid.{seat_clash, Laid, Laid-refl}
use desmobapp_backend.Space.Seated.{IsNamed, update_room_layout-Laid, set_full_room_booking-seats}
use desmobapp_backend.Space.Taken.{
  named_alike, IsFlush, send_writes-takes, In-layout_writes, layout_writes-IsUnique,
}

-- `t` is the seat `s` with the values of the request.
pub record HasValues (input : RoomLayoutSeatInput) (s t : Seat) : Type 0 where
  pub same_id : t.id ≡ s.id
  pub same_room : t.room_id ≡ s.room_id
  pub label : t.label ≡ input.label
  pub grid_x : t.grid_x ≡ input.grid_x
  pub grid_y : t.grid_y ≡ input.grid_y
  pub seat_type : t.seat_type ≡ input.seat_type
  pub attributes : t.attributes ≡ input.attributes
  pub active : t.active ≡ input.active

changed_seat-HasValues :
    (input : RoomLayoutSeatInput) (s : Seat) → HasValues input s (changed_seat input s)
changed_seat-HasValues input s = record {
  same_id = refl;
  same_room = refl;
  label = refl;
  grid_x = refl;
  grid_y = refl;
  seat_type = refl;
  attributes = refl;
  active = refl;
}

-- Every seat of the room that the request names has the values given for it.
abbrev pub Takes : Uuid → RoomLayoutUpdate → List Seat → List Seat → Type 0
Takes room_id payload xs ys =
    (input : RoomLayoutSeatInput) (s : Seat)
    → In input payload.seats
    → In s xs
    → s.room_id ≡ room_id
    → input.id ≡ some s.id
    → (t : Seat) × In t ys × HasValues input s t

answer-cases :
    {A S : Type 0} (status : ℕ) (code : Error → ℕ) (s : S) (r : Result (A × S))
    → ((e : Error) × (answer status code s r ≡ (failure (code e) e, s)))
      ⊎ ((a : A) × (s' : S) × (r ≡ ok (a, s')) × (answer status code s r ≡ (success status a, s')))
answer-cases status code s (ok (a, s')) = inr (a, s', refl, refl)
answer-cases status code s (err e) = inl (e, refl)

module _ (seat_ids : ℕ → Uuid) (room_id : Uuid) where
  room_seat :
      (db : Db) (s : Seat)
      → In s db.seats
      → s.room_id ≡ room_id
      → (t : Seat) × (find_first (λ t. t.id == s.id) (room_seats seat_ids room_id db) ≡ some t)
        × (t.id ≡ s.id)
  room_seat db s m own =
      let own' : (s.room_id == room_id) ≡ true =
        subst (λ i. (s.room_id == i) ≡ true) own (==_refl s.room_id) in
      let (t, found) =
        find_first-any (λ t. t.id == s.id) (room_seats seat_ids room_id db)
          (any-true (λ t. t.id == s.id) (room_seats seat_ids room_id db)
            (In-filter_by (λ s. s.room_id == room_id) db.seats m own') (==_refl s.id)) in
      (
        t,
        found,
        ==→eq t.id s.id
            (find_first-In (λ t. t.id == s.id) (room_seats seat_ids room_id db) found).1,
      )

  update_room_layout-Takes :
      (letters : Letters) (flush : List LayoutWrite → List LayoutWrite) (payload : RoomLayoutUpdate)
      (db : Db) {shown : RoomFull} {db' : Db}
      → IsFlush flush
      → IsUnique named_alike payload.seats
      → update_room_layout seat_ids room_id letters flush payload db ≡ ok (shown, db')
      → Takes room_id payload db.seats db'.seats
  unfolding update_room_layout
  update_room_layout-Takes letters flush payload db f u e input s asked m own named =
      let (room, e1, e2) = >>=-eq-ok (find_room room_id db) _ e in
      let start = set_full_room_booking seat_ids room_id payload.allow_full_room_booking db in
      let existing = room_seats seat_ids room_id db in
      let ws = layout_writes existing 0 payload.seats in
      let same = set_full_room_booking-seats seat_ids room_id payload.allow_full_room_booking db in
      let (committed, e3, e4) = >>=-eq-ok (send_writes seat_ids room_id (flush ws) start) _ e2 in
      let (answer, e5, e6) = >>=-eq-ok (get_room letters room_id committed) _ e4 in
      let (t, found, alike) = room_seat db s m own in
      (
        changed_seat input s,
        subst (λ (x : RoomFull × Db). In (changed_seat input s) x.1.seats) (ok-injective e6)
            (send_writes-takes seat_ids room_id s input (flush ws) start
              (f.once ws (layout_writes-IsUnique existing 0 payload.seats u))
              (subst (λ xs. In s xs) (sym same) m)
              (f.every ws (change s.id input) (
                subst (λ i. In (change i input) ws) alike
                  (In-layout_writes existing 0 payload.seats asked named found)))
              e3),
        changed_seat-HasValues input s,
      )

-- If the seats had distinct identifiers, the request names no seat twice, and the flush sends the
-- writes it was asked for and no other, then the route for a room's layout either
-- fails and changes nothing, or answers 200 and every seat of the room that the
-- request names has the values given for it. In both cases the identifiers stay distinct, a seat of
-- another room or one that is not named is as it was, no other room has a new seat,
-- and no seat is gone or in another room.
pub admin_update_room_layout-Updated :
    (letters : Letters) (seat_ids : ℕ → Uuid) (flush : List LayoutWrite → List LayoutWrite)
    (room_id : Uuid) (payload : RoomLayoutUpdate) (db : Db)
    → IsFlush flush
    → IsUnique seat_clash db.seats
    → IsUnique named_alike payload.seats
    → let served = admin_update_room_layout_endpoint letters seat_ids flush room_id payload db in
      Laid room_id (IsNamed payload) db.seats served.1.seats
      × (((status : ℕ) × (e : Error) × (served ≡ (failure status e, db)))
          ⊎ ((shown : RoomFull) × (served.0 ≡ success 200 shown)
              × Takes room_id payload db.seats served.1.seats))
unfolding admin_update_room_layout_endpoint
admin_update_room_layout-Updated letters seat_ids flush room_id payload db f u n =
    elim (answer-cases 200 space_code db
      (update_room_layout seat_ids room_id letters flush payload db)) [
        | inl (e, same) ↦ (
          subst (λ (x : Response RoomFull × Db). Laid room_id (IsNamed payload) db.seats x.1.seats)
              (sym same) (Laid-refl room_id u),
          inl (space_code e, e, same),
        )
        | inr (shown, db', done, same) ↦ (
          subst (λ (x : Response RoomFull × Db). Laid room_id (IsNamed payload) db.seats x.1.seats)
              (sym same)
              (update_room_layout-Laid seat_ids room_id letters flush payload db f.only u done),
          inr (
            shown,
            ap (λ (x : Response RoomFull × Db). x.0) same,
            subst (λ (x : Response RoomFull × Db). Takes room_id payload db.seats x.1.seats)
                (sym same)
                (update_room_layout-Takes seat_ids room_id letters flush payload db f n done),
          ),
        )
      ]
