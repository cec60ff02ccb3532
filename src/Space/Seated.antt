-- ===== src/Space/Seated.antt =====
-- app/services/space.py, `update_room_layout`: from its writes to the whole.
use desmobapp_backend.Prelude.{
  ℕ, suc, ◌≡◌, refl, sym, ◌∙◌, ap, subst, Bool, true, false, not, ◌&&◌, ◌||◌, inl, inr, Option,
  none, some, List, [], ◌∷◌, ok, In, here, there, filter_by-In, find_first-In, any, find_first,
  IsUnique, >>=-eq-ok, ok-injective, Option-cases, true_and_false, raise_if-eq-ok, ◌==◌, ==→eq,
}
use desmobapp_backend.Db.{Db, Uuid, Seat}
use desmobapp_backend.Space.{
  Letters, RoomFull, find_room, get_room, RoomLayoutSeatInput, RoomLayoutUpdate, LayoutWrite,
  change, add, layout_write, layout_writes, has_label, send_write, send_writes,
  set_full_room_booking, room_seats, update_room_layout,
}
use desmobapp_backend.Api.{answer}
use desmobapp_backend.Space.Laid.{
  seat_clash, Laid, IsAimed, Laid-refl, Laid-trans, changed-Laid, added-Laid,
}

-- A seat that the request names by its identifier.
abbrev pub IsNamed : RoomLayoutUpdate → Uuid → Type 0
IsNamed payload i = (input : RoomLayoutSeatInput) × In input payload.seats × (input.id ≡ some i)

-- The session sends only what it was asked to.
abbrev pub SendsOnly : (List LayoutWrite → List LayoutWrite) → Type 0
SendsOnly flush = (ws : List LayoutWrite) (w : LayoutWrite) → In w (flush ws) → In w ws

write_id : LayoutWrite → Uuid
write_id (change i input) = i
write_id (add n input) = 0

is_change : LayoutWrite → Bool
is_change (change i input) = true
is_change (add n input) = false

module _ (seat_ids : ℕ → Uuid) (room_id : Uuid) where
  -- Every change is of a seat of the room.
  abbrev AllAimed : (Uuid → Type 0) → List Seat → List LayoutWrite → Type 0
  AllAimed Named xs ws =
      (i : Uuid) (input : RoomLayoutSeatInput) → In (change i input) ws → IsAimed room_id Named xs i

  kept_aim :
      {Named : Uuid → Type 0} {xs ys : List Seat} {i : Uuid}
      → Laid room_id Named xs ys
      → IsAimed room_id Named xs i
      → IsAimed room_id Named ys i
  kept_aim laid aim =
      let (t, m, e, r) = laid.kept aim.target aim.present in
      record {
        named = aim.named;
        target = t;
        present = m;
        same_id = e ∙ aim.same_id;
        in_room = r ∙ aim.in_room;
      }

  send_write-Laid :
      {Named : Uuid → Type 0} (w : LayoutWrite) (db : Db) {db' : Db}
      → IsUnique seat_clash db.seats
      → AllAimed Named db.seats (w ∷ [])
      → send_write seat_ids room_id w db ≡ ok db'
      → Laid room_id Named db.seats db'.seats
  unfolding send_write
  send_write-Laid {Named} (change i input) db u aimed e =
      let (free, k) =
        raise_if-eq-ok
          (any (λ s. not (s.id == i) && has_label seat_ids room_id input.label s) db.seats) _ _ e in
      subst (λ (x : Db). Laid room_id Named db.seats x.seats) (ok-injective k)
        (changed-Laid room_id db.seats i input u (aimed i input (here refl)))
  send_write-Laid {Named} (add n input) db u aimed e =
      let (free, k) =
        raise_if-eq-ok
          (any (λ s. s.id == seat_ids n || has_label seat_ids room_id input.label s) db.seats) _ _
          e in
      subst (λ (x : Db). Laid room_id Named db.seats x.seats) (ok-injective k)
        (added-Laid room_id seat_ids db.seats n input u free)

  send_writes-Laid :
      {Named : Uuid → Type 0} (ws : List LayoutWrite) (db : Db) {db' : Db}
      → IsUnique seat_clash db.seats
      → AllAimed Named db.seats ws
      → send_writes seat_ids room_id ws db ≡ ok db'
      → Laid room_id Named db.seats db'.seats
  unfolding send_writes
  send_writes-Laid {Named} [] db u aimed e =
      subst (λ (x : Db). Laid room_id Named db.seats x.seats) (ok-injective e) (Laid-refl room_id u)
  send_writes-Laid {Named} (w ∷ ws) db u aimed e =
      let (sent, e1, e2) = >>=-eq-ok (send_write seat_ids room_id w db) _ e in
      let one = send_write-Laid w db u (λ i input m. aimed i input (head_only i input m)) e1 in
      Laid-trans room_id one (
        send_writes-Laid ws sent one.unique (λ i input m. kept_aim one (aimed i input (there m)))
          e2)
    where
      head_only :
          (i : Uuid) (input : RoomLayoutSeatInput)
          → In (change i input) (w ∷ [])
          → In (change i input) (w ∷ ws)
      head_only i input (here h) = here h
      head_only i input (there m) = elim m [ ]

  layout_write-IsAimed :
      (payload : RoomLayoutUpdate) (db : Db) (n : ℕ) (input : RoomLayoutSeatInput) (o : Option Uuid)
      {i : Uuid} {values : RoomLayoutSeatInput}
      → In input payload.seats
      → input.id ≡ o
      → change i values ≡ layout_write (room_seats seat_ids room_id db) n input o
      → IsAimed room_id (IsNamed payload) db.seats i
  unfolding write_id is_change
  layout_write-IsAimed payload db n input none m id e =
      absurd (true_and_false refl (ap is_change e))
  layout_write-IsAimed payload db n input (some j) {i} m id e =
      elim (Option-cases (find_first (λ s. s.id == j) (room_seats seat_ids room_id db))) [
        | inl absent ↦ absurd (true_and_false refl (ap is_change (rw (absent, layout_write) at e)))
        | inr (s, found) ↦
            let same : i ≡ s.id = ap write_id (rw (found, layout_write) at e) in
            let (k, hit) = find_first-In (λ s. s.id == j) (room_seats seat_ids room_id db) found in
            let (present, own) = filter_by-In (λ s. s.room_id == room_id) db.seats k in
            record {
              named = (input, m, id ∙ ap some (sym (==→eq s.id j hit) ∙ sym same));
              target = s;
              present = present;
              same_id = sym same;
              in_room = ==→eq s.room_id room_id own;
            }
      ]

  layout_writes-AllAimed :
      (payload : RoomLayoutUpdate) (db : Db) (n : ℕ) (inputs : List RoomLayoutSeatInput)
      → ((input : RoomLayoutSeatInput) → In input inputs → In input payload.seats)
      → AllAimed
          (IsNamed payload)
          db.seats
          (layout_writes (room_seats seat_ids room_id db) n inputs)
  unfolding layout_writes
  layout_writes-AllAimed payload db n [] asked i values m = elim m [ ]
  layout_writes-AllAimed payload db n (input ∷ inputs) asked i values (here e) =
      layout_write-IsAimed payload db n input input.id (asked input (here refl)) refl e
  layout_writes-AllAimed payload db n (input ∷ inputs) asked i values (there m) =
      layout_writes-AllAimed payload db (suc n) inputs (λ x k. asked x (there k)) i values m

  pub set_full_room_booking-seats :
      (o : Option Bool) (db : Db) → (set_full_room_booking seat_ids room_id o db).seats ≡ db.seats
  set_full_room_booking-seats none db = refl
  set_full_room_booking-seats (some allow) db = refl

  pub update_room_layout-Laid :
      (letters : Letters) (flush : List LayoutWrite → List LayoutWrite) (payload : RoomLayoutUpdate)
      (db : Db) {shown : RoomFull} {db' : Db}
      → SendsOnly flush
      → IsUnique seat_clash db.seats
      → update_room_layout seat_ids room_id letters flush payload db ≡ ok (shown, db')
      → Laid room_id (IsNamed payload) db.seats db'.seats
  unfolding update_room_layout
  update_room_layout-Laid letters flush payload db {shown} {db'} sends u e =
      let (room, e1, e2) = >>=-eq-ok (find_room room_id db) _ e in
      let start = set_full_room_booking seat_ids room_id payload.allow_full_room_booking db in
      let ws = layout_writes (room_seats seat_ids room_id db) 0 payload.seats in
      let same = set_full_room_booking-seats payload.allow_full_room_booking db in
      let (committed, e3, e4) = >>=-eq-ok (send_writes seat_ids room_id (flush ws) start) _ e2 in
      let (answer, e5, e6) = >>=-eq-ok (get_room letters room_id committed) _ e4 in
      let laid =
        send_writes-Laid (flush ws) start (subst (IsUnique seat_clash) (sym same) u)
          (λ i values m.
            subst (λ xs. IsAimed room_id (IsNamed payload) xs i) (sym same)
              (layout_writes-AllAimed payload db 0 payload.seats (λ x k. k) i values
                (sends ws (change i values) m)))
          e3 in
      subst (λ (x : RoomFull × Db). Laid room_id (IsNamed payload) db.seats x.1.seats)
        (ok-injective e6)
        (subst (λ xs. Laid room_id (IsNamed payload) xs committed.seats) same laid)
