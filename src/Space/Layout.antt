-- ===== src/Space/Layout.antt =====
-- app/services/space.py, `update_room_layout`. The changes to the loaded seats and the new seats are
-- sent when the session is flushed; in which order, and that of two changes to one seat only the last
-- is sent, is up to the session, so `flush` is a parameter.
use desmobapp_backend.Prelude.{
  ℕ, suc, Bool, not, ◌&&◌, ◌||◌, Option, none, some, String, List, [], ◌∷◌, ◌++◌, Result, ok, any,
  find_first, filter_by, update_where, raise_if, ◌>>=◌, ◌>>◌, integrity_error, ◌==◌,
}
use desmobapp_backend.Db.{Db, Uuid, ℤ, Seat}
use desmobapp_backend.Access.Texts.{text_eq}
use desmobapp_backend.Space.Codes.{Letters}
use desmobapp_backend.Space.Views.{RoomFull, find_room, get_room}

-- app/schemas/space.py
pub record RoomLayoutSeatInput : Type 0 where
  pub id : Option Uuid
  pub label : String
  pub grid_x : ℤ
  pub grid_y : ℤ
  pub seat_type : Option String
  pub attributes : Option String
  pub active : Bool

pub record RoomLayoutUpdate : Type 0 where
  pub allow_full_room_booking : Option Bool
  pub seats : List RoomLayoutSeatInput

-- A write that waits for the flush: the new values of a seat that is loaded, or a new seat with
-- the number of its place in the request.
pub data LayoutWrite : Type 0 where
  change : Uuid → RoomLayoutSeatInput → LayoutWrite
  add : ℕ → RoomLayoutSeatInput → LayoutWrite

-- `seat_payload.id is not None and seat_payload.id in existing_seats`
abbrev pub layout_write : List Seat → ℕ → RoomLayoutSeatInput → Option Uuid → LayoutWrite
layout_write existing n input none = add n input
layout_write existing n input (some i) = elim (find_first (λ s. s.id == i) existing) [
  | none ↦ add n input
  | some s ↦ change s.id input
]

-- The loop over the seats of the request, from the place `n` on.
unfoldable pub layout_writes : List Seat → ℕ → List RoomLayoutSeatInput → List LayoutWrite
layout_writes existing n [] = []
layout_writes existing n (input ∷ inputs) =
    layout_write existing n input input.id ∷ layout_writes existing (suc n) inputs

abbrev pub changed_seat : RoomLayoutSeatInput → Seat → Seat
changed_seat input s = record s {
  label = input.label;
  grid_x = input.grid_x;
  grid_y = input.grid_y;
  seat_type = input.seat_type;
  attributes = input.attributes;
  active = input.active;
}

module _ (seat_ids : ℕ → Uuid) (room_id : Uuid) where
  abbrev pub new_seat : ℕ → RoomLayoutSeatInput → Seat
  new_seat n input = record {
    id = seat_ids n;
    room_id = room_id;
    label = input.label;
    grid_x = input.grid_x;
    grid_y = input.grid_y;
    seat_type = input.seat_type;
    attributes = input.attributes;
    active = input.active;
  }

  -- `uq_seats_room_label`
  abbrev pub has_label : String → Seat → Bool
  has_label label s = s.room_id == room_id && text_eq s.label label

  -- An UPDATE or an INSERT, with the unique constraints that it can meet.
  unfoldable pub send_write : LayoutWrite → Db → Result Db
  send_write (change i input) db = do
    raise_if (any (λ s. not (s.id == i) && has_label input.label s) db.seats) integrity_error
    ok (record db { seats = update_where (λ s. s.id == i) (changed_seat input) db.seats })
  send_write (add n input) db = do
    raise_if (any (λ s. s.id == seat_ids n || has_label input.label s) db.seats) integrity_error
    ok (record db { seats = db.seats ++ new_seat n input ∷ [] })

  unfoldable pub send_writes : List LayoutWrite → Db → Result Db
  unfolding send_write
  send_writes [] db = ok db
  send_writes (w ∷ ws) db = do sent ← send_write w db; send_writes ws sent

  -- `room.allow_full_room_booking = payload.allowFullRoomBooking`, where it is given.
  abbrev pub set_full_room_booking : Option Bool → Db → Db
  set_full_room_booking none db = db
  set_full_room_booking (some allow) db = record db {
    rooms =
        update_where (λ r. r.id == room_id) (λ r. record r { allow_full_room_booking = allow })
          db.rooms;
  }

  abbrev pub room_seats : Db → List Seat
  room_seats db = filter_by (λ s. s.room_id == room_id) db.seats

  -- `update_room_layout`, whose answer is built as that of `get_room`.
  unfoldable pub update_room_layout :
      Letters
      → (List LayoutWrite → List LayoutWrite)
      → RoomLayoutUpdate
      → Db
      → Result (RoomFull × Db)
  unfolding send_writes layout_writes
  update_room_layout letters flush payload db = do
    room ← find_room room_id db
    committed ←
        send_writes (flush (layout_writes (room_seats db) 0 payload.seats))
          (set_full_room_booking payload.allow_full_room_booking db)
    shown ← get_room letters room_id committed
    ok (shown, committed)
