-- ===== src/Booking/Spec.antt =====
-- What may happen to the table of bookings, told without the code of app/services/booking.py,
-- payment.py and checkin.py: a booking is added to a free interval, one booking moves to a free
-- interval, or rows change their status and keep their window and place.
pub mod Safe
use desmobapp_backend.Prelude.{
  ℕ, ◌<◌, ◌≡◌, ◌≢◌, ◌⊎◌, Bool, true, false, Option, some, List, [], ◌∷◌, ◌++◌, map, Forall₂, In,
  any, ◌==◌,
}
use desmobapp_backend.Db.{
  Uuid, BookingStatus, confirmed, checked_in, no_show, completed, BookingLevel, Booking,
}
use desmobapp_backend.Availability.{is_blocking, overlaps}

-- `a` and `b`, if both block and are in one venue, have no instant in common.
abbrev pub Clear : Booking → Booking → Type 0
Clear a b =
    is_blocking a.status ≡ true
    → is_blocking b.status ≡ true
    → a.venue_id ≡ b.venue_id
    → overlaps a.start_time a.end_time b.start_time b.end_time ≡ false

-- A booking starts its life, and goes on after a move, as pending or confirmed.
abbrev pub is_fresh : BookingStatus → Bool
is_fresh BookingStatus.pending = true
is_fresh confirmed = true
is_fresh _ = false

-- The changes of status.
pub data StatusMove (s t : BookingStatus) : Type 0 where
  stay : t ≡ s → StatusMove s t
  confirm : s ≡ BookingStatus.pending → t ≡ confirmed → StatusMove s t
  cancel : s ≢ BookingStatus.cancelled → t ≡ BookingStatus.cancelled → StatusMove s t
  check_in : s ≢ BookingStatus.cancelled → s ≢ checked_in → t ≡ checked_in → StatusMove s t

-- What no operation changes in a row.
pub record SamePlace (x y : Booking) : Type 0 where
  pub same_id : y.id ≡ x.id
  pub same_user : y.user_id ≡ x.user_id
  pub same_level : y.level ≡ x.level
  pub same_venue : y.venue_id ≡ x.venue_id
  pub same_room : y.room_id ≡ x.room_id
  pub same_seat : y.seat_id ≡ x.seat_id
  pub same_hold : y.hold_id ≡ x.hold_id
  pub same_price : y.price_amount_cents ≡ x.price_amount_cents
  pub same_currency : y.price_currency ≡ x.price_currency
  pub same_created : y.created_at ≡ x.created_at

pub record Settles (x y : Booking) : Type 0 where
  pub place : SamePlace x y
  pub same_start : y.start_time ≡ x.start_time
  pub same_end : y.end_time ≡ x.end_time
  pub status_move : StatusMove x.status y.status

-- The row `i`, if its status is `Ready`, takes the status `t` and the stamp of its cancellation, and
-- keeps its window and all that no operation changes; every other row stays.
pub data Turns (i : Uuid) (Ready : BookingStatus → Type 0) (t : BookingStatus)
    (stamp : Option ℕ → Option ℕ) (x y : Booking) : Type 0 where
  stays : ((x.id ≡ i) → Ready x.status → ⊥) → y ≡ x → Turns i Ready t stamp x y
  turns :
      x.id ≡ i
      → Ready x.status
      → y.status ≡ t
      → SamePlace x y
      → y.start_time ≡ x.start_time
      → y.end_time ≡ x.end_time
      → y.cancelled_at ≡ stamp x.cancelled_at
      → Turns i Ready t stamp x y

-- A booking that is pending is confirmed.
abbrev pub Confirms : Uuid → Booking → Booking → Type 0
Confirms i = Turns i (λ s. s ≡ BookingStatus.pending) confirmed (λ o. o)

-- A booking that is not cancelled is cancelled, at the time `now`.
abbrev pub Cancels : ℕ → Uuid → Booking → Booking → Type 0
Cancels now i = Turns i (λ s. s ≢ BookingStatus.cancelled) BookingStatus.cancelled (λ o. some now)

-- A booking that is neither cancelled nor checked in is checked in.
abbrev pub Admits : Uuid → Booking → Booking → Type 0
Admits i = Turns i (λ s. (s ≢ BookingStatus.cancelled) × (s ≢ checked_in)) checked_in (λ o. o)

-- The row `i` moves to an interval, every other row stays.
pub data Moves (i start_time end_time : ℕ) (x y : Booking) : Type 0 where
  other : x.id ≢ i → y ≡ x → Moves i start_time end_time x y
  moved :
      x.id ≡ i
      → is_fresh x.status ≡ true
      → is_fresh y.status ≡ true
      → SamePlace x y
      → y.start_time ≡ start_time
      → y.end_time ≡ end_time
      → Moves i start_time end_time x y

-- The interval is free in the venue of `v`, but for the booking `i`.
abbrev pub IsFree : ℕ → ℕ → ℕ → Option Uuid → List Booking → Type 0
IsFree i start_time end_time v bs =
    (b : Booking)
    → In b bs
    → b.id ≢ i
    → is_blocking b.status ≡ true
    → b.venue_id ≡ v
    → overlaps start_time end_time b.start_time b.end_time ≡ false

pub data Step (bs bs' : List Booking) : Type 0 where
  add :
      (b : Booking)
      → bs' ≡ bs ++ b ∷ []
      → any (λ r. r.id == b.id) bs ≡ false
      → is_fresh b.status ≡ true
      → b.start_time < b.end_time
      → IsFree b.id b.start_time b.end_time b.venue_id bs
      → Step bs bs'
  move :
      (i start_time end_time : ℕ) (x : Booking)
      → In x bs
      → x.id ≡ i
      → start_time < end_time
      → IsFree i start_time end_time x.venue_id bs
      → Forall₂ (Moves i start_time end_time) bs bs'
      → Step bs bs'
  settle : Forall₂ Settles bs bs' → Step bs bs'
