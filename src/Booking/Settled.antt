-- ===== src/Booking/Settled.antt =====
-- The operations that change the status of a booking: `cancel_booking`, the payments of
-- app/services/payment.py and the check-in of app/services/checkin.py, on the table of bookings.
use desmobapp_backend.Prelude.{
  ℕ, ◌≡◌, ◌≢◌, refl, true, List, Option, some, Forall₂-self, eq_of_key, sym, subst, false, ◌==◌, In,
  arith, Forall₂, Forall₂-same, update_where,
}
use desmobapp_backend.Db.{Db, Uuid, Booking, BookingStatus, confirmed, checked_in, status_eq}
use desmobapp_backend.Booking.Homed.{SameSpace}
use desmobapp_backend.Booking.Saved.{save-rows}
use desmobapp_backend.Booking.Spec.{
  Settles, StatusMove, stay, confirm, cancel, check_in, Turns, stays, turns, Confirms, Cancels,
  Admits,
}
use desmobapp_backend.Booking.Spec.Safe.{Safe}

pub Settles-refl : (x : Booking) → Settles x x
Settles-refl x = record {
  place = ground arith;
  same_start = refl;
  same_end = refl;
  status_move = stay refl;
}

pub not_status : (t u : BookingStatus) → status_eq t u ≡ false → t ≢ u
not_status t u h e = ground arith

pub status_eq→eq : (t u : BookingStatus) → status_eq t u ≡ true → t ≡ u
status_eq→eq t u h = ground arith

-- Rows change their status and keep their window and place, over the same places.
pub record Settled (db db' : Db) : Type 0 where
  pub rows : Forall₂ Settles db.bookings db'.bookings
  pub space : SameSpace db db'

pub Settled-refl : (db : Db) → Settled db db
Settled-refl db = record {
  rows = Forall₂-same Settles Settles-refl db.bookings;
  space = record { same_seats = refl; same_rooms = refl; same_venues = refl };
}

-- A row that turns settles, if the turn is one of the specification's.
Turns-Settles :
    (i : Uuid) (Ready : BookingStatus → Type 0) (t : BookingStatus) (stamp : Option ℕ → Option ℕ)
    → ((s u : BookingStatus) → Ready s → u ≡ t → StatusMove s u)
    → (x y : Booking) → Turns i Ready t stamp x y
    → Settles x y
Turns-Settles i Ready t stamp k x y (stays u e) = subst (Settles x) (sym e) (Settles-refl x)
Turns-Settles i Ready t stamp k x y (turns e r s p st en c) = record {
  place = p;
  same_start = st;
  same_end = en;
  status_move = k x.status y.status r s;
}

pub Cancels-Settles : (now : ℕ) (i : Uuid) (x y : Booking) → Cancels now i x y → Settles x y
Cancels-Settles now i =
    Turns-Settles i (λ s. s ≢ BookingStatus.cancelled) BookingStatus.cancelled (λ o. some now)
      (λ s u r e. cancel r e)

pub Confirms-Settles : (i : Uuid) (x y : Booking) → Confirms i x y → Settles x y
Confirms-Settles i =
    Turns-Settles i (λ s. s ≡ BookingStatus.pending) confirmed (λ o. o) (λ s u r e. confirm r e)

pub Admits-Settles : (i : Uuid) (x y : Booking) → Admits i x y → Settles x y
Admits-Settles i =
    Turns-Settles i (λ s. (s ≢ BookingStatus.cancelled) × (s ≢ checked_in)) checked_in (λ o. o)
      (λ s u r e. check_in r.0 r.1 e)

-- The same bookings, over the same places.
pub same_rows-Settled :
    (db db' : Db) → db'.bookings ≡ db.bookings → SameSpace db db' → Settled db db'
same_rows-Settled db db' e space = record {
  rows = subst (Forall₂ Settles db.bookings) (sym e) (Settled-refl db).rows;
  space = space;
}

-- The table with the row of a booking in its last state.
pub Turns-save :
    (bs : List Booking) (Ready : BookingStatus → Type 0) (t : BookingStatus)
    (stamp : Option ℕ → Option ℕ) (b b' : Booking)
    → Safe bs
    → In b bs
    → b'.id ≡ b.id
    → Turns b.id Ready t stamp b b'
    → Forall₂ (Turns b.id Ready t stamp) bs (update_where (λ r. r.id == b'.id) (λ r. b') bs)
Turns-save bs Ready t stamp b b' s m same r =
    save-rows bs s b m (Turns b.id Ready t stamp) b' same r
      (λ x i ne. stays (λ e. absurd (ne e)) refl)

-- A row that is not ready stays, with all others.
pub Turns-unready :
    (bs : List Booking) (Ready : BookingStatus → Type 0) (t : BookingStatus)
    (stamp : Option ℕ → Option ℕ) (b : Booking)
    → Safe bs
    → In b bs
    → (Ready b.status → ⊥)
    → Forall₂ (Turns b.id Ready t stamp) bs bs
Turns-unready bs Ready t stamp b s m unready = Forall₂-self (Turns b.id Ready t stamp) bs (λ x i.
    stays
      (λ e ready. unready (
        subst (λ (y : Booking). Ready y.status) (eq_of_key (λ (r : Booking). r.id) bs s.keys i m e)
          ready))
      refl)
