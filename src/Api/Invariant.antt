-- ===== src/Api/Invariant.antt =====
-- The invariant of the database: the bookings are safe and lead back to their places, every check-in
-- belongs to a booking that was admitted, and no transaction gives back more than it took.
use desmobapp_backend.Prelude.{
  ℕ, ◌≡◌, ◌≤◌, sym, ◌∙◌, subst, Bool, true, false, List, In, Forall₂, Forall₂-In, Forall₂-In_left,
  arith,
}
use desmobapp_backend.Db.{Db, Booking, BookingStatus, checked_in, Checkin, Transaction, refunded}
use desmobapp_backend.Booking.Spec.{
  StatusMove, stay, confirm, cancel, check_in, SamePlace, Settles, Moves, other, moved, is_fresh,
}
use desmobapp_backend.Booking.Spec.Safe.{Safe}
use desmobapp_backend.Booking.Homed.{IsHomed, SameSpace, SamePlace-IsHomed}
use desmobapp_backend.Payment.{max_integer}

-- The guest of the booking has been let in, though the booking may be cancelled since.
abbrev pub is_admitted : BookingStatus → Bool
is_admitted checked_in = true
is_admitted BookingStatus.cancelled = true
is_admitted _ = false

abbrev pub IsChecked : List Booking → Checkin → Type 0
IsChecked bs c = (b : Booking) × In b bs × (b.id ≡ c.booking_id) × (is_admitted b.status ≡ true)

-- The refunds of a transaction stay within its amount, use it up where it is marked as refunded, and
-- the amount fits its column.
pub record IsBalanced (t : Transaction) : Type 0 where
  pub within : t.refunded_cents ≤ t.amount_cents
  pub used_up : t.status ≡ refunded → t.refunded_cents ≡ t.amount_cents
  pub fits : t.amount_cents ≤ max_integer

pub record Inv (db : Db) : Type 0 where
  pub safe : Safe db.bookings
  pub homed : (b : Booking) → In b db.bookings → IsHomed db b
  pub checked : (c : Checkin) → In c db.checkins → IsChecked db.bookings c
  pub balanced : (t : Transaction) → In t db.transactions → IsBalanced t

-- What a change of rows has to keep.
abbrev pub Keeps : Booking → Booking → Type 0
Keeps x y = SamePlace x y × (is_admitted x.status ≡ true → is_admitted y.status ≡ true)

StatusMove-admitted :
    (s t : BookingStatus) → StatusMove s t → is_admitted s ≡ true → is_admitted t ≡ true
StatusMove-admitted s t (stay e) h = ground arith
StatusMove-admitted s t (confirm e f) h = ground arith
StatusMove-admitted s t (cancel e f) h = ground arith
StatusMove-admitted s t (check_in e f g) h = ground arith

pub Settles-Keeps : (x y : Booking) → Settles x y → Keeps x y
Settles-Keeps x y r = (r.place, StatusMove-admitted x.status y.status r.status_move)

fresh-not-admitted : (s : BookingStatus) → is_fresh s ≡ true → is_admitted s ≡ true → ⊥
fresh-not-admitted s h k = ground arith

pub SamePlace-refl : (x y : Booking) → y ≡ x → SamePlace x y
SamePlace-refl x y e = ground arith

pub Moves-Keeps : (i st en : ℕ) (x y : Booking) → Moves i st en x y → Keeps x y
Moves-Keeps i st en x y (other ne e) =
    (SamePlace-refl x y e, λ h. subst (λ (b : Booking). is_admitted b.status ≡ true) (sym e) h)
Moves-Keeps i st en x y (moved ei fx fy p s e) = (p, λ h. absurd (fresh-not-admitted x.status fx h))

module _ (db db' : Db) (R : Booking → Booking → Type 0)
    (keeps : (x y : Booking) → R x y → Keeps x y) (rows : Forall₂ R db.bookings db'.bookings) where
  pub rows-IsHomed :
      SameSpace db db'
      → ((b : Booking) → In b db.bookings → IsHomed db b)
      → (b : Booking) → In b db'.bookings
      → IsHomed db' b
  rows-IsHomed space h b m =
      let (x, i, r) = Forall₂-In R rows m in
      SamePlace-IsHomed db db' x b space (keeps x b r).0 (h x i)

  pub rows-IsChecked : (c : Checkin) → IsChecked db.bookings c → IsChecked db'.bookings c
  rows-IsChecked c (x, i, e, a) =
      let (y, j, r) = Forall₂-In_left R rows i in
      (y, j, (keeps x y r).0.same_id ∙ e, (keeps x y r).1 a)
