-- ===== src/Booking/Saved.antt =====
-- app/services/booking.py: a row that is found and written back, and the table around it.
use desmobapp_backend.Prelude.{
  ◌≡◌, ◌≢◌, sym, ◌∙◌, subst, true, List, ok, some, In, find_first, find_first-In, or_raise-some,
  Forall₂, Forall₂-update_where, update_where, eq_of_key, ==→eq, ==_refl, &&-true, true_and_false,
  ◌==◌,
}
use desmobapp_backend.Db.{Db, Uuid, Booking}
use desmobapp_backend.Booking.Query.{find_booking, own_booking}
use desmobapp_backend.Booking.Spec.Safe.{Safe}

-- The row belongs to the user who asks.
pub own_booking-In :
    (db : Db) (booking_id user_id : Uuid) {b : Booking}
    → find_first (own_booking booking_id user_id) db.bookings ≡ some b
    → In b db.bookings × (b.id ≡ booking_id) × (b.user_id ≡ user_id)
own_booking-In db booking_id user_id {b} e =
    let (m, t) = find_first-In (own_booking booking_id user_id) db.bookings e in
    let (i, u) = &&-true (b.id == booking_id) (b.user_id == user_id) t in
    (m, ==→eq b.id booking_id i, ==→eq b.user_id user_id u)

pub find_booking-eq-ok :
    (db : Db) (booking_id user_id : Uuid) {b : Booking}
    → find_booking db booking_id user_id ≡ ok b
    → In b db.bookings × (b.id ≡ booking_id) × (b.user_id ≡ user_id)
unfolding find_booking
find_booking-eq-ok db booking_id user_id e =
    own_booking-In db booking_id user_id
      (or_raise-some (find_first (own_booking booking_id user_id) db.bookings) _ e)

-- Saving a row over its own identifier relates every row to what it becomes.
pub save-rows :
    (bs : List Booking) (s : Safe bs) (b : Booking) (m : In b bs) (R : Booking → Booking → Type 0)
    (b' : Booking)
    → b'.id ≡ b.id
    → R b b'
    → ((x : Booking) → In x bs → x.id ≢ b.id → R x x)
    → Forall₂ R bs (update_where (λ r. r.id == b'.id) (λ r. b') bs)
save-rows bs s b m R b' same r rest =
    Forall₂-update_where R (λ r. r.id == b'.id) (λ r. b') bs
      (λ x i t.
        subst (λ y. R y b')
          (eq_of_key (λ (r : Booking). r.id) bs s.keys m i (sym same ∙ sym (==→eq x.id b'.id t))) r)
      (λ x i t.
        rest x i
          (λ e. true_and_false (subst (λ k. (x.id == k) ≡ true) (e ∙ sym same) (==_refl x.id)) t))
