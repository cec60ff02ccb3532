-- ===== src/Booking/Cancelled.antt =====
-- app/services/booking.py, `cancel_booking`: what it does to the table of bookings.
use desmobapp_backend.Prelude.{
  ◌≡◌, ◌≢◌, refl, some, Forall₂-weaken, sym, ap, subst, ok, >>=-eq-ok, ok-injective, In, arith, inl,
  inr, Bool-cases, Forall₂,
}
use desmobapp_backend.Db.{Db, Uuid, Booking, BookingStatus, status_eq, booking_only}
use desmobapp_backend.Time.{Env}
use desmobapp_backend.Notification.{create_notification_record, create_notification_record-eq-ok}
use desmobapp_backend.Booking.Query.{find_booking}
use desmobapp_backend.Booking.Change.{cancel_booking, cancelled_row, save_booking}
use desmobapp_backend.Booking.Homed.{SameSpace, SameLedgers}
use desmobapp_backend.Booking.Saved.{find_booking-eq-ok}
use desmobapp_backend.Booking.Spec.{Settles, turns, Cancels}
use desmobapp_backend.Booking.Spec.Safe.{Safe}
use desmobapp_backend.Booking.Settled.{
  Settled, not_status, status_eq→eq, Turns-save, Turns-unready, Cancels-Settles,
}

cancelled_row-id : (env : Env) (b : Booking) → (cancelled_row env b).id ≡ b.id
unfolding cancelled_row
cancelled_row-id env b = refl

cancelled_row-Cancels :
    (env : Env) (b : Booking)
    → b.status ≢ BookingStatus.cancelled
    → Cancels env.own_now b.id b (cancelled_row env b)
unfolding cancelled_row
cancelled_row-Cancels env b ne = turns refl ne refl (ground arith) refl refl refl

-- What a `cancel_booking` that returns does.
pub record Cancelled (env : Env) (booking_id user_id : Uuid) (db db' : Db) : Type 0 where
  pub booking : Booking
  pub present : In booking db.bookings
  pub named : booking.id ≡ booking_id
  pub own : booking.user_id ≡ user_id
  pub rows : Forall₂ (Cancels env.own_now booking_id) db.bookings db'.bookings
  pub same_holds : db'.holds ≡ db.holds
  pub space : SameSpace db db'
  pub ledgers : SameLedgers db db'

cancel_found-Cancelled :
    (env : Env) (booking_id user_id : Uuid) (b : Booking) (db : Db) {db' : Db}
    → Safe db.bookings
    → In b db.bookings × (b.id ≡ booking_id) × (b.user_id ≡ user_id)
    → b.status ≢ BookingStatus.cancelled
    → create_notification_record env user_id "booking_cancelled"
        (booking_only b.id)
        (save_booking (cancelled_row env b) db)
      ≡ ok db'
    → Cancelled env booking_id user_id db db'
cancel_found-Cancelled env booking_id user_id b db {db'} s (m, same_id, same_user) ne e =
    let noted =
      create_notification_record-eq-ok env user_id "booking_cancelled" (booking_only b.id)
        (save_booking (cancelled_row env b) db) e in
    record {
      booking = b;
      present = m;
      named = same_id;
      own = same_user;
      rows =
          subst (λ i. Forall₂ (Cancels env.own_now i) db.bookings db'.bookings) same_id
            (subst (Forall₂ (Cancels env.own_now b.id) db.bookings)
              (sym (ap (λ (d : Db). d.bookings) noted))
              (Turns-save db.bookings (λ t. t ≢ BookingStatus.cancelled) BookingStatus.cancelled
                (λ o. some env.own_now) b (cancelled_row env b) s m (cancelled_row-id env b)
                (cancelled_row-Cancels env b ne)));
      same_holds = ap (λ (d : Db). d.holds) noted;
      space = record {
        same_seats = ap (λ (d : Db). d.seats) noted;
        same_rooms = ap (λ (d : Db). d.rooms) noted;
        same_venues = ap (λ (d : Db). d.venues) noted;
      };
      ledgers = record {
        same_checkins = ap (λ (d : Db). d.checkins) noted;
        same_transactions = ap (λ (d : Db). d.transactions) noted;
      };
    }

-- Where the rows are safe, a `cancel_booking` that returns has found a booking of the caller. If that
-- was not cancelled, it is cancelled now, at the time of the request, and keeps all else but the time
-- of its last change; every other booking stays, and so do holds, places, check-ins and transactions.
pub cancel_booking-Cancelled :
    (env : Env) (booking_id user_id : Uuid) (db : Db) {db' : Db}
    → Safe db.bookings
    → cancel_booking env booking_id user_id db ≡ ok db'
    → Cancelled env booking_id user_id db db'
unfolding cancel_booking
cancel_booking-Cancelled env booking_id user_id db {db'} s e0 =
    let (b, found, e1) = >>=-eq-ok (find_booking db booking_id user_id) _ e0 in
    let (m, same_id, same_user) = find_booking-eq-ok db booking_id user_id found in
    elim (Bool-cases (status_eq b.status BookingStatus.cancelled)) [
      | inl t ↦
          subst (λ d. Cancelled env booking_id user_id db d) (ok-injective (rw t at e1))
            (record {
              booking = b;
              present = m;
              named = same_id;
              own = same_user;
              rows =
                  subst (λ i. Forall₂ (Cancels env.own_now i) db.bookings db.bookings) same_id
                    (Turns-unready db.bookings (λ t. t ≢ BookingStatus.cancelled)
                      BookingStatus.cancelled (λ o. some env.own_now) b s m
                      (λ ne. ne (status_eq→eq b.status BookingStatus.cancelled t)));
              same_holds = refl;
              space = record { same_seats = refl; same_rooms = refl; same_venues = refl };
              ledgers = record { same_checkins = refl; same_transactions = refl };
            })
      | inr f ↦
          cancel_found-Cancelled env booking_id user_id b db s (m, same_id, same_user)
            (not_status b.status BookingStatus.cancelled f) (rw f at e1)
    ]

-- A cancellation is a change of status as the specification allows it.
pub Cancelled-Settled :
    {env : Env} {booking_id user_id : Uuid} {db db' : Db}
    → Cancelled env booking_id user_id db db'
    → Settled db db'
Cancelled-Settled {env} {booking_id} p = record {
  rows =
      Forall₂-weaken (Cancels env.own_now booking_id) Settles
        (Cancels-Settles env.own_now booking_id) p.rows;
  space = p.space;
}
