-- ===== src/Payment/Effect.antt =====
-- app/services/payment.py, `create_payment`, and the bookings that it confirms.
use desmobapp_backend.Prelude.{
  ◌≡◌, ◌≢◌, ◌≤◌, refl, any, ◌||◌, none, In, &&-true, ==→eq, Forall₂-weaken, sym, ◌∙◌, ap, subst,
  false, some, List, [], ◌∷◌, ◌++◌, ok, >>=-eq-ok, ok-pair, ◌==◌, arith, Forall₂,
  Forall₂-update_where, update_where, raise_if-eq-ok, or_raise-eq-ok, find_first, ◌&&◌, ltb, ltb→le,
}
use desmobapp_backend.Db.{
  Db, Uuid, Booking, BookingStatus, confirmed, captured, status_eq, insert_transaction,
  insert_transaction-eq-ok, Transaction, booking_transaction,
}
use desmobapp_backend.Time.{Env}
use desmobapp_backend.Notification.{create_notification_record, create_notification_record-eq-ok}
use desmobapp_backend.Booking.{own_booking}
use desmobapp_backend.Booking.Homed.{SameSpace}
use desmobapp_backend.Booking.Saved.{own_booking-In}
use desmobapp_backend.Booking.Spec.{Settles, Confirms, stays, turns}
use desmobapp_backend.Booking.Settled.{Settled, not_status, status_eq→eq, Confirms-Settles}
use desmobapp_backend.Payment.{
  PaymentCreateRequest, create_payment, confirm_booking, transaction_row, max_integer,
}

-- The confirmation of a booking that is pending, and nothing else.
confirm_booking-rows :
    (env : Env) (booking_id : Uuid) (bs : List Booking)
    → Forall₂ (Confirms booking_id) bs (
        update_where
          (λ b. b.id == booking_id && status_eq b.status BookingStatus.pending)
          (λ b. record b { status = confirmed; updated_at = env.db_now })
          bs)
confirm_booking-rows env booking_id bs =
    Forall₂-update_where (Confirms booking_id)
      (λ b. b.id == booking_id && status_eq b.status BookingStatus.pending)
      (λ b. record b { status = confirmed; updated_at = env.db_now }) bs
      (λ x m t.
        let (i, p) = &&-true (x.id == booking_id) (status_eq x.status BookingStatus.pending) t in
        turns (==→eq x.id booking_id i) (status_eq→eq x.status BookingStatus.pending p) refl
          (ground arith) refl refl refl)
      (λ x m t. stays (λ e p. ground arith) refl)

pub confirm_booking-Confirms :
    (env : Env) (booking_id : Uuid) (db db' : Db)
    → db'.bookings ≡ (confirm_booking env booking_id db).bookings
    → Forall₂ (Confirms booking_id) db.bookings db'.bookings
unfolding confirm_booking
confirm_booking-Confirms env booking_id db db' e =
    subst (Forall₂ (Confirms booking_id) db.bookings) (sym e)
      (confirm_booking-rows env booking_id db.bookings)

pub Confirms-Settled :
    (booking_id : Uuid) (db db' : Db)
    → Forall₂ (Confirms booking_id) db.bookings db'.bookings
    → SameSpace db db'
    → Settled db db'
Confirms-Settled booking_id db db' rows space = record {
  rows = Forall₂-weaken (Confirms booking_id) Settles (Confirms-Settles booking_id) rows;
  space = space;
}

-- A payment that is made: captured at once and in full.
pub record IsMade (env : Env) (user_id : Uuid) (payload : PaymentCreateRequest) (t : Transaction)
    : Type 0 where
  pub same_booking : t.booking_id ≡ payload.booking_id
  pub same_user : t.user_id ≡ user_id
  pub is_captured : t.status ≡ captured
  pub same_amount : t.amount_cents ≡ payload.amount_cents
  pub none_back : t.refunded_cents ≡ 0
  pub authorized_now : t.authorized_at ≡ some env.own_now
  pub captured_now : t.captured_at ≡ some env.own_now
  pub not_refunded : t.refunded_at ≡ none

transaction_row-IsMade :
    (env : Env) (user_id : Uuid) (payload : PaymentCreateRequest) (b : Booking)
    → b.id ≡ payload.booking_id
    → IsMade env user_id payload (transaction_row env user_id payload b)
unfolding transaction_row
transaction_row-IsMade env user_id payload b e = record {
  same_booking = e;
  same_user = refl;
  is_captured = refl;
  same_amount = refl;
  none_back = refl;
  authorized_now = refl;
  captured_now = refl;
  not_refunded = refl;
}

-- What `create_payment` does: a captured transaction is added, a pending booking confirmed.
pub record Paid (env : Env) (user_id : Uuid) (payload : PaymentCreateRequest) (db : Db)
    (t : Transaction) (db' : Db) : Type 0 where
  pub booking : Booking
  pub present : In booking db.bookings
  pub named : booking.id ≡ payload.booking_id
  pub own : booking.user_id ≡ user_id
  pub payable : booking.status ≢ BookingStatus.cancelled
  pub made : IsMade env user_id payload t
  pub fits : t.amount_cents ≤ max_integer
  pub unused : any (λ r. r.id == t.id || r.external_id == t.external_id) db.transactions ≡ false
  pub transactions_after : db'.transactions ≡ db.transactions ++ t ∷ []
  pub rows : Forall₂ (Confirms payload.booking_id) db.bookings db'.bookings
  pub checkins_after : db'.checkins ≡ db.checkins
  pub same_holds : db'.holds ≡ db.holds
  pub space : SameSpace db db'

-- A `create_payment` that returns adds one transaction with unused identifiers for a booking of the
-- caller that is not cancelled: captured now, of the amount asked for, which the column holds, with
-- nothing given back. The booking is confirmed if it was pending and keeps all else but the time of its
-- last change; every other booking stays, and so do holds, check-ins and places.
pub create_payment-Paid :
    (env : Env) (user_id : Uuid) (payload : PaymentCreateRequest) (db : Db) {t : Transaction}
    {db' : Db}
    → create_payment env user_id payload db ≡ ok (t, db')
    → Paid env user_id payload db t db'
unfolding create_payment confirm_booking transaction_row
create_payment-Paid env user_id payload db {t} {db'} e0 =
    let (b, found, e1) =
      or_raise-eq-ok (find_first (own_booking payload.booking_id user_id) db.bookings) _ _ e0 in
    let (payable, e2) = raise_if-eq-ok (status_eq b.status BookingStatus.cancelled) _ _ e1 in
    let made : Transaction = transaction_row env user_id payload b in
    let (fits, e3) = raise_if-eq-ok (ltb max_integer made.amount_cents) _ _ e2 in
    let (added, inserted, e4) = >>=-eq-ok (insert_transaction made db) _ e3 in
    let (unused, after) = insert_transaction-eq-ok made db inserted in
    let (notified, noted, e5) =
      >>=-eq-ok
        (create_notification_record env user_id "payment_captured"
          (booking_transaction b.id made.id) (confirm_booking env b.id added))
        _ e4 in
    let (row, last) = ok-pair e5 in
    let noted' =
      last
      ∙ create_notification_record-eq-ok env user_id "payment_captured"
          (booking_transaction b.id made.id) (confirm_booking env b.id added) noted in
    let bookings' =
      ap (λ (d : Db). d.bookings) noted'
      ∙ ap (λ (d : Db). (confirm_booking env b.id d).bookings) after in
    let (present, named, own) = own_booking-In db payload.booking_id user_id found in
    subst (λ x. Paid env user_id payload db x db') (sym row)
      (record {
        booking = b;
        present = present;
        named = named;
        own = own;
        payable = not_status b.status BookingStatus.cancelled payable;
        made = transaction_row-IsMade env user_id payload b named;
        fits = ltb→le max_integer payload.amount_cents fits;
        unused = unused;
        transactions_after =
            ap (λ (d : Db). d.transactions) noted' ∙ ap (λ (d : Db). d.transactions) after;
        rows =
            subst (λ i. Forall₂ (Confirms i) db.bookings db'.bookings) named
              (confirm_booking-Confirms env b.id db db' bookings');
        checkins_after = ap (λ (d : Db). d.checkins) noted' ∙ ap (λ (d : Db). d.checkins) after;
        same_holds = ap (λ (d : Db). d.holds) noted' ∙ ap (λ (d : Db). d.holds) after;
        space = record {
          same_seats = ap (λ (d : Db). d.seats) noted' ∙ ap (λ (d : Db). d.seats) after;
          same_rooms = ap (λ (d : Db). d.rooms) noted' ∙ ap (λ (d : Db). d.rooms) after;
          same_venues = ap (λ (d : Db). d.venues) noted' ∙ ap (λ (d : Db). d.venues) after;
        };
      })
