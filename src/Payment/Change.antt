-- ===== src/Payment/Change.antt =====
-- app/services/payment.py, `capture_payment`.
use desmobapp_backend.Prelude.{
  ℕ, none, some, ◌⊎◌, Forall₂, ◌≡◌, refl, sym, ◌∙◌, ap, subst, true, not, ok, ◌>>=◌, >>=-eq-ok,
  ok-pair, ◌==◌, In, arith, inl, inr, Bool-cases, update_where, ==→eq, raise_if-eq-ok,
  or_raise-some, find_first, find_first-In, ◌&&◌, &&-true, not-not,
}
use desmobapp_backend.Db.{
  Db, Uuid, PaymentStatus, captured, authorized, refunded, Transaction, transaction_only,
}
use desmobapp_backend.Time.{Env}
use desmobapp_backend.Notification.{create_notification_record, create_notification_record-eq-ok}
use desmobapp_backend.Booking.Homed.{SameSpace}
use desmobapp_backend.Booking.Spec.{Confirms}
use desmobapp_backend.Payment.{
  capture_payment, confirm_booking, captured_row, find_transaction, is_settled, is_open,
  save_transaction, or_now,
}
use desmobapp_backend.Payment.Effect.{confirm_booking-Confirms}

pub find_transaction-eq-ok :
    (db : Db) (payment_id user_id : Uuid) {t : Transaction}
    → find_transaction db payment_id user_id ≡ ok t
    → In t db.transactions × (t.id ≡ payment_id) × (t.user_id ≡ user_id)
unfolding find_transaction
find_transaction-eq-ok db payment_id user_id {t} e =
    let (m, h) =
      find_first-In (λ x. x.id == payment_id && x.user_id == user_id) db.transactions
        (or_raise-some
          (find_first (λ x. x.id == payment_id && x.user_id == user_id) db.transactions) _ e) in
    let (i, u) = &&-true (t.id == payment_id) (t.user_id == user_id) h in
    (m, ==→eq t.id payment_id i, ==→eq t.user_id user_id u)

-- What neither a capture nor a refund changes in a payment.
pub record SamePayment (x y : Transaction) : Type 0 where
  pub same_id : y.id ≡ x.id
  pub same_booking : y.booking_id ≡ x.booking_id
  pub same_user : y.user_id ≡ x.user_id
  pub same_provider : y.provider ≡ x.provider
  pub same_external : y.external_id ≡ x.external_id
  pub same_amount : y.amount_cents ≡ x.amount_cents
  pub same_currency : y.currency ≡ x.currency
  pub same_created : y.created_at ≡ x.created_at

-- `y` is the payment `x`, captured at the time `now`.
pub record IsTaken (now : ℕ) (x y : Transaction) : Type 0 where
  pub payment : SamePayment x y
  pub is_captured : y.status ≡ captured
  pub captured_now : y.captured_at ≡ some now
  pub authorized_before : (a : ℕ) → x.authorized_at ≡ some a → y.authorized_at ≡ some a
  pub authorized_now : x.authorized_at ≡ none → y.authorized_at ≡ some now
  pub same_back : y.refunded_cents ≡ x.refunded_cents
  pub same_refunded : y.refunded_at ≡ x.refunded_at

captured_row-IsTaken : (env : Env) (t : Transaction) → IsTaken env.own_now t (captured_row env t)
unfolding captured_row
captured_row-IsTaken env t = record {
  payment = ground arith;
  is_captured = refl;
  captured_now = refl;
  authorized_before = λ a e. ap (λ o. some (or_now o env.own_now)) e;
  authorized_now = λ e. ap (λ o. some (or_now o env.own_now)) e;
  same_back = refl;
  same_refunded = refl;
}

-- A payment of the caller that is settled already is returned as it is; an open one is captured.
pub data Captured (env : Env) (payment_id user_id : Uuid) (db : Db) (t : Transaction) (db' : Db)
    : Type 0 where
  already :
      In t db.transactions
      → t.id ≡ payment_id
      → t.user_id ≡ user_id
      → (t.status ≡ captured) ⊎ (t.status ≡ refunded)
      → db' ≡ db
      → Captured env payment_id user_id db t db'
  taken :
      (before : Transaction)
      → In before db.transactions
      → before.id ≡ payment_id
      → before.user_id ≡ user_id
      → (before.status ≡ PaymentStatus.pending) ⊎ (before.status ≡ authorized)
      → IsTaken env.own_now before t
      → db'.transactions ≡ update_where (λ r. r.id == payment_id) (λ r. t) db.transactions
      → Forall₂ (Confirms t.booking_id) db.bookings db'.bookings
      → db'.checkins ≡ db.checkins
      → db'.holds ≡ db.holds
      → SameSpace db db'
      → Captured env payment_id user_id db t db'

pub settled-cases : (s : PaymentStatus) → is_settled s ≡ true → (s ≡ captured) ⊎ (s ≡ refunded)
settled-cases captured h = inl refl
settled-cases refunded h = inr refl
settled-cases PaymentStatus.pending h = cc
settled-cases authorized h = cc
settled-cases PaymentStatus.failed h = cc
settled-cases PaymentStatus.cancelled h = cc

open-cases : (s : PaymentStatus) → is_open s ≡ true → (s ≡ PaymentStatus.pending) ⊎ (s ≡ authorized)
open-cases PaymentStatus.pending h = inl refl
open-cases authorized h = inr refl
open-cases captured h = cc
open-cases refunded h = cc
open-cases PaymentStatus.failed h = cc
open-cases PaymentStatus.cancelled h = cc

capture_open-Captured :
    (env : Env) (payment_id user_id : Uuid) (db : Db) (before : Transaction) {t : Transaction}
    {db' : Db}
    → In before db.transactions × (before.id ≡ payment_id) × (before.user_id ≡ user_id)
    → is_open before.status ≡ true
    → ◌>>=◌ {S = Transaction × Db}
        (create_notification_record env user_id "payment_captured"
          (transaction_only (captured_row env before).id)
          (confirm_booking env
            (captured_row env before).booking_id
            (save_transaction (captured_row env before) db)))
        (λ notified. ok (captured_row env before, notified))
      ≡ ok (t, db')
    → Captured env payment_id user_id db t db'
unfolding confirm_booking captured_row
capture_open-Captured env payment_id user_id db before {t} {db'} (m, same_id, same_user) open_status
      e0 =
    let made : Transaction = captured_row env before in
    let (notified, noted, e1) =
      >>=-eq-ok
        (create_notification_record env user_id "payment_captured" (transaction_only made.id)
          (confirm_booking env made.booking_id (save_transaction made db)))
        _ e0 in
    let (row, last) = ok-pair e1 in
    let noted' =
      last
      ∙ create_notification_record-eq-ok env user_id "payment_captured" (transaction_only made.id)
          (confirm_booking env made.booking_id (save_transaction made db)) noted in
    subst (λ x. Captured env payment_id user_id db x db') (sym row)
      (taken before m same_id same_user (open-cases before.status open_status)
        (captured_row-IsTaken env before)
        (ap (λ (d : Db). d.transactions) noted'
          ∙ ap (λ i. update_where (λ r. r.id == i) (λ r. made) db.transactions) same_id)
        (confirm_booking-Confirms env made.booking_id db db' (ap (λ (d : Db). d.bookings) noted'))
        (ap (λ (d : Db). d.checkins) noted') (ap (λ (d : Db). d.holds) noted')
        (record {
          same_seats = ap (λ (d : Db). d.seats) noted';
          same_rooms = ap (λ (d : Db). d.rooms) noted';
          same_venues = ap (λ (d : Db). d.venues) noted';
        }))

-- A `capture_payment` that returns has found the payment of that identifier of the caller. Either it was
-- captured or refunded, and nothing changes; or it was pending or authorized: then it is captured now,
-- and authorized now if it was not before, and keeps its amount, its booking and all else but the
-- time of its last change; its booking is confirmed if it was pending, and every other booking stays,
-- as do holds, check-ins and places.
pub capture_payment-Captured :
    (env : Env) (payment_id user_id : Uuid) (db : Db) {t : Transaction} {db' : Db}
    → capture_payment env payment_id user_id db ≡ ok (t, db')
    → Captured env payment_id user_id db t db'
unfolding capture_payment
capture_payment-Captured env payment_id user_id db {t} {db'} e0 =
    let (before, found, e1) = >>=-eq-ok (find_transaction db payment_id user_id) _ e0 in
    let (m, same_id, same_user) = find_transaction-eq-ok db payment_id user_id found in
    elim (Bool-cases (is_settled before.status)) [
      | inl done ↦
          let (row, last) = ok-pair (rw done at e1) in
          subst (λ x. Captured env payment_id user_id db x db') (sym row)
            (already m same_id same_user (settled-cases before.status done) last)
      | inr not_done ↦
          let (open_status, e2) =
            raise_if-eq-ok (not (is_open before.status)) _ _ (rw not_done at e1) in
          capture_open-Captured env payment_id user_id db before (m, same_id, same_user)
            (not-not (is_open before.status) open_status) e2
    ]
