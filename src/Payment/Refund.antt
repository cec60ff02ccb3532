-- ===== src/Payment/Refund.antt =====
-- app/services/payment.py, `refund_payment`.
use desmobapp_backend.Prelude.{
  ||-false, ℕ, Option, none, some, ◌⊎◌, ◌≢◌, ◌≡◌, ◌≤◌, ◌<◌, refl, sym, ◌∙◌, ap, subst, not, ok,
  >>=-eq-ok, ok-pair, ◌==◌, In, arith, inl, inr, Bool-cases, update_where, ==→eq, raise_if-eq-ok,
  ◌||◌, ltb, leb, not-not, ltb→le, ◌+◌, ◌-◌, leb→lt,
}
use desmobapp_backend.Db.{Db, Uuid, captured, refunded, Transaction, transaction_amount}
use desmobapp_backend.Time.{Env}
use desmobapp_backend.Notification.{create_notification_record, create_notification_record-eq-ok}
use desmobapp_backend.Booking.Homed.{SameSpace}
use desmobapp_backend.Payment.{
  PaymentRefundRequest, refund_payment, refunded_row, find_transaction, is_settled,
  save_transaction, refund_amount,
}
use desmobapp_backend.Payment.Change.{find_transaction-eq-ok, SamePayment, settled-cases}

-- `y` is the payment `x`, with the amount given back at the time `now`.
pub record IsGivenBack (now amount : ℕ) (x y : Transaction) : Type 0 where
  pub payment : SamePayment x y
  pub sum : y.refunded_cents ≡ x.refunded_cents + amount
  pub in_full : x.refunded_cents + amount ≡ x.amount_cents → y.status ≡ refunded
  pub in_part : x.refunded_cents + amount ≢ x.amount_cents → y.status ≡ x.status
  pub refunded_now : y.refunded_at ≡ some now
  pub same_authorized : y.authorized_at ≡ x.authorized_at
  pub same_captured : y.captured_at ≡ x.captured_at

refunded_row-IsGivenBack :
    (env : Env) (amount : ℕ) (t : Transaction)
    → IsGivenBack env.own_now amount t (refunded_row env amount t)
unfolding refunded_row
refunded_row-IsGivenBack env amount t = record {
  payment = ground arith;
  sum = refl;
  in_full = λ e. ground arith;
  in_part = λ ne. ground arith;
  refunded_now = refl;
  same_authorized = refl;
  same_captured = refl;
}

-- The amount that a request asks for: 0 is taken for none, and that for all that remains.
pub data AskedFor (remaining amount : ℕ) : Option ℕ → Type 0 where
  all_left : amount ≡ remaining → AskedFor remaining amount none
  zero_given : amount ≡ remaining → AskedFor remaining amount (some 0)
  some_given : {n : ℕ} → n ≢ 0 → amount ≡ n → AskedFor remaining amount (some n)

refund_amount-AskedFor :
    (o : Option ℕ) (remaining : ℕ) → AskedFor remaining (refund_amount o remaining) o
refund_amount-AskedFor none remaining = all_left refl
refund_amount-AskedFor (some n) remaining = elim (Bool-cases (n == 0)) [
  | inl t ↦
      subst (λ k. AskedFor remaining (refund_amount (some k) remaining) (some k))
        (sym (==→eq n 0 t)) (zero_given refl)
  | inr f ↦ some_given (λ e. ground arith) (rw f refl)
]

-- The checks of a refund that returns, and what it does.
pub record Refunded (env : Env) (payment_id user_id : Uuid) (payload : PaymentRefundRequest)
    (db : Db) (t : Transaction) (db' : Db) : Type 0 where
  pub before : Transaction
  pub present : In before db.transactions
  pub named : before.id ≡ payment_id
  pub own : before.user_id ≡ user_id
  pub refundable : (before.status ≡ captured) ⊎ (before.status ≡ refunded)
  pub amount : ℕ
  pub asked : AskedFor (before.amount_cents - before.refunded_cents) amount payload.amount_cents
  pub positive : 0 < amount
  pub given_back : IsGivenBack env.own_now amount before t
  pub within : t.refunded_cents ≤ t.amount_cents
  pub transactions_after :
      db'.transactions ≡ update_where (λ r. r.id == payment_id) (λ r. t) db.transactions
  pub bookings_after : db'.bookings ≡ db.bookings
  pub checkins_after : db'.checkins ≡ db.checkins
  pub same_holds : db'.holds ≡ db.holds
  pub space : SameSpace db db'

-- A `refund_payment` that returns has found the payment of that identifier of the caller, captured or
-- refunded, and gives back a positive amount, the one asked for or all that remains: what was given
-- back grows by it and is never more than was paid, the payment is refunded once that is all of it and
-- keeps its status before, and nothing else of it changes but the times of the refund and of its last
-- change. Other payments, bookings, holds, check-ins and places stay as they were.
pub refund_payment-Refunded :
    (env : Env) (payment_id user_id : Uuid) (payload : PaymentRefundRequest) (db : Db)
    {t : Transaction} {db' : Db}
    → refund_payment env payment_id user_id payload db ≡ ok (t, db')
    → Refunded env payment_id user_id payload db t db'
unfolding refund_payment refunded_row
refund_payment-Refunded env payment_id user_id payload db {t} {db'} e0 =
    let (before, found, e1) = >>=-eq-ok (find_transaction db payment_id user_id) _ e0 in
    let (m, same_id, same_user) = find_transaction-eq-ok db payment_id user_id found in
    let (refundable, e2) = raise_if-eq-ok (not (is_settled before.status)) _ _ e1 in
    let remaining : ℕ = before.amount_cents - before.refunded_cents in
    let amount : ℕ = refund_amount payload.amount_cents remaining in
    let (valid, e3) = raise_if-eq-ok (leb amount 0 || ltb remaining amount) _ _ e2 in
    let (not_zero, not_more) = ||-false (leb amount 0) (ltb remaining amount) valid in
    let made : Transaction = refunded_row env amount before in
    let (notified, noted, e4) =
      >>=-eq-ok
        (create_notification_record env user_id "payment_refunded"
          (transaction_amount made.id amount) (save_transaction made db))
        _ e3 in
    let (row, last) = ok-pair e4 in
    let positive : 0 < amount = leb→lt amount 0 not_zero in
    let fits : amount ≤ remaining = ltb→le remaining amount not_more in
    let all_after =
      last
      ∙ create_notification_record-eq-ok env user_id "payment_refunded"
          (transaction_amount made.id amount) (save_transaction made db) noted in
    subst (λ x. Refunded env payment_id user_id payload db x db') (sym row)
      (subst (Refunded env payment_id user_id payload db made) (sym all_after) (record {
        before = before;
        present = m;
        named = same_id;
        own = same_user;
        refundable = settled-cases before.status (not-not (is_settled before.status) refundable);
        amount = amount;
        asked = refund_amount-AskedFor payload.amount_cents remaining;
        positive = positive;
        given_back = refunded_row-IsGivenBack env amount before;
        within = omega arith;
        transactions_after =
            ap (λ i. update_where (λ r. r.id == i) (λ r. made) db.transactions) same_id;
        bookings_after = refl;
        checkins_after = refl;
        same_holds = refl;
        space = record { same_seats = refl; same_rooms = refl; same_venues = refl };
      }))
