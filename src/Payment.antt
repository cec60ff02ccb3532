-- ===== src/Payment.antt =====
-- app/services/payment.py, with the requests of app/schemas/payment.py: payments are captured and
-- refunded. The provider is a mock: a payment is captured as it is made.
pub mod Effect
pub mod Change
pub mod Refund
use Prim.Native.String.{count}
use desmobapp_backend.Prelude.{
  ℕ, ◌+◌, ◌-◌, Bool, true, false, not, ◌&&◌, ◌||◌, Option, none, some, String, List, map, Result,
  ok, ◌>>=◌, ◌>>◌, raise_if, or_raise, find_first, update_where, ltb, leb, ◌==◌, if◌then◌else◌,
  payment_validation, payment_not_found, cancelled_not_paid, not_capturable, not_refundable,
  invalid_refund, booking_missing, payment_missing, data_error,
}
use desmobapp_backend.Db.{
  Db, Uuid, BookingStatus, confirmed, status_eq, PaymentStatus, authorized, captured, refunded,
  Booking, Transaction, booking_transaction, transaction_only, transaction_amount,
  insert_transaction,
}
use desmobapp_backend.Time.{Env}
use desmobapp_backend.Notification.{create_notification_record}
use desmobapp_backend.Booking.{own_booking}

-- `amount_cents` is not negative, and `currency` has three characters: the schema sees to both.
pub record PaymentCreateRequest : Type 0 where
  pub booking_id : Uuid
  pub amount_cents : ℕ
  pub currency : List ℕ
  pub provider : Option String

-- `amount_cents`, where given, is at least 1.
pub record PaymentRefundRequest : Type 0 where
  pub amount_cents : Option ℕ

-- The largest value of an `Integer` column.
abbrev pub max_integer : ℕ
max_integer = 2_147_483_647

-- `str.upper()` on an ASCII letter.
unfoldable pub to_upper : ℕ → ℕ
to_upper c = if leb b'a' c && leb c b'z' then c - 32 else c

-- `payload.provider or "mock"`: an empty text counts as none.
abbrev pub provider_of : Option String → String
provider_of none = "mock"
provider_of (some p) = if count p == 0 then "mock" else p

unfoldable pub transaction_row : Env → Uuid → PaymentCreateRequest → Booking → Transaction
transaction_row env user_id payload booking = record {
  id = env.new_id;
  booking_id = booking.id;
  user_id = user_id;
  provider = provider_of payload.provider;
  external_id = env.external_id;
  status = captured;
  amount_cents = payload.amount_cents;
  refunded_cents = 0;
  currency = map to_upper payload.currency;
  authorized_at = some env.own_now;
  captured_at = some env.own_now;
  refunded_at = none;
  created_at = env.db_now;
  updated_at = env.db_now;
}

-- `if booking.status == PENDING: booking.status = CONFIRMED`, on the booking of an identifier.
unfoldable pub confirm_booking : Env → Uuid → Db → Db
confirm_booking env booking_id db = record db {
  bookings =
      update_where (λ b. b.id == booking_id && status_eq b.status BookingStatus.pending)
        (λ b. record b { status = confirmed; updated_at = env.db_now }) db.bookings;
}

-- `create_payment`
unfoldable pub create_payment : Env → Uuid → PaymentCreateRequest → Db → Result (Transaction × Db)
create_payment env user_id payload db = do
  booking ←
      or_raise (find_first (own_booking payload.booking_id user_id) db.bookings)
        (payment_not_found booking_missing)
  raise_if (status_eq booking.status BookingStatus.cancelled)
      (payment_validation cancelled_not_paid)
  let transaction = transaction_row env user_id payload booking
  raise_if (ltb max_integer transaction.amount_cents) data_error
  added ← insert_transaction transaction db
  notified ←
      create_notification_record env user_id "payment_captured"
        (booking_transaction booking.id transaction.id) (confirm_booking env booking.id added)
  ok (transaction, notified)

unfoldable pub find_transaction : Db → Uuid → Uuid → Result Transaction
find_transaction db payment_id user_id =
    or_raise (find_first (λ t. t.id == payment_id && t.user_id == user_id) db.transactions)
      (payment_not_found payment_missing)

-- `get_payment`
unfoldable pub get_payment : Uuid → Uuid → Db → Result Transaction
unfolding find_transaction
get_payment payment_id user_id db = find_transaction db payment_id user_id

-- `status in {CAPTURED, REFUNDED}`
abbrev pub is_settled : PaymentStatus → Bool
is_settled captured = true
is_settled refunded = true
is_settled _ = false

-- `status in {PENDING, AUTHORIZED}`
abbrev pub is_open : PaymentStatus → Bool
is_open PaymentStatus.pending = true
is_open authorized = true
is_open _ = false

-- Writes `t` over the row of its identifier.
abbrev pub save_transaction : Transaction → Db → Db
save_transaction t db = record db {
  transactions = update_where (λ r. r.id == t.id) (λ r. t) db.transactions;
}

-- `authorized_at or now`
abbrev pub or_now : Option ℕ → ℕ → ℕ
or_now none now = now
or_now (some t) now = t

unfoldable pub captured_row : Env → Transaction → Transaction
captured_row env t = record t {
  status = captured;
  authorized_at = some (or_now t.authorized_at env.own_now);
  captured_at = some env.own_now;
  updated_at = env.db_now;
}

-- `capture_payment`
unfoldable pub capture_payment : Env → Uuid → Uuid → Db → Result (Transaction × Db)
capture_payment env payment_id user_id db = do
  transaction ← find_transaction db payment_id user_id
  elim (is_settled transaction.status) [
    | true ↦ ok (transaction, db)
    | false ↦
        raise_if (not (is_open transaction.status)) (payment_validation not_capturable)
        >> let taken = captured_row env transaction in
          (create_notification_record env user_id "payment_captured" (transaction_only taken.id)
              (confirm_booking env taken.booking_id (save_transaction taken db))
            >>= λ notified. ok (taken, notified))
  ]

-- `payload.amountCents or remaining`: 0 counts as none.
abbrev pub refund_amount : Option ℕ → ℕ → ℕ
refund_amount none remaining = remaining
refund_amount (some amount) remaining = if amount == 0 then remaining else amount

unfoldable pub refunded_row : Env → ℕ → Transaction → Transaction
refunded_row env amount t = record t {
  refunded_cents = t.refunded_cents + amount;
  status = if t.refunded_cents + amount == t.amount_cents then refunded else t.status;
  refunded_at = some env.own_now;
  updated_at = env.db_now;
}

-- `refund_payment`. In the code `remaining` can be negative, and is then refused: here it is 0 then,
-- and refused as well, since the amount is above it or 0.
unfoldable pub refund_payment :
    Env → Uuid → Uuid → PaymentRefundRequest → Db → Result (Transaction × Db)
refund_payment env payment_id user_id payload db = do
  transaction ← find_transaction db payment_id user_id
  raise_if (not (is_settled transaction.status)) (payment_validation not_refundable)
  let remaining = transaction.amount_cents - transaction.refunded_cents
  let amount = refund_amount payload.amount_cents remaining
  raise_if (leb amount 0 || ltb remaining amount) (payment_validation invalid_refund)
  let given_back = refunded_row env amount transaction
  notified ←
      create_notification_record env user_id "payment_refunded"
        (transaction_amount given_back.id amount) (save_transaction given_back db)
  ok (given_back, notified)
