-- ===== src/Tests/Ledgers.antt =====
-- Holds, payments and check-ins of the sample desk.
use desmobapp_backend.Prelude.{none, some, [], ◌∷◌, ◌++◌, ok, ◌≡◌, refl, update_where}
use desmobapp_backend.Db.{
  Db, checked_in, seat, HoldStatus, Hold, Transaction, captured, authorized, Checkin, geo,
  insert_hold, insert_transaction, insert_checkin, booking_only, booking_transaction,
  transaction_only, transaction_amount,
}
use desmobapp_backend.Hold.{
  HoldCreateRequest, create_hold, place_hold, hold_row, check_hold_conflicts,
}
use desmobapp_backend.Hold.Effect.{Held, create_hold-Held}
use desmobapp_backend.Payment.{
  PaymentCreateRequest, PaymentRefundRequest, create_payment, capture_payment, refund_payment,
  transaction_row, to_upper, confirm_booking, find_transaction, captured_row, refunded_row,
}
use desmobapp_backend.Payment.Effect.{Paid, create_payment-Paid}
use desmobapp_backend.Payment.Change.{Captured, capture_payment-Captured}
use desmobapp_backend.Payment.Refund.{Refunded, refund_payment-Refunded}
use desmobapp_backend.CheckIn.{
  CheckinRequest, create_checkin, check_method, checkin_row, checked_in_row,
}
use desmobapp_backend.CheckIn.Effect.{CheckedIn, create_checkin-CheckedIn}
use desmobapp_backend.Tests.Samples.{
  zones, env, empty_db, booked_db, desk_row, note, wall, at_minute,
}
use desmobapp_backend.Tests.Bookings.{two_requests_db, booked_db-Inv}

abbrev hold_request : HoldCreateRequest
hold_request = record {
  level = seat;
  seat_id = some 3;
  room_id = none;
  venue_id = none;
  start_time = wall 600;
  end_time = wall 660;
}

abbrev pub desk_hold : Hold
desk_hold = record {
  id = 20;
  user_id = 9;
  level = seat;
  venue_id = some 1;
  room_id = some 2;
  seat_id = some 3;
  start_time = at_minute 600;
  end_time = at_minute 660;
  status = HoldStatus.pending;
  expires_at = 900_000_000;
  created_at = 0;
}

abbrev pub held_db : Db
held_db = record empty_db { holds = desk_hold ∷ [] }

desk_held : create_hold zones (env 20) 9 hold_request empty_db ≡ ok (desk_hold, held_db)
unfolding two_requests_db create_hold place_hold hold_row check_hold_conflicts insert_hold
desk_held = refl

create_hold-Held_example : Held (env 20) 9 empty_db desk_hold held_db
create_hold-Held_example = create_hold-Held zones (env 20) 9 hold_request empty_db desk_held

abbrev pay_request : PaymentCreateRequest
pay_request = record {
  booking_id = 10;
  amount_cents = 500;
  currency = b'r' ∷ b'u' ∷ b'b' ∷ [];
  provider = some "";
}

abbrev desk_payment : Transaction
desk_payment = record {
  id = 30;
  booking_id = 10;
  user_id = 9;
  provider = "mock";
  external_id = 30;
  status = captured;
  amount_cents = 500;
  refunded_cents = 0;
  currency = b'R' ∷ b'U' ∷ b'B' ∷ [];
  authorized_at = some 0;
  captured_at = some 0;
  refunded_at = none;
  created_at = 0;
  updated_at = 0;
}

abbrev paid_db : Db
paid_db = record booked_db {
  transactions = desk_payment ∷ [];
  notifications =
      booked_db.notifications ++ note 30 "payment_captured" (booking_transaction 10 30) ∷ [];
}

desk_paid : create_payment (env 30) 9 pay_request booked_db ≡ ok (desk_payment, paid_db)
unfolding two_requests_db create_payment transaction_row to_upper confirm_booking insert_transaction
    update_where
desk_paid = refl

create_payment-Paid_example : Paid (env 30) 9 pay_request booked_db desk_payment paid_db
create_payment-Paid_example = create_payment-Paid (env 30) 9 pay_request booked_db desk_paid

-- A payment that is authorized and not yet captured.
abbrev authorized_payment : Transaction
authorized_payment = record desk_payment { status = authorized; captured_at = none }

abbrev authorized_db : Db
authorized_db = record booked_db { transactions = authorized_payment ∷ [] }

abbrev captured_db : Db
captured_db = record booked_db {
  transactions = desk_payment ∷ [];
  notifications = booked_db.notifications ++ note 31 "payment_captured" (transaction_only 30) ∷ [];
}

desk_captured : capture_payment (env 31) 30 9 authorized_db ≡ ok (desk_payment, captured_db)
unfolding two_requests_db capture_payment captured_row confirm_booking find_transaction update_where
desk_captured = refl

capture_payment-Captured_example : Captured (env 31) 30 9 authorized_db desk_payment captured_db
capture_payment-Captured_example =
    capture_payment-Captured (env 31) 30 9 authorized_db desk_captured

abbrev refund_request : PaymentRefundRequest
refund_request = record { amount_cents = some 200 }

abbrev refunded_payment : Transaction
refunded_payment = record desk_payment { refunded_cents = 200; refunded_at = some 0 }

abbrev refunded_db : Db
refunded_db = record paid_db {
  transactions = refunded_payment ∷ [];
  notifications =
      paid_db.notifications ++ note 31 "payment_refunded" (transaction_amount 30 200) ∷ [];
}

desk_refunded :
    refund_payment (env 31) 30 9 refund_request paid_db ≡ ok (refunded_payment, refunded_db)
unfolding two_requests_db refund_payment refunded_row find_transaction update_where
desk_refunded = refl

refund_payment-Refunded_example :
    Refunded (env 31) 30 9 refund_request paid_db refunded_payment refunded_db
refund_payment-Refunded_example =
    refund_payment-Refunded (env 31) 30 9 refund_request paid_db desk_refunded

abbrev checkin_request : CheckinRequest
checkin_request = record { method = geo; lat = some 55; lon = some 37; qr_code = none }

abbrev desk_checkin : Checkin
desk_checkin = record {
  id = 40;
  booking_id = 10;
  method = geo;
  lat = some 55;
  lon = some 37;
  notes = none;
  checked_in_at = 0;
}

abbrev checked_in_db : Db
checked_in_db = record booked_db {
  bookings = record desk_row { status = checked_in } ∷ [];
  checkins = desk_checkin ∷ [];
  notifications = booked_db.notifications ++ note 40 "booking_checked_in" (booking_only 10) ∷ [];
}

desk_checked_in :
    create_checkin (env 40) 10 9 checkin_request booked_db ≡ ok (desk_checkin, checked_in_db)
unfolding two_requests_db create_checkin check_method checkin_row checked_in_row insert_checkin
    update_where
desk_checked_in = refl

create_checkin-CheckedIn_example :
    CheckedIn (env 40) 10 9 checkin_request booked_db desk_checkin checked_in_db
create_checkin-CheckedIn_example =
    create_checkin-CheckedIn (env 40) 10 9 checkin_request booked_db booked_db-Inv.safe
      desk_checked_in
