-- ===== src/Api.antt =====
-- The routes of app/api/routes/bookings.py, holds.py, payments.py and availability.py: each turns
-- the exceptions of its service into HTTP statuses. An exception that a route does not catch is the
-- status 500 of app/api/errors.py. A request whose service raises leaves the database as it was: the
-- session is closed without a commit.
pub mod Invariant
pub mod Preserve
pub mod Ledgers
pub mod Run
pub mod Seats
use desmobapp_backend.Prelude.{
  String, ℕ, Option, List, [], ◌∷◌, Error, availability_validation, availability_not_found,
  booking_conflict, booking_not_found, hold_conflict, hold_not_found, payment_validation,
  payment_not_found, checkin_validation, checkin_not_found, Result, ok, err,
}
use desmobapp_backend.Db.{
  Db, Uuid, BookingLevel, BookingStatus, Booking, Hold, Transaction, Checkin,
}
use desmobapp_backend.Time.{ZoneInfo, Env}
use desmobapp_backend.Availability.{AvailabilityResponse, get_availability}
use desmobapp_backend.Booking.{
  BookingCreateRequest, BookingWindowUpdateRequest, BookingListResponse, create_booking,
  get_booking, list_bookings, list_booking_history, reschedule_booking, repeat_booking,
  cancel_booking,
}
use desmobapp_backend.Hold.{HoldCreateRequest, create_hold, cancel_hold}
use desmobapp_backend.Payment.{
  PaymentCreateRequest, PaymentRefundRequest, create_payment, get_payment, capture_payment,
  refund_payment,
}
use desmobapp_backend.CheckIn.{CheckinRequest, create_checkin}

pub data Response (A : Type 0) : Type 0 where
  success : ℕ → A → Response A
  failure : ℕ → Error → Response A

-- The `except` clauses of a route, as the status for each exception.
abbrev pub availability_code : Error → ℕ
availability_code (availability_validation _) = 400
availability_code (availability_not_found _) = 404
availability_code _ = 500

abbrev pub create_booking_code : Error → ℕ
create_booking_code (availability_validation _) = 400
create_booking_code (availability_not_found _) = 404
create_booking_code (booking_conflict _) = 409
create_booking_code _ = 500

abbrev pub change_booking_code : Error → ℕ
change_booking_code (availability_validation _) = 400
change_booking_code (availability_not_found _) = 404
change_booking_code (booking_not_found _) = 404
change_booking_code (booking_conflict _) = 409
change_booking_code _ = 500

abbrev pub find_booking_code : Error → ℕ
find_booking_code (booking_not_found _) = 404
find_booking_code _ = 500

abbrev pub checkin_code : Error → ℕ
checkin_code (checkin_validation _) = 400
checkin_code (checkin_not_found _) = 404
checkin_code _ = 500

abbrev pub create_hold_code : Error → ℕ
create_hold_code (availability_validation _) = 400
create_hold_code (availability_not_found _) = 404
create_hold_code (hold_conflict _) = 409
create_hold_code _ = 500

abbrev pub cancel_hold_code : Error → ℕ
cancel_hold_code (hold_not_found _) = 404
cancel_hold_code _ = 500

abbrev pub payment_code : Error → ℕ
payment_code (payment_validation _) = 400
payment_code (payment_not_found _) = 404
payment_code _ = 500

abbrev pub find_payment_code : Error → ℕ
find_payment_code (payment_not_found _) = 404
find_payment_code _ = 500

-- A route that writes: the service's answer and the committed database, or the failure.
abbrev pub answer : {A S : Type 0} → ℕ → (Error → ℕ) → S → Result (A × S) → Response A × S
answer status code s (ok (a, s')) = (success status a, s')
answer status code s (err e) = (failure (code e) e, s)

-- A route that answers 204, without a body.
abbrev pub answer_empty : (Error → ℕ) → Db → Result Db → Response (Unit {0}) × Db
answer_empty code db (ok db') = (success 204 tt, db')
answer_empty code db (err e) = (failure (code e) e, db)

-- A route whose service has committed what it wrote before it raised.
abbrev pub answer_committed : {A S : Type 0} → (Error → ℕ) → Result A × S → Response A × S
answer_committed code (ok a, s) = (success 200 a, s)
answer_committed code (err e, s) = (failure (code e) e, s)

-- A route that answers with a `MessageResponse`.
abbrev pub answer_message : {S : Type 0} → String → (Error → ℕ) → S → Result S → Response String × S
answer_message message code s (ok s') = (success 200 message, s')
answer_message message code s (err e) = (failure (code e) e, s)

-- A route that reads.
abbrev pub answer_read : {A : Type 0} → (Error → ℕ) → Result A → Response A
answer_read code (ok a) = success 200 a
answer_read code (err e) = failure (code e) e

unfoldable pub availability_endpoint :
    ZoneInfo
    → ℕ
    → Db
    → BookingLevel
    → Option Uuid
    → Option Uuid
    → Option Uuid
    → ℕ
    → ℕ
    → Response AvailabilityResponse
availability_endpoint zones now db level seat_id room_id venue_id date minutes =
    answer_read availability_code
      (get_availability zones now db level seat_id room_id venue_id date minutes)

unfoldable pub create_booking_endpoint :
    ZoneInfo → Env → Uuid → BookingCreateRequest → Db → Response Booking × Db
create_booking_endpoint zones env user_id payload db =
    answer 201 create_booking_code db (create_booking zones env user_id payload db)

unfoldable pub list_booking_history_endpoint : ℕ → Uuid → ℕ → ℕ → Db → Response BookingListResponse
list_booking_history_endpoint now user_id page limit db =
    success 200 (list_booking_history now user_id page limit db)

unfoldable pub get_booking_endpoint : Uuid → Uuid → Db → Response Booking
get_booking_endpoint booking_id user_id db =
    answer_read find_booking_code (get_booking booking_id user_id db)

unfoldable pub list_bookings_endpoint :
    Uuid → Option BookingStatus → Option ℕ → Option ℕ → ℕ → ℕ → Db → Response BookingListResponse
list_bookings_endpoint user_id status date_from date_to page limit db =
    success 200 (list_bookings user_id status date_from date_to page limit db)

unfoldable pub reschedule_booking_endpoint :
    ZoneInfo → Env → Uuid → Uuid → BookingWindowUpdateRequest → Db → Response Booking × Db
reschedule_booking_endpoint zones env booking_id user_id payload db =
    answer 200 change_booking_code db (reschedule_booking zones env booking_id user_id payload db)

unfoldable pub repeat_booking_endpoint :
    ZoneInfo → Env → Uuid → Uuid → BookingWindowUpdateRequest → Db → Response Booking × Db
repeat_booking_endpoint zones env booking_id user_id payload db =
    answer 200 change_booking_code db (repeat_booking zones env booking_id user_id payload db)

unfoldable pub cancel_booking_endpoint : Env → Uuid → Uuid → Db → Response (Unit {0}) × Db
cancel_booking_endpoint env booking_id user_id db =
    answer_empty find_booking_code db (cancel_booking env booking_id user_id db)

unfoldable pub booking_checkin_endpoint :
    Env → Uuid → Uuid → CheckinRequest → Db → Response Checkin × Db
booking_checkin_endpoint env booking_id user_id payload db =
    answer 200 checkin_code db (create_checkin env booking_id user_id payload db)

unfoldable pub create_hold_endpoint :
    ZoneInfo → Env → Uuid → HoldCreateRequest → Db → Response Hold × Db
create_hold_endpoint zones env user_id payload db =
    answer 201 create_hold_code db (create_hold zones env user_id payload db)

unfoldable pub cancel_hold_endpoint : Uuid → Uuid → Db → Response (Unit {0}) × Db
cancel_hold_endpoint hold_id user_id db =
    answer_empty cancel_hold_code db (cancel_hold hold_id user_id db)

unfoldable pub create_payment_endpoint :
    Env → Uuid → PaymentCreateRequest → Db → Response Transaction × Db
create_payment_endpoint env user_id payload db =
    answer 201 payment_code db (create_payment env user_id payload db)

unfoldable pub get_payment_endpoint : Uuid → Uuid → Db → Response Transaction
get_payment_endpoint payment_id user_id db =
    answer_read find_payment_code (get_payment payment_id user_id db)

unfoldable pub capture_payment_endpoint : Env → Uuid → Uuid → Db → Response Transaction × Db
capture_payment_endpoint env payment_id user_id db =
    answer 200 payment_code db (capture_payment env payment_id user_id db)

unfoldable pub refund_payment_endpoint :
    Env → Uuid → Uuid → PaymentRefundRequest → Db → Response Transaction × Db
refund_payment_endpoint env payment_id user_id payload db =
    answer 200 payment_code db (refund_payment env payment_id user_id payload db)

-- The requests that write.
pub data Call : Type 0 where
  create_booking_call : BookingCreateRequest → Call
  reschedule_call repeat_call : Uuid → BookingWindowUpdateRequest → Call
  cancel_booking_call : Uuid → Call
  checkin_call : Uuid → CheckinRequest → Call
  create_hold_call : HoldCreateRequest → Call
  cancel_hold_call : Uuid → Call
  create_payment_call : PaymentCreateRequest → Call
  capture_call : Uuid → Call
  refund_call : Uuid → PaymentRefundRequest → Call

-- A call, who makes it and what it reads of its surroundings.
pub record Request : Type 0 where
  pub env : Env
  pub user_id : Uuid
  pub call : Call

module _ (zones : ZoneInfo) where
  serve_call : Env → Uuid → Call → Db → Db
  serve_call env u (create_booking_call p) db = (create_booking_endpoint zones env u p db).1
  serve_call env u (reschedule_call i p) db = (reschedule_booking_endpoint zones env i u p db).1
  serve_call env u (repeat_call i p) db = (repeat_booking_endpoint zones env i u p db).1
  serve_call env u (cancel_booking_call i) db = (cancel_booking_endpoint env i u db).1
  serve_call env u (checkin_call i p) db = (booking_checkin_endpoint env i u p db).1
  serve_call env u (create_hold_call p) db = (create_hold_endpoint zones env u p db).1
  serve_call env u (cancel_hold_call i) db = (cancel_hold_endpoint i u db).1
  serve_call env u (create_payment_call p) db = (create_payment_endpoint env u p db).1
  serve_call env u (capture_call i) db = (capture_payment_endpoint env i u db).1
  serve_call env u (refund_call i p) db = (refund_payment_endpoint env i u p db).1

  -- The database after one request.
  unfoldable pub serve : Request → Db → Db
  unfolding serve_call
  serve r db = serve_call r.env r.user_id r.call db

  -- The database after requests that are served one after the other.
  unfoldable pub run : List Request → Db → Db
  run [] db = db
  run (r ∷ rs) db = run rs (serve r db)
