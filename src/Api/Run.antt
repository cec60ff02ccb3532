-- ===== src/Api/Run.antt =====
-- The invariant of the database along a history of requests.
use desmobapp_backend.Prelude.{ℕ, ◌≡◌, refl, List, [], ◌∷◌, Result, ok, err, Error}
use desmobapp_backend.Db.{Db, Uuid}
use desmobapp_backend.Time.{ZoneInfo, Env}
use desmobapp_backend.Api.{
  answer, answer_empty, Call, create_booking_call, reschedule_call, repeat_call,
  cancel_booking_call, checkin_call, create_hold_call, cancel_hold_call, create_payment_call,
  capture_call, refund_call, Request, serve_call, serve, run, create_booking_endpoint,
  reschedule_booking_endpoint, repeat_booking_endpoint, cancel_booking_endpoint,
  booking_checkin_endpoint, create_hold_endpoint, cancel_hold_endpoint, create_payment_endpoint,
  capture_payment_endpoint, refund_payment_endpoint,
}
use desmobapp_backend.Booking.{create_booking, repeat_booking, reschedule_booking, cancel_booking}
use desmobapp_backend.Hold.{create_hold, cancel_hold}
use desmobapp_backend.Payment.{create_payment, capture_payment, refund_payment}
use desmobapp_backend.CheckIn.{create_checkin}
use desmobapp_backend.Api.Invariant.{Inv}
use desmobapp_backend.Api.Preserve.{
  create_booking-Inv, repeat_booking-Inv, reschedule_booking-Inv, cancel_booking-Inv,
}
use desmobapp_backend.Api.Ledgers.{
  create_payment-Inv, capture_payment-Inv, refund_payment-Inv, create_checkin-Inv, create_hold-Inv,
  cancel_hold-Inv,
}

answer-keeps :
    {A : Type 0} (P : Db → Type 0) (status : ℕ) (code : Error → ℕ) (db : Db) (r : Result (A × Db))
    → P db
    → ((a : A) (db' : Db) → ◌≡◌ {A = Result (A × Db)} r (ok (a, db')) → P db')
    → P (answer status code db r).1
answer-keeps P status code db (ok (a, db')) h k = k a db' refl
answer-keeps P status code db (err e) h k = h

answer_empty-keeps :
    (P : Db → Type 0) (code : Error → ℕ) (db : Db) (r : Result Db)
    → P db
    → ((db' : Db) → r ≡ ok db' → P db')
    → P (answer_empty code db r).1
answer_empty-keeps P code db (ok db') h k = k db' refl
answer_empty-keeps P code db (err e) h k = h

module _ (zones : ZoneInfo) where
  serve_call-Inv :
      (env : Env) (u : Uuid) (call : Call) (db : Db) → Inv db → Inv (serve_call zones env u call db)
  unfolding serve_call create_booking_endpoint reschedule_booking_endpoint repeat_booking_endpoint
      cancel_booking_endpoint booking_checkin_endpoint create_hold_endpoint cancel_hold_endpoint
      create_payment_endpoint capture_payment_endpoint refund_payment_endpoint
  serve_call-Inv env u (create_booking_call p) db v =
      answer-keeps Inv _ _ db (create_booking zones env u p db) v
        (λ a db' e. create_booking-Inv zones env u p db v e)
  serve_call-Inv env u (reschedule_call i p) db v =
      answer-keeps Inv _ _ db (reschedule_booking zones env i u p db) v
        (λ a db' e. reschedule_booking-Inv zones env i u p db v e)
  serve_call-Inv env u (repeat_call i p) db v =
      answer-keeps Inv _ _ db (repeat_booking zones env i u p db) v
        (λ a db' e. repeat_booking-Inv zones env i u p db v e)
  serve_call-Inv env u (cancel_booking_call i) db v =
      answer_empty-keeps Inv _ db (cancel_booking env i u db) v
        (λ db' e. cancel_booking-Inv env i u db v e)
  serve_call-Inv env u (checkin_call i p) db v =
      answer-keeps Inv _ _ db (create_checkin env i u p db) v
        (λ a db' e. create_checkin-Inv env i u p db v e)
  serve_call-Inv env u (create_hold_call p) db v =
      answer-keeps Inv _ _ db (create_hold zones env u p db) v
        (λ a db' e. create_hold-Inv zones env u p db v e)
  serve_call-Inv env u (cancel_hold_call i) db v =
      answer_empty-keeps Inv _ db (cancel_hold i u db) v (λ db' e. cancel_hold-Inv i u db v e)
  serve_call-Inv env u (create_payment_call p) db v =
      answer-keeps Inv _ _ db (create_payment env u p db) v
        (λ a db' e. create_payment-Inv env u p db v e)
  serve_call-Inv env u (capture_call i) db v =
      answer-keeps Inv _ _ db (capture_payment env i u db) v
        (λ a db' e. capture_payment-Inv env i u db v e)
  serve_call-Inv env u (refund_call i p) db v =
      answer-keeps Inv _ _ db (refund_payment env i u p db) v
        (λ a db' e. refund_payment-Inv env i u p db v e)

  pub serve-Inv : (r : Request) (db : Db) → Inv db → Inv (serve zones r db)
  unfolding serve
  serve-Inv r db v = serve_call-Inv r.env r.user_id r.call db v

  -- Whatever requests are served, one after the other, the database keeps its invariant: the
  -- identifiers of bookings are distinct, their statuses are pending, confirmed, checked in or
  -- cancelled, each starts before it ends and leads back to its place, two that block in one venue
  -- have no instant in common, every check-in belongs to an admitted booking, and every transaction
  -- gives back at most what it took.
  pub run-Inv : (rs : List Request) (db : Db) → Inv db → Inv (run zones rs db)
  unfolding run
  run-Inv [] db v = v
  run-Inv (r ∷ rs) db v = run-Inv rs (serve zones r db) (serve-Inv r db v)
