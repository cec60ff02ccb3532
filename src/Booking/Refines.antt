-- ===== src/Booking/Refines.antt =====
-- app/services/booking.py, `create_booking` and `repeat_booking`, against the specification of
-- Booking/Spec.
use desmobapp_backend.Prelude.{
  ℕ, ◌≡◌, ◌≢◌, sym, subst, Bool, true, false, Option, some, List, ok, any, >>=-eq-ok, ◌<◌,
  raise_if-eq-ok, In, any-false, arith, leb, inl, inr, Bool-cases, leb→lt, true_and_false,
}
use desmobapp_backend.Db.{Db, Uuid, Hold, Booking}
use desmobapp_backend.Time.{ZoneInfo, Env}
use desmobapp_backend.Availability.{ResourceContext, load_conflicts, overlaps}
use desmobapp_backend.Availability.Complete.{load_conflicts-bookings}
use desmobapp_backend.Booking.Window.{validate_booking_window, check_order}
use desmobapp_backend.Booking.Create.{
  BookingCreateRequest, create_booking, check_conflicts, initial_status, booking_row,
}
use desmobapp_backend.Booking.Query.{find_booking}
use desmobapp_backend.Booking.Change.{BookingWindowUpdateRequest, repeat_booking}
use desmobapp_backend.Booking.Created.{Placed, create_booking-Placed}
use desmobapp_backend.Booking.Spec.{IsFree, is_fresh, Step, add}

-- A window that passes lies in the future and ends after it starts.
pub validate_booking_window-order :
    (zones : ZoneInfo) (now : ℕ) (db : Db) (c : ResourceContext) (start_time end_time : ℕ)
    {w : ℕ × ℕ × Bool}
    → validate_booking_window zones now db c start_time end_time ≡ ok w
    → (start_time < end_time) × (now < start_time)
unfolding validate_booking_window check_order
validate_booking_window-order zones now db c st en e0 =
    let (u, e1, k) = >>=-eq-ok (check_order now st en) _ e0 in
    let (a, e2) = raise_if-eq-ok (leb en st) _ _ e1 in
    let (b, e3) = raise_if-eq-ok (leb st now) _ _ e2 in (leb→lt en st a, leb→lt st now b)

pub check_conflicts-bookings :
    (bookings : List Booking) (holds : List Hold) (st en : ℕ)
    → check_conflicts bookings holds st en ≡ ok tt
    → any (λ b. overlaps st en b.start_time b.end_time) bookings ≡ false
unfolding check_conflicts
check_conflicts-bookings bookings holds st en e =
    (raise_if-eq-ok (any (λ b. overlaps st en b.start_time b.end_time) bookings) _ _ e).0

-- Where no loaded booking but `i` is in the way, the interval is free in the venue.
pub loaded-IsFree :
    (now i : ℕ) (db : Db) (c : ResourceContext) (st en : ℕ) (bookings : List Booking)
    (holds : List Hold)
    → load_conflicts now db c st en ≡ ok (bookings, holds)
    → ((b : Booking) → In b bookings → b.id ≢ i → overlaps st en b.start_time b.end_time ≡ false)
    → IsFree i st en (some c.venue_id) db.bookings
loaded-IsFree now i db c st en bookings holds e clear b m ne blocks v =
    elim (Bool-cases (overlaps st en b.start_time b.end_time)) [
      | inl hit ↦ absurd (
          true_and_false hit
            (clear b (load_conflicts-bookings now db c st en bookings holds b e m blocks v hit) ne))
      | inr miss ↦ miss
    ]

pub initial_status-fresh : (pay : Bool) → is_fresh (initial_status pay) ≡ true
initial_status-fresh pay = ground arith

place_booking-Step :
    (zones : ZoneInfo) (env : Env) (user_id : Uuid) (hold_id : Option Uuid) (st en : ℕ)
    (c : ResourceContext) (db : Db) {b : Booking} {db' : Db}
    → Placed zones env user_id hold_id st en c db b db'
    → Step db.bookings db'.bookings
unfolding booking_row
place_booking-Step zones env user_id hold_id st en c db {b} p =
    add b p.committed.bookings_after p.committed.unused
      (subst (λ (x : Booking). is_fresh x.status ≡ true) (sym p.row)
        (initial_status-fresh p.window.2))
      (subst (λ (x : Booking). x.start_time < x.end_time) (sym p.row)
        (validate_booking_window-order zones env.window_now db c st en p.validated).0)
      (subst (λ (x : Booking). IsFree x.id x.start_time x.end_time x.venue_id db.bookings)
        (sym p.row)
        (loaded-IsFree env.conflicts_now env.new_id db c st en p.bookings p.holds p.loaded
          (λ x m ne.
            any-false _ p.bookings (check_conflicts-bookings p.bookings _ st en p.clear) m)))

-- A `create_booking` that returns is a step of the specification.
pub create_booking-Step :
    (zones : ZoneInfo) (env : Env) (user_id : Uuid) (payload : BookingCreateRequest) (db : Db)
    {b : Booking} {db' : Db}
    → create_booking zones env user_id payload db ≡ ok (b, db')
    → Step db.bookings db'.bookings
create_booking-Step zones env user_id payload db e =
    let (st, en, c, starts, ends, resolved, p) =
      create_booking-Placed zones env user_id payload db e in
    place_booking-Step zones env user_id payload.hold_id st en c db p

pub repeat_booking-Step :
    (zones : ZoneInfo) (env : Env) (booking_id user_id : Uuid)
    (payload : BookingWindowUpdateRequest) (db : Db) {b : Booking} {db' : Db}
    → repeat_booking zones env booking_id user_id payload db ≡ ok (b, db')
    → Step db.bookings db'.bookings
unfolding repeat_booking
repeat_booking-Step zones env booking_id user_id payload db e =
    let (x, found, k) = >>=-eq-ok (find_booking db booking_id user_id) _ e in
    create_booking-Step zones env user_id _ db k
