-- ===== src/Booking/Rescheduled.antt =====
-- app/services/booking.py, `reschedule_booking`: the row that it moves, told from the request.
use desmobapp_backend.Prelude.{
  ℕ, ◌≡◌, sym, ◌∙◌, ap, subst, Bool, true, ok, ok-injective, In, arith, update_where, ◌==◌, ◌⊎◌,
}
use desmobapp_backend.Db.{Db, Uuid, Booking, BookingStatus, confirmed}
use desmobapp_backend.Time.{ZoneInfo, Env, ensure_utc}
use desmobapp_backend.Availability.{ResourceContext, resolve_booking_rule}
use desmobapp_backend.Booking.Allowed.{
  IsAllowed, validate-IsAllowed, IsAllowed-validate, window_answer,
}
use desmobapp_backend.Booking.Create.{initial_status}
use desmobapp_backend.Booking.Change.{
  BookingWindowUpdateRequest, reschedule_booking, moved_row, is_reschedulable, resolve_booked,
}
use desmobapp_backend.Booking.Homed.{IsHomed, SameSpace, SameLedgers}
use desmobapp_backend.Booking.Saved.{find_booking-eq-ok}
use desmobapp_backend.Booking.Added.{StatusByRule, initial_status-ByRule}
use desmobapp_backend.Booking.Changed.{
  reschedule_booking-Moved, moved_row-place, moved_row-times, IsHomed-venue, Moved-IsFree,
}
use desmobapp_backend.Booking.Spec.{IsFree, SamePlace}

pub record Rescheduled (zones : ZoneInfo) (env : Env) (booking_id user_id : Uuid)
    (payload : BookingWindowUpdateRequest) (db : Db) (b : Booking) (db' : Db) : Type 0 where
  -- The booking of before, of the caller.
  pub before : Booking
  pub present : In before db.bookings
  pub named : before.id ≡ booking_id
  pub own : before.user_id ≡ user_id
  pub changeable : (before.status ≡ BookingStatus.pending) ⊎ (before.status ≡ confirmed)
  -- It has the window of the request, which its place allows and no other booking meets.
  pub starts : ensure_utc payload.start_time ≡ ok b.start_time
  pub ends : ensure_utc payload.end_time ≡ ok b.end_time
  pub context : ResourceContext
  pub resolved : resolve_booked db before ≡ ok context
  pub allowed : IsAllowed zones env.window_now db context b.start_time b.end_time
  pub free : IsFree booking_id b.start_time b.end_time before.venue_id db.bookings
  -- Its status is that of a new booking, and the rest is as it was.
  pub status : StatusByRule (resolve_booking_rule db context) b.status
  pub place : SamePlace before b
  pub same_cancelled : b.cancelled_at ≡ before.cancelled_at
  -- The tables.
  pub bookings_after : db'.bookings ≡ update_where (λ r. r.id == booking_id) (λ r. b) db.bookings
  pub space : SameSpace db db'
  pub ledgers : SameLedgers db db'

moved_row-status :
    (env : Env) (st en : ℕ) (pay : Bool) (b : Booking)
    → ((moved_row env st en pay b).status ≡ initial_status pay)
      × ((moved_row env st en pay b).cancelled_at ≡ b.cancelled_at)
unfolding moved_row
moved_row-status env st en pay b = ground arith

reschedulable-cases :
    (s : BookingStatus) → is_reschedulable s ≡ true → (s ≡ BookingStatus.pending) ⊎ (s ≡ confirmed)
reschedulable-cases s h = ground arith

-- Where each booking leads back to its place, a `reschedule_booking` that returns has found the booking
-- of that identifier of the caller, pending or confirmed, and gives it the window of the request, which
-- its place allows and which no other blocking booking of its venue meets. It is pending if the rule
-- asks for a payment, otherwise confirmed, and keeps all else but the time of its last change. All
-- other bookings stay, and so do places, check-ins and transactions.
pub reschedule_booking-Rescheduled :
    (zones : ZoneInfo) (env : Env) (booking_id user_id : Uuid)
    (payload : BookingWindowUpdateRequest) (db : Db) {b : Booking} {db' : Db}
    → ((x : Booking) → In x db.bookings → IsHomed db x)
    → reschedule_booking zones env booking_id user_id payload db ≡ ok (b, db')
    → Rescheduled zones env booking_id user_id payload db b db'
reschedule_booking-Rescheduled zones env booking_id user_id payload db {b} {db'} homed e =
    let (booking, st, en, c, found, open_status, starts, ends, resolved, p) =
      reschedule_booking-Moved zones env booking_id user_id payload db e in
    let (m, same_id, same_user) = find_booking-eq-ok db booking_id user_id found in
    let target = moved_row env st en p.window.2 booking in
    let (at_start, at_end) = moved_row-times env st en p.window.2 booking in
    let (status, same_cancelled) = moved_row-status env st en p.window.2 booking in
    let place = moved_row-place env st en p.window.2 booking in
    let home = IsHomed-venue (homed booking m) resolved in
    let allowed = validate-IsAllowed zones env.window_now db c st en p.validated in
    let answer : p.window ≡ window_answer db c st en =
      ok-injective (sym p.validated ∙ IsAllowed-validate zones env.window_now db c st en allowed) in
    let is_start : b.start_time ≡ st = ap (λ (x : Booking). x.start_time) p.row ∙ at_start in
    let is_end : b.end_time ≡ en = ap (λ (x : Booking). x.end_time) p.row ∙ at_end in
    record {
      before = booking;
      present = m;
      named = same_id;
      own = same_user;
      changeable = reschedulable-cases booking.status open_status;
      starts = starts ∙ ap (λ t. ok t) (sym is_start);
      ends = ends ∙ ap (λ t. ok t) (sym is_end);
      context = c;
      resolved = resolved;
      allowed = rw (is_start, is_end) allowed;
      free =
          subst (λ i. IsFree i b.start_time b.end_time booking.venue_id db.bookings) same_id
            (rw (is_start, is_end) (Moved-IsFree zones env booking st en c db home p));
      status =
          subst (λ s. StatusByRule (resolve_booking_rule db c) s)
            (sym (
              ap (λ (x : Booking). x.status) p.row
              ∙ status
              ∙ ap (λ (w : ℕ × ℕ × Bool). initial_status w.2) answer))
            (initial_status-ByRule (resolve_booking_rule db c));
      place = subst (SamePlace booking) (sym p.row) place;
      same_cancelled = ap (λ (x : Booking). x.cancelled_at) p.row ∙ same_cancelled;
      bookings_after =
          p.bookings_after
          ∙ ap (λ i. update_where (λ r. r.id == i) (λ r. b) db.bookings)
              (ap (λ (x : Booking). x.id) p.row ∙ place.same_id ∙ same_id);
      space = p.space;
      ledgers = p.ledgers;
    }
