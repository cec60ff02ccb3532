-- ===== src/Api/Preserve.antt =====
-- The invariant of the database and the functions of app/services/booking.py.
use desmobapp_backend.Prelude.{
  ℕ, ◌≡◌, refl, sym, ◌∙◌, subst, inl, inr, Bool, Option, [], ◌∷◌, ok, In, In-snoc, In-append_left,
  >>=-eq-ok,
}
use desmobapp_backend.Db.{Db, Uuid, Hold, Booking}
use desmobapp_backend.Time.{ZoneInfo, Env}
use desmobapp_backend.Availability.{ResourceContext}
use desmobapp_backend.Booking.{
  BookingCreateRequest, BookingWindowUpdateRequest, booking_row, create_booking, repeat_booking,
  reschedule_booking, cancel_booking, resolve_booked, find_booking,
}
use desmobapp_backend.Booking.Spec.{Settles, Moves, settle}
use desmobapp_backend.Booking.Spec.Safe.{Step-Safe}
use desmobapp_backend.Booking.Homed.{
  IsHomed, SameSpace, SamePlace-IsHomed, resolve_resource-again, resolve_booked-space,
  resolve_context,
}
use desmobapp_backend.Booking.Created.{create_booking-Placed}
use desmobapp_backend.Booking.Refines.{create_booking-Step}
use desmobapp_backend.Booking.Changed.{
  reschedule_booking-Moved, Moved-rows, reschedule_booking-Step,
}
use desmobapp_backend.Booking.Saved.{find_booking-eq-ok}
use desmobapp_backend.Booking.Cancelled.{cancel_booking-Cancelled, Cancelled-Settled}
use desmobapp_backend.Api.Invariant.{
  Inv, SamePlace-refl, Settles-Keeps, Moves-Keeps, rows-IsHomed, rows-IsChecked,
}

booking_row-IsHomed :
    (env : Env) (user_id : Uuid) (hold : Option Hold) (c : ResourceContext) (st en price : ℕ)
    (pay : Bool) (db db' : Db)
    → resolve_context db c ≡ ok c
    → SameSpace db db'
    → IsHomed db' (booking_row env user_id hold c st en price pay)
unfolding booking_row resolve_booked
booking_row-IsHomed env user_id hold c st en price pay db db' e space = record {
  context = c;
  known = resolve_booked-space db db' (booking_row env user_id hold c st en price pay) space ∙ e;
  in_venue = refl;
  in_room = refl;
  at_seat = refl;
}

-- The fields of the invariant after a booking was added.
pub create_booking-Inv :
    (zones : ZoneInfo) (env : Env) (user_id : Uuid) (payload : BookingCreateRequest) (db : Db)
    {b : Booking} {db' : Db}
    → Inv db
    → create_booking zones env user_id payload db ≡ ok (b, db')
    → Inv db'
create_booking-Inv zones env user_id payload db {b} {db'} v e =
    let (st, en, c, starts, ends, resolved, p) =
      create_booking-Placed zones env user_id payload db e in
    let k = p.committed in
    record {
      safe =
          Step-Safe db.bookings db'.bookings (create_booking-Step zones env user_id payload db e)
            v.safe;
      homed = λ x m. elim (In-snoc db.bookings b (subst (In x) k.bookings_after m)) [
        | inl i ↦ SamePlace-IsHomed db db' x x k.space (SamePlace-refl x x refl) (v.homed x i)
        | inr same ↦ subst (IsHomed db') (sym (same ∙ p.row)) (
            booking_row-IsHomed env user_id p.hold c st en p.window.1 p.window.2 db db'
              (resolve_resource-again db payload.level payload.seat_id payload.room_id
                payload.venue_id resolved)
              k.space)
      ];
      checked = λ x m.
          let (y, i, same, a) = v.checked x (subst (In x) k.ledgers.same_checkins m) in
          (y, subst (In y) (sym k.bookings_after) (In-append_left (b ∷ []) i), same, a);
      balanced = λ t m. v.balanced t (subst (In t) k.ledgers.same_transactions m);
    }

pub repeat_booking-Inv :
    (zones : ZoneInfo) (env : Env) (booking_id user_id : Uuid)
    (payload : BookingWindowUpdateRequest) (db : Db) {b : Booking} {db' : Db}
    → Inv db
    → repeat_booking zones env booking_id user_id payload db ≡ ok (b, db')
    → Inv db'
unfolding repeat_booking
repeat_booking-Inv zones env booking_id user_id payload db v e =
    let (x, found, k) = >>=-eq-ok (find_booking db booking_id user_id) _ e in
    create_booking-Inv zones env user_id _ db v k

pub reschedule_booking-Inv :
    (zones : ZoneInfo) (env : Env) (booking_id user_id : Uuid)
    (payload : BookingWindowUpdateRequest) (db : Db) {b : Booking} {db' : Db}
    → Inv db
    → reschedule_booking zones env booking_id user_id payload db ≡ ok (b, db')
    → Inv db'
reschedule_booking-Inv zones env booking_id user_id payload db {b} {db'} v e =
    let (booking, st, en, c, found, allowed, starts, ends, resolved, p) =
      reschedule_booking-Moved zones env booking_id user_id payload db e in
    let rows =
      Moved-rows zones env booking st en c db v.safe
        (find_booking-eq-ok db booking_id user_id found).0 allowed p in
    record {
      safe =
          Step-Safe db.bookings db'.bookings
            (reschedule_booking-Step zones env booking_id user_id payload db v.safe v.homed e)
            v.safe;
      homed =
          rows-IsHomed db db' (Moves booking.id st en) (Moves-Keeps booking.id st en) rows p.space
            v.homed;
      checked = λ x m.
          rows-IsChecked db db' (Moves booking.id st en) (Moves-Keeps booking.id st en) rows x
            (v.checked x (subst (In x) p.ledgers.same_checkins m));
      balanced = λ t m. v.balanced t (subst (In t) p.ledgers.same_transactions m);
    }

pub cancel_booking-Inv :
    (env : Env) (booking_id user_id : Uuid) (db : Db) {db' : Db}
    → Inv db
    → cancel_booking env booking_id user_id db ≡ ok db'
    → Inv db'
cancel_booking-Inv env booking_id user_id db {db'} v e =
    let p = cancel_booking-Cancelled env booking_id user_id db v.safe e in
    let s = Cancelled-Settled p in
    record {
      safe = Step-Safe db.bookings db'.bookings (settle s.rows) v.safe;
      homed = rows-IsHomed db db' Settles Settles-Keeps s.rows s.space v.homed;
      checked = λ x m.
          rows-IsChecked db db' Settles Settles-Keeps s.rows x
            (v.checked x (subst (In x) p.ledgers.same_checkins m));
      balanced = λ t m. v.balanced t (subst (In t) p.ledgers.same_transactions m);
    }
