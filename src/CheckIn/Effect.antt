-- ===== src/CheckIn/Effect.antt =====
-- app/services/checkin.py, `create_checkin`.
use desmobapp_backend.Prelude.{
  ℕ, String, Option, none, Forall₂, Forall₂-In_left, Forall₂-weaken, ◌≡◌, ◌≢◌, refl, sym, ◌∙◌, ap,
  subst, false, [], ◌∷◌, ◌++◌, ok, >>=-eq-ok, ok-pair, ◌==◌, In, arith, raise_if-eq-ok,
  or_raise-eq-ok, find_first, ◌||◌, any,
}
use desmobapp_backend.Db.{
  Db, Uuid, Booking, BookingStatus, checked_in, status_eq, CheckinMethod, qr, manual, geo, Checkin,
  insert_checkin, insert_checkin-eq-ok, booking_only, push,
}
use desmobapp_backend.Time.{Env}
use desmobapp_backend.Notification.{
  create_notification_record, create_notification_record-eq-ok, notification_row,
}
use desmobapp_backend.Booking.{own_booking, save_booking}
use desmobapp_backend.Booking.Saved.{own_booking-In}
use desmobapp_backend.Booking.Spec.{Settles, Admits, stays, turns}
use desmobapp_backend.Booking.Spec.Safe.{Safe}
use desmobapp_backend.Booking.Settled.{Settled, not_status, Turns-save, Admits-Settles}
use desmobapp_backend.Booking.Homed.{SameSpace}
use desmobapp_backend.CheckIn.{
  CheckinRequest, check_method, notes_of, checkin_row, checked_in_row, create_checkin,
}

-- The check-in that a request describes; a QR code is kept as its note.
pub record IsRecorded (now : ℕ) (booking_id : Uuid) (payload : CheckinRequest) (c : Checkin)
    : Type 0 where
  pub same_booking : c.booking_id ≡ booking_id
  pub same_method : c.method ≡ payload.method
  pub same_lat : c.lat ≡ payload.lat
  pub same_lon : c.lon ≡ payload.lon
  pub code : payload.method ≡ qr → c.notes ≡ payload.qr_code
  pub no_code : payload.method ≢ qr → c.notes ≡ none
  pub checked_in_now : c.checked_in_at ≡ now

notes_of-other : (m : CheckinMethod) (o : Option String) → m ≢ qr → notes_of m o ≡ none
notes_of-other qr o ne = absurd (ne refl)
notes_of-other manual o ne = refl
notes_of-other geo o ne = refl

checkin_row-IsRecorded :
    (env : Env) (payload : CheckinRequest) (b : Booking) (booking_id : Uuid)
    → b.id ≡ booking_id
    → IsRecorded env.own_now booking_id payload (checkin_row env payload b)
unfolding checkin_row
checkin_row-IsRecorded env payload b booking_id e = record {
  same_booking = e;
  same_method = refl;
  same_lat = refl;
  same_lon = refl;
  code = λ q. ap (λ m. notes_of m payload.qr_code) q;
  no_code = λ ne. notes_of-other payload.method payload.qr_code ne;
  checked_in_now = refl;
}

pub record CheckedIn (env : Env) (booking_id user_id : Uuid) (payload : CheckinRequest) (db : Db)
    (c : Checkin) (db' : Db) : Type 0 where
  pub booking : Booking
  pub present : In booking db.bookings
  pub named : booking.id ≡ booking_id
  pub own : booking.user_id ≡ user_id
  pub not_cancelled : booking.status ≢ BookingStatus.cancelled
  pub not_yet : booking.status ≢ checked_in
  pub method_ok : check_method payload ≡ ok tt
  pub recorded : IsRecorded env.own_now booking_id payload c
  pub unused : any (λ r. r.id == c.id || r.booking_id == c.booking_id) db.checkins ≡ false
  pub checkins_after : db'.checkins ≡ db.checkins ++ c ∷ []
  pub transactions_after : db'.transactions ≡ db.transactions
  pub rows : Forall₂ (Admits booking_id) db.bookings db'.bookings
  pub same_holds : db'.holds ≡ db.holds
  pub space : SameSpace db db'

checked_in_row-id : (env : Env) (b : Booking) → (checked_in_row env b).id ≡ b.id
unfolding checked_in_row
checked_in_row-id env b = refl

checked_in_row-Admits :
    (env : Env) (b : Booking)
    → b.status ≢ BookingStatus.cancelled
    → b.status ≢ checked_in
    → Admits b.id b (checked_in_row env b)
unfolding checked_in_row
checked_in_row-Admits env b n m = turns refl (n, m) refl (ground arith) refl refl refl

-- The booking is there afterwards, and checked in.
pub CheckedIn-admitted :
    {env : Env} {booking_id user_id : Uuid} {payload : CheckinRequest} {db db' : Db} {c : Checkin}
    → CheckedIn env booking_id user_id payload db c db'
    → (y : Booking) × In y db'.bookings × (y.id ≡ booking_id) × (y.status ≡ checked_in)
CheckedIn-admitted {booking_id = booking_id} p =
    let (y, m, r) = Forall₂-In_left (Admits booking_id) p.rows p.present in
    elim r [
      | stays unready e ↦ absurd (unready p.named (p.not_cancelled, p.not_yet))
      | turns e ready s place st en c ↦ (y, m, place.same_id ∙ e, s)
    ]

-- A check-in is a change of status as the specification allows it.
pub CheckedIn-Settled :
    {env : Env} {booking_id user_id : Uuid} {payload : CheckinRequest} {db db' : Db} {c : Checkin}
    → CheckedIn env booking_id user_id payload db c db'
    → Settled db db'
CheckedIn-Settled {booking_id = booking_id} p = record {
  rows = Forall₂-weaken (Admits booking_id) Settles (Admits-Settles booking_id) p.rows;
  space = p.space;
}

-- Where the rows are safe, a `create_checkin` that returns adds one check-in as the request describes
-- it, the first of a booking of the caller that was neither cancelled nor checked in. The booking is
-- checked in now and keeps all else but the time of its last change; every other booking stays,
-- and so do transactions, holds and places.
pub create_checkin-CheckedIn :
    (env : Env) (booking_id user_id : Uuid) (payload : CheckinRequest) (db : Db) {c : Checkin}
    {db' : Db}
    → Safe db.bookings
    → create_checkin env booking_id user_id payload db ≡ ok (c, db')
    → CheckedIn env booking_id user_id payload db c db'
unfolding create_checkin
create_checkin-CheckedIn env booking_id user_id payload db {c} {db'} s e0 =
    let (b, found, e1) =
      or_raise-eq-ok (find_first (own_booking booking_id user_id) db.bookings) _ _ e0 in
    let (m, same_id, same_user) = own_booking-In db booking_id user_id found in
    let (a1, e2) = raise_if-eq-ok (status_eq b.status BookingStatus.cancelled) _ _ e1 in
    let (a2, e3) = raise_if-eq-ok (status_eq b.status checked_in) _ _ e2 in
    let (u, fine, e4) = >>=-eq-ok (check_method payload) _ e3 in
    let made : Checkin = checkin_row env payload b in
    let saved : Db = save_booking (checked_in_row env b) db in
    let (added, inserted, e5) = >>=-eq-ok (insert_checkin made saved) _ e4 in
    let (unused, after) = insert_checkin-eq-ok made saved inserted in
    let (notified, noted, e6) =
      >>=-eq-ok
        (create_notification_record env user_id "booking_checked_in" (booking_only b.id) added) _
        e5 in
    let (row, last) = ok-pair e6 in
    let n1 = not_status b.status BookingStatus.cancelled a1 in
    let n2 = not_status b.status checked_in a2 in
    let all_after =
      last
      ∙ create_notification_record-eq-ok env user_id "booking_checked_in" (booking_only b.id) added
          noted
      ∙ ap
          (λ (d : Db). record d {
            notifications =
                d.notifications
                ++ notification_row env push user_id "booking_checked_in" (booking_only b.id) ∷ [];
          })
          after in
    subst (λ x. CheckedIn env booking_id user_id payload db x db') (sym row)
      (subst (CheckedIn env booking_id user_id payload db made) (sym all_after) (record {
        booking = b;
        present = m;
        named = same_id;
        own = same_user;
        not_cancelled = n1;
        not_yet = n2;
        method_ok = fine;
        recorded = checkin_row-IsRecorded env payload b booking_id same_id;
        unused = unused;
        checkins_after = refl;
        transactions_after = refl;
        rows =
            subst (λ i. Forall₂ (Admits i) db.bookings saved.bookings) same_id
              (Turns-save db.bookings (λ t. (t ≢ BookingStatus.cancelled) × (t ≢ checked_in))
                checked_in (λ o. o) b (checked_in_row env b) s m (checked_in_row-id env b)
                (checked_in_row-Admits env b n1 n2));
        same_holds = refl;
        space = record { same_seats = refl; same_rooms = refl; same_venues = refl };
      }))
