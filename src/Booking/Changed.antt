-- ===== src/Booking/Changed.antt =====
-- app/services/booking.py, `reschedule_booking`, against the specification of Booking/Spec.
use desmobapp_backend.Prelude.{
  ℕ, ◌≡◌, refl, sym, ◌∙◌, ap, subst, Bool, true, not, some, List, ok, any-false, filter_by,
  In-filter_by, >>=-eq-ok, ok-injective, ok-pair, ◌==◌, raise_if-eq-ok, In, arith, Forall₂,
  update_where, not-false, not-not,
}
use desmobapp_backend.Db.{Db, Uuid, Hold, Booking, BookingStatus, booking_only}
use desmobapp_backend.Time.{ZoneInfo, Env, ensure_utc}
use desmobapp_backend.Availability.{ResourceContext, load_conflicts}
use desmobapp_backend.Notification.{create_notification_record, create_notification_record-eq-ok}
use desmobapp_backend.Booking.Window.{validate_booking_window}
use desmobapp_backend.Booking.Create.{check_conflicts}
use desmobapp_backend.Booking.Query.{find_booking}
use desmobapp_backend.Booking.Change.{
  BookingWindowUpdateRequest, reschedule_booking, move_booking, moved_row, save_booking,
  is_reschedulable, resolve_booked,
}
use desmobapp_backend.Booking.Homed.{IsHomed, SameSpace, SameLedgers}
use desmobapp_backend.Booking.Saved.{find_booking-eq-ok, save-rows}
use desmobapp_backend.Booking.Refines.{
  validate_booking_window-order, check_conflicts-bookings, loaded-IsFree,
}
use desmobapp_backend.Booking.Spec.{IsFree, is_fresh, SamePlace, Moves, other, moved, Step, move}
use desmobapp_backend.Booking.Spec.Safe.{Safe}

-- The checks of a move that returns, and what it does.
pub record Moved (zones : ZoneInfo) (env : Env) (booking : Booking) (start_time end_time : ℕ)
    (c : ResourceContext) (db : Db) (b : Booking) (db' : Db) : Type 0 where
  pub window : ℕ × ℕ × Bool
  pub bookings : List Booking
  pub holds : List Hold
  pub validated : validate_booking_window zones env.window_now db c start_time end_time ≡ ok window
  pub loaded : load_conflicts env.conflicts_now db c start_time end_time ≡ ok (bookings, holds)
  pub clear :
      check_conflicts (filter_by (λ b. not (b.id == booking.id)) bookings) holds start_time end_time
      ≡ ok tt
  pub row : b ≡ moved_row env start_time end_time window.2 booking
  pub bookings_after : db'.bookings ≡ update_where (λ r. r.id == b.id) (λ r. b) db.bookings
  pub space : SameSpace db db'
  pub ledgers : SameLedgers db db'

move_booking-Moved :
    (zones : ZoneInfo) (env : Env) (user_id : Uuid) (booking : Booking) (st en : ℕ)
    (c : ResourceContext) (db : Db) {b : Booking} {db' : Db}
    → move_booking zones env user_id booking st en c db ≡ ok (b, db')
    → Moved zones env booking st en c db b db'
unfolding move_booking
move_booking-Moved zones env user_id booking st en c db {b} {db'} e0 =
    let (window, validated, e1) =
      >>=-eq-ok (validate_booking_window zones env.window_now db c st en) _ e0 in
    let (conflicts, loaded, e2) = >>=-eq-ok (load_conflicts env.conflicts_now db c st en) _ e1 in
    let (u, clear, e3) =
      >>=-eq-ok
        (check_conflicts (filter_by (λ b. not (b.id == booking.id)) conflicts.0) conflicts.1 st en)
        _ e2 in
    let target : Booking = moved_row env st en window.2 booking in
    let (notified, noted, e4) =
      >>=-eq-ok
        (create_notification_record env user_id "booking_rescheduled" (booking_only booking.id)
          (save_booking target db))
        _ e3 in
    let (row, last) = ok-pair e4 in
    let noted' =
      last
      ∙ create_notification_record-eq-ok env user_id "booking_rescheduled" (booking_only booking.id)
          (save_booking target db) noted in
    record {
      window = window;
      bookings = conflicts.0;
      holds = conflicts.1;
      validated = validated;
      loaded = loaded;
      clear = clear;
      row = row;
      bookings_after =
          ap (λ (d : Db). d.bookings) noted'
          ∙ ap (λ (x : Booking). update_where (λ r. r.id == x.id) (λ r. x) db.bookings) (sym row);
      space = record {
        same_seats = ap (λ (d : Db). d.seats) noted';
        same_rooms = ap (λ (d : Db). d.rooms) noted';
        same_venues = ap (λ (d : Db). d.venues) noted';
      };
      ledgers = record {
        same_checkins = ap (λ (d : Db). d.checkins) noted';
        same_transactions = ap (λ (d : Db). d.transactions) noted';
      };
    }

pub moved_row-place :
    (env : Env) (st en : ℕ) (pay : Bool) (b : Booking) → SamePlace b (moved_row env st en pay b)
unfolding moved_row
moved_row-place env st en pay b = ground arith

pub moved_row-times :
    (env : Env) (st en : ℕ) (pay : Bool) (b : Booking)
    → ((moved_row env st en pay b).start_time ≡ st) × ((moved_row env st en pay b).end_time ≡ en)
unfolding moved_row
moved_row-times env st en pay b = ground arith

pub moved_row-fresh :
    (env : Env) (st en : ℕ) (pay : Bool) (b : Booking)
    → is_reschedulable b.status ≡ true
    → is_fresh (moved_row env st en pay b).status ≡ true
unfolding moved_row
moved_row-fresh env st en pay b h = ground arith

pub reschedulable-fresh : (t : BookingStatus) → is_reschedulable t ≡ true → is_fresh t ≡ true
reschedulable-fresh t h = ground arith

-- The rows after a move: one has moved, the others stay.
pub Moved-rows :
    (zones : ZoneInfo) (env : Env) (booking : Booking) (st en : ℕ) (c : ResourceContext) (db : Db)
    {b : Booking} {db' : Db}
    → Safe db.bookings
    → In booking db.bookings
    → is_reschedulable booking.status ≡ true
    → Moved zones env booking st en c db b db'
    → Forall₂ (Moves booking.id st en) db.bookings db'.bookings
Moved-rows zones env booking st en c db s m allowed p =
    subst (Forall₂ (Moves booking.id st en) db.bookings)
      (sym (
        p.bookings_after
        ∙ ap (λ (x : Booking). update_where (λ r. r.id == x.id) (λ r. x) db.bookings) p.row))
      (save-rows db.bookings s booking m (Moves booking.id st en) target place.same_id
        (moved refl (reschedulable-fresh booking.status allowed)
          (moved_row-fresh env st en p.window.2 booking allowed) place
          (moved_row-times env st en p.window.2 booking).0
          (moved_row-times env st en p.window.2 booking).1)
        (λ x i ne. other ne refl))
  where
    target : Booking
    target = moved_row env st en p.window.2 booking

    place : SamePlace booking target
    place = moved_row-place env st en p.window.2 booking

-- The new interval is free for it.
pub Moved-IsFree :
    (zones : ZoneInfo) (env : Env) (booking : Booking) (st en : ℕ) (c : ResourceContext) (db : Db)
    {b : Booking} {db' : Db}
    → booking.venue_id ≡ some c.venue_id
    → Moved zones env booking st en c db b db'
    → IsFree booking.id st en booking.venue_id db.bookings
Moved-IsFree zones env booking st en c db home p =
    subst (λ v. IsFree booking.id st en v db.bookings) (sym home)
      (loaded-IsFree env.conflicts_now booking.id db c st en p.bookings p.holds p.loaded (λ x i ne.
        any-false _ (filter_by (λ y. not (y.id == booking.id)) p.bookings)
          (check_conflicts-bookings _ p.holds st en p.clear)
          (In-filter_by (λ y. not (y.id == booking.id)) p.bookings i
            (not-false x.id booking.id ne))))

Moved-Step :
    (zones : ZoneInfo) (env : Env) (booking : Booking) (st en : ℕ) (c : ResourceContext) (db : Db)
    {b : Booking} {db' : Db}
    → Safe db.bookings
    → In booking db.bookings
    → is_reschedulable booking.status ≡ true
    → booking.venue_id ≡ some c.venue_id
    → Moved zones env booking st en c db b db'
    → Step db.bookings db'.bookings
Moved-Step zones env booking st en c db {b} {db'} s m allowed home p =
    move booking.id st en booking m refl
      (validate_booking_window-order zones env.window_now db c st en p.validated).0
      (Moved-IsFree zones env booking st en c db home p)
      (Moved-rows zones env booking st en c db s m allowed p)

-- What a `reschedule_booking` that returns began from.
pub reschedule_booking-Moved :
    (zones : ZoneInfo) (env : Env) (booking_id user_id : Uuid)
    (payload : BookingWindowUpdateRequest) (db : Db) {b : Booking} {db' : Db}
    → reschedule_booking zones env booking_id user_id payload db ≡ ok (b, db')
    → (booking : Booking) × (st en : ℕ) × (c : ResourceContext) × (find_booking db booking_id
          user_id
        ≡ ok booking)
      × (is_reschedulable booking.status ≡ true)
      × (ensure_utc payload.start_time ≡ ok st)
      × (ensure_utc payload.end_time ≡ ok en)
      × (resolve_booked db booking ≡ ok c)
      × Moved zones env booking st en c db b db'
unfolding reschedule_booking
reschedule_booking-Moved zones env booking_id user_id payload db e0 =
    let (booking, found, e1) = >>=-eq-ok (find_booking db booking_id user_id) _ e0 in
    let (allowed, e2) = raise_if-eq-ok (not (is_reschedulable booking.status)) _ _ e1 in
    let (st, starts, e3) = >>=-eq-ok (ensure_utc payload.start_time) _ e2 in
    let (en, ends, e4) = >>=-eq-ok (ensure_utc payload.end_time) _ e3 in
    let (c, resolved, e5) = >>=-eq-ok (resolve_booked db booking) _ e4 in
    (
      booking,
      st,
      en,
      c,
      found,
      not-not (is_reschedulable booking.status) allowed,
      starts,
      ends,
      resolved,
      move_booking-Moved zones env user_id booking st en c db e5,
    )

-- Two resolutions of one booking agree.
pub IsHomed-venue :
    {db : Db} {b : Booking} {c : ResourceContext}
    → IsHomed db b
    → resolve_booked db b ≡ ok c
    → b.venue_id ≡ some c.venue_id
IsHomed-venue h e =
    h.in_venue ∙ ap (λ (x : ResourceContext). some x.venue_id) (ok-injective (sym h.known ∙ e))

pub reschedule_booking-Step :
    (zones : ZoneInfo) (env : Env) (booking_id user_id : Uuid)
    (payload : BookingWindowUpdateRequest) (db : Db) {b : Booking} {db' : Db}
    → Safe db.bookings
    → ((x : Booking) → In x db.bookings → IsHomed db x)
    → reschedule_booking zones env booking_id user_id payload db ≡ ok (b, db')
    → Step db.bookings db'.bookings
reschedule_booking-Step zones env booking_id user_id payload db s homed e =
    let (booking, st, en, c, found, allowed, starts, ends, resolved, p) =
      reschedule_booking-Moved zones env booking_id user_id payload db e in
    let (m, same_id, same_user) = find_booking-eq-ok db booking_id user_id found in
    Moved-Step zones env booking st en c db s m allowed (IsHomed-venue (homed booking m) resolved) p
