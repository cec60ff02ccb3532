-- ===== src/Booking/Created.antt =====
-- app/services/booking.py, `create_booking`: its run, taken apart.
use desmobapp_backend.Prelude.{
  ℕ, ◌≡◌, refl, sym, ◌∙◌, ap, subst, Bool, false, Option, none, some, List, [], ◌∷◌, ◌++◌, ok, any,
  filter_by, >>=-eq-ok, ok-pair, ◌==◌, arith,
}
use desmobapp_backend.Db.{
  Db, Uuid, Hold, Booking, booking_level, insert_booking-eq-ok, insert_booking,
}
use desmobapp_backend.Time.{ZoneInfo, Env, ensure_utc}
use desmobapp_backend.Availability.{ResourceContext, resolve_resource, load_conflicts}
use desmobapp_backend.Notification.{create_notification_record, create_notification_record-eq-ok}
use desmobapp_backend.Booking.Homed.{SameSpace, SameLedgers}
use desmobapp_backend.Booking.Window.{validate_booking_window}
use desmobapp_backend.Booking.Create.{
  BookingCreateRequest, create_booking, place_booking, commit_booking, named_hold, check_conflicts,
  booking_row, convert_hold, is_other_hold,
}

-- The changes to the two tables.
pub record Committed (hold : Option Hold) (db : Db) (b : Booking) (db' : Db) : Type 0 where
  pub unused : any (λ r. r.id == b.id) db.bookings ≡ false
  pub bookings_after : db'.bookings ≡ db.bookings ++ b ∷ []
  pub holds_after : db'.holds ≡ (convert_hold hold db).holds
  pub space : SameSpace db db'
  pub ledgers : SameLedgers db db'

-- The checks of a place that is known.
pub record Placed (zones : ZoneInfo) (env : Env) (user_id : Uuid) (hold_id : Option Uuid)
    (start_time end_time : ℕ) (c : ResourceContext) (db : Db) (b : Booking) (db' : Db)
    : Type 0 where
  pub window : ℕ × ℕ × Bool
  pub hold : Option Hold
  pub bookings : List Booking
  pub holds : List Hold
  pub validated : validate_booking_window zones env.window_now db c start_time end_time ≡ ok window
  pub held : named_hold env.hold_now db hold_id user_id start_time end_time c ≡ ok hold
  pub loaded : load_conflicts env.conflicts_now db c start_time end_time ≡ ok (bookings, holds)
  pub clear :
      check_conflicts bookings (filter_by (is_other_hold hold) holds) start_time end_time ≡ ok tt
  pub row : b ≡ booking_row env user_id hold c start_time end_time window.1 window.2
  pub committed : Committed hold db b db'

convert_hold-bookings : (h : Option Hold) (db : Db) → (convert_hold h db).bookings ≡ db.bookings
unfolding convert_hold
convert_hold-bookings none db = refl
convert_hold-bookings (some h) db = refl

convert_hold-space :
    (h : Option Hold) (db : Db)
    → SameSpace db (convert_hold h db) × SameLedgers db (convert_hold h db)
unfolding convert_hold
convert_hold-space none db = ground arith
convert_hold-space (some h) db = ground arith

convert_hold-holds :
    (h : Option Hold) (db : Db) (bs : List Booking)
    → (convert_hold h (record db { bookings = bs })).holds ≡ (convert_hold h db).holds
unfolding convert_hold
convert_hold-holds none db bs = refl
convert_hold-holds (some h) db bs = refl

commit_booking-Committed :
    (env : Env) (user_id : Uuid) (hold : Option Hold) (made : Booking) (db : Db) {b : Booking}
    {db' : Db}
    → commit_booking env user_id hold made db ≡ ok (b, db')
    → (b ≡ made) × Committed hold db made db'
unfolding commit_booking
commit_booking-Committed env user_id hold made db {b} {db'} e0 =
    let (added, inserted, e1) = >>=-eq-ok (insert_booking made db) _ e0 in
    let (unused, after) = insert_booking-eq-ok made db inserted in
    let (notified, noted, e2) =
      >>=-eq-ok
        (create_notification_record env user_id "booking_created" (booking_level made.id made.level)
          (convert_hold hold added))
        _ e1 in
    let (row, last) = ok-pair e2 in
    let noted' =
      last
      ∙ create_notification_record-eq-ok env user_id "booking_created"
          (booking_level made.id made.level) (convert_hold hold added) noted in
    let kept = convert_hold-space hold added in
    (
      row,
      record {
        unused = unused;
        bookings_after =
            ap (λ (d : Db). d.bookings) noted'
            ∙ convert_hold-bookings hold added
            ∙ ap (λ (d : Db). d.bookings) after;
        holds_after =
            ap (λ (d : Db). d.holds) noted'
            ∙ ap (λ d. (convert_hold hold d).holds) after
            ∙ convert_hold-holds hold db (db.bookings ++ made ∷ []);
        space = record {
          same_seats =
              ap (λ (d : Db). d.seats) noted' ∙ kept.0.same_seats ∙ ap (λ (d : Db). d.seats) after;
          same_rooms =
              ap (λ (d : Db). d.rooms) noted' ∙ kept.0.same_rooms ∙ ap (λ (d : Db). d.rooms) after;
          same_venues =
              ap (λ (d : Db). d.venues) noted'
              ∙ kept.0.same_venues
              ∙ ap (λ (d : Db). d.venues) after;
        };
        ledgers = record {
          same_checkins =
              ap (λ (d : Db). d.checkins) noted'
              ∙ kept.1.same_checkins
              ∙ ap (λ (d : Db). d.checkins) after;
          same_transactions =
              ap (λ (d : Db). d.transactions) noted'
              ∙ kept.1.same_transactions
              ∙ ap (λ (d : Db). d.transactions) after;
        };
      },
    )

pub place_booking-Placed :
    (zones : ZoneInfo) (env : Env) (user_id : Uuid) (hold_id : Option Uuid)
    (start_time end_time : ℕ) (c : ResourceContext) (db : Db) {b : Booking} {db' : Db}
    → place_booking zones env user_id hold_id start_time end_time c db ≡ ok (b, db')
    → Placed zones env user_id hold_id start_time end_time c db b db'
unfolding place_booking
place_booking-Placed zones env user_id hold_id st en c db {b} {db'} e0 =
    let (window, validated, e1) =
      >>=-eq-ok (validate_booking_window zones env.window_now db c st en) _ e0 in
    let (hold, held, e2) = >>=-eq-ok (named_hold env.hold_now db hold_id user_id st en c) _ e1 in
    let (conflicts, loaded, e3) = >>=-eq-ok (load_conflicts env.conflicts_now db c st en) _ e2 in
    let (u, clear, e4) =
      >>=-eq-ok (check_conflicts conflicts.0 (filter_by (is_other_hold hold) conflicts.1) st en) _
        e3 in
    let (row, done) =
      commit_booking-Committed env user_id hold
        (booking_row env user_id hold c st en window.1 window.2) db e4 in
    record {
      window = window;
      hold = hold;
      bookings = conflicts.0;
      holds = conflicts.1;
      validated = validated;
      held = held;
      loaded = loaded;
      clear = clear;
      row = row;
      committed = subst (λ x. Committed hold db x db') (sym row) done;
    }

pub create_booking-Placed :
    (zones : ZoneInfo) (env : Env) (user_id : Uuid) (payload : BookingCreateRequest) (db : Db)
    {b : Booking} {db' : Db}
    → create_booking zones env user_id payload db ≡ ok (b, db')
    → (start_time end_time : ℕ) × (c : ResourceContext) × (ensure_utc payload.start_time
        ≡ ok start_time)
      × (ensure_utc payload.end_time ≡ ok end_time)
      × (resolve_resource db payload.level payload.seat_id payload.room_id payload.venue_id ≡ ok c)
      × Placed zones env user_id payload.hold_id start_time end_time c db b db'
unfolding create_booking
create_booking-Placed zones env user_id payload db e0 =
    let (st, starts, e1) = >>=-eq-ok (ensure_utc payload.start_time) _ e0 in
    let (en, ends, e2) = >>=-eq-ok (ensure_utc payload.end_time) _ e1 in
    let (c, resolved, e3) =
      >>=-eq-ok (resolve_resource db payload.level payload.seat_id payload.room_id payload.venue_id)
        _ e2 in
    (
      st,
      en,
      c,
      starts,
      ends,
      resolved,
      place_booking-Placed zones env user_id payload.hold_id st en c db e3,
    )
