-- ===== src/Booking/Accepted.antt =====
-- app/services/booking.py, `create_booking`: the requests that it grants.
use desmobapp_backend.Prelude.{
  Option, ℕ, ◌<◌, ◌≡◌, refl, Bool, true, false, List, In, here, there, ◌&&◌, >>=-eq-ok, arith, ◌==◌,
  none, [], ◌∷◌, ◌++◌, ok, any, filter_by,
}
use desmobapp_backend.Db.{
  Db, Uuid, BookingLevel, Hold, hold_is_pending, Booking, booking_level, insert_booking, push,
  insert_notification,
}
use desmobapp_backend.Time.{ZoneInfo, Env, ensure_utc}
use desmobapp_backend.Notification.{create_notification_record, notification_row}
use desmobapp_backend.Availability.{
  ResourceContext, resource_filter, is_blocking, overlaps, blocking_booking, blocking_hold,
  resolve_resource, load_conflicts, resolve_booking_rule,
}
use desmobapp_backend.Booking.Window.{rule_requires_payment}
use desmobapp_backend.Booking.Create.{
  BookingCreateRequest, create_booking, place_booking, commit_booking, check_conflicts, named_hold,
  booking_row, convert_hold,
}
use desmobapp_backend.Availability.Total.{load_conflicts-total}
use desmobapp_backend.Availability.Elsewhere.{IsElsewhere, resolve_resource-Skips}
use desmobapp_backend.Booking.Added.{Added, create_booking-Added}
use desmobapp_backend.Booking.Allowed.{IsAllowed, IsAllowed-validate}

-- The identifiers that the request draws are unused.
pub record DrawsUnused (env : Env) (db : Db) : Type 0 where
  pub booking_unused : any (λ r. r.id == env.new_id) db.bookings ≡ false
  pub notification_unused : any (λ r. r.id == env.notification_id) db.notifications ≡ false

abbrev pub granted_row : Env → Uuid → ResourceContext → ℕ → ℕ → Db → Booking
granted_row env user_id c start_time end_time db =
    booking_row env user_id none c start_time end_time 0
      (rule_requires_payment (resolve_booking_rule db c))

abbrev pub granted_db : Env → Uuid → Booking → Db → Db
granted_db env user_id b db = record db {
  bookings = db.bookings ++ b ∷ [];
  notifications =
      db.notifications
      ++ notification_row env push user_id "booking_created" (booking_level b.id b.level) ∷ [];
}

commit_row :
    (env : Env) (user_id : Uuid) (c : ResourceContext) (st en : ℕ) (db : Db)
    → DrawsUnused env db
    → commit_booking env user_id none (granted_row env user_id c st en db) db
      ≡ ok (
        granted_row env user_id c st en db,
        granted_db env user_id (granted_row env user_id c st en db) db,
      )
unfolding commit_booking insert_booking convert_hold create_notification_record insert_notification
    booking_row
commit_row env user_id c st en db u = rw (u.booking_unused, u.notification_unused) refl

-- Nothing is in the way of a window in the venue: a blocking booking or an active hold that shares an
-- instant with it is for a place of another venue.
pub record IsVacant (now : ℕ) (db : Db) (w : Uuid) (st en : ℕ) : Type 0 where
  pub bookings :
      (b : Booking)
      → In b db.bookings
      → is_blocking b.status ≡ true
      → overlaps st en b.start_time b.end_time ≡ true
      → IsElsewhere db w b.venue_id b.room_id b.seat_id
  pub holds :
      (h : Hold)
      → In h db.holds
      → hold_is_pending h.status ≡ true
      → now < h.expires_at
      → overlaps st en h.start_time h.end_time ≡ true
      → IsElsewhere db w h.venue_id h.room_id h.seat_id

filter_by-none {ℓ} :
    {A : Type ℓ} (test : A → Bool) (xs : List A)
    → ((x : A) → In x xs → test x ≡ false)
    → filter_by test xs ≡ []
unfolding filter_by
filter_by-none test [] h = refl
filter_by-none test (x ∷ xs) h =
    rw (h x (here refl)) (filter_by-none test xs (λ y m. h y (there m)))

miss_booking :
    (rs re : ℕ) (b : Booking) (m : Bool)
    → (is_blocking b.status ≡ true → overlaps rs re b.start_time b.end_time ≡ true → m ≡ false)
    → (blocking_booking rs re b && m) ≡ false
miss_booking rs re b m h = ground (arith, h)

miss_hold :
    (now rs re : ℕ) (b : Hold) (m : Bool)
    → (hold_is_pending b.status ≡ true
        → now < b.expires_at
        → overlaps rs re b.start_time b.end_time ≡ true
        → m ≡ false)
    → (blocking_hold now rs re b && m) ≡ false
miss_hold now rs re b m h = ground (arith, h)

IsVacant-load_conflicts :
    (now : ℕ) (db : Db) (level : BookingLevel) (seat_id room_id venue_id : Option Uuid)
    (c : ResourceContext) (st en : ℕ)
    → resolve_resource db level seat_id room_id venue_id ≡ ok c
    → IsVacant now db c.venue_id st en
    → load_conflicts now db c st en ≡ ok ([], [])
unfolding load_conflicts
IsVacant-load_conflicts now db level seat_id room_id venue_id c st en resolved h =
    let (bookings, holds, e) =
      load_conflicts-total now db level seat_id room_id venue_id c st en resolved in
    let (matches, found, k) = >>=-eq-ok (resource_filter db c) _ e in
    let skips = resolve_resource-Skips db level seat_id room_id venue_id resolved matches in
    let no_booking =
      filter_by-none (λ b. blocking_booking st en b && matches b.venue_id b.room_id b.seat_id)
        db.bookings
        (λ b m.
          miss_booking st en b (matches b.venue_id b.room_id b.seat_id)
            (λ blocks o. skips b.venue_id b.room_id b.seat_id found (h.bookings b m blocks o))) in
    let no_hold =
      filter_by-none (λ x. blocking_hold now st en x && matches x.venue_id x.room_id x.seat_id)
        db.holds
        (λ x m. miss_hold now st en x (matches x.venue_id x.room_id x.seat_id) (λ pending active o.
          skips x.venue_id x.room_id x.seat_id found (h.holds x m pending active o))) in
    rw (found, no_booking, no_hold) refl

create_booking_clear :
    (zones : ZoneInfo) (env : Env) (user_id : Uuid) (payload : BookingCreateRequest) (db : Db)
    (st en : ℕ) (c : ResourceContext)
    → payload.hold_id ≡ none
    → ensure_utc payload.start_time ≡ ok st
    → ensure_utc payload.end_time ≡ ok en
    → resolve_resource db payload.level payload.seat_id payload.room_id payload.venue_id ≡ ok c
    → IsAllowed zones env.window_now db c st en
    → load_conflicts env.conflicts_now db c st en ≡ ok ([], [])
    → DrawsUnused env db
    → create_booking zones env user_id payload db
      ≡ ok (
        granted_row env user_id c st en db,
        granted_db env user_id (granted_row env user_id c st en db) db,
      )
unfolding create_booking place_booking check_conflicts named_hold any filter_by
create_booking_clear zones env user_id payload db st en c no_hold es ee er allowed clear u =
    rw (es, ee, er, IsAllowed-validate zones env.window_now db c st en allowed, no_hold, clear)
      (commit_row env user_id c st en db u)

-- A request without a hold, for a resource that is there and a window that it allows, and with unused
-- draws of identifiers, is granted if every blocking booking and every active hold that shares an
-- instant with the window is for a place of another venue: the row added is the caller's, for the
-- place and the window of the request, pending or confirmed as the rule has it, and nothing else is
-- added but its notification.
pub create_booking-granted :
    (zones : ZoneInfo) (env : Env) (user_id : Uuid) (payload : BookingCreateRequest) (db : Db)
    (st en : ℕ) (c : ResourceContext)
    → payload.hold_id ≡ none
    → ensure_utc payload.start_time ≡ ok st
    → ensure_utc payload.end_time ≡ ok en
    → resolve_resource db payload.level payload.seat_id payload.room_id payload.venue_id ≡ ok c
    → IsAllowed zones env.window_now db c st en
    → IsVacant env.conflicts_now db c.venue_id st en
    → DrawsUnused env db
    → (b : Booking) × (create_booking zones env user_id payload db
        ≡ ok (b, granted_db env user_id b db))
      × Added zones env user_id payload db b (granted_db env user_id b db)
create_booking-granted zones env user_id payload db st en c no_hold es ee er allowed vacant u =
    let clear =
      IsVacant-load_conflicts env.conflicts_now db payload.level payload.seat_id payload.room_id
        payload.venue_id c st en er vacant in
    let done =
      create_booking_clear zones env user_id payload db st en c no_hold es ee er allowed clear u in
    (
      granted_row env user_id c st en db,
      done,
      create_booking-Added zones env user_id payload db done,
    )
