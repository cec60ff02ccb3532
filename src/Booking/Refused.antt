-- ===== src/Booking/Refused.antt =====
-- app/services/booking.py, `create_booking`: the requests that it turns down for a conflict.
use desmobapp_backend.Prelude.{
  ℕ, ◌≡◌, refl, none, some, ok, err, In, any, any-true, Bool, true, booking_conflict, not_available,
}
use desmobapp_backend.Db.{Db, Uuid, Booking}
use desmobapp_backend.Time.{ZoneInfo, Env, ensure_utc}
use desmobapp_backend.Availability.{ResourceContext, resolve_resource, is_blocking, overlaps}
use desmobapp_backend.Availability.Complete.{load_conflicts-bookings}
use desmobapp_backend.Availability.Total.{load_conflicts-total}
use desmobapp_backend.Booking.Window.{validate_booking_window}
use desmobapp_backend.Booking.Create.{
  BookingCreateRequest, create_booking, place_booking, check_conflicts, named_hold,
}

-- Whatever its level and its seat, a request without a hold for a window that passes is refused with
-- a conflict if any blocking booking of its venue, be it of another seat, meets the window.
pub create_booking-refused :
    (zones : ZoneInfo) (env : Env) (user_id : Uuid) (payload : BookingCreateRequest) (db : Db)
    (st en : ℕ) (c : ResourceContext) (w : ℕ × ℕ × Bool) (b : Booking)
    → payload.hold_id ≡ none
    → ensure_utc payload.start_time ≡ ok st
    → ensure_utc payload.end_time ≡ ok en
    → resolve_resource db payload.level payload.seat_id payload.room_id payload.venue_id ≡ ok c
    → validate_booking_window zones env.window_now db c st en ≡ ok w
    → In b db.bookings
    → is_blocking b.status ≡ true
    → b.venue_id ≡ some c.venue_id
    → overlaps st en b.start_time b.end_time ≡ true
    → create_booking zones env user_id payload db ≡ err (booking_conflict not_available)
unfolding create_booking place_booking check_conflicts named_hold
create_booking-refused zones env user_id payload db st en c w b no_hold es ee er ew m blocks home
      hit =
    let (bookings, holds, loaded) =
      load_conflicts-total env.conflicts_now db payload.level payload.seat_id payload.room_id
        payload.venue_id c st en er in
    let found : In b bookings =
      load_conflicts-bookings env.conflicts_now db c st en bookings holds b loaded m blocks home
        hit in
    let taken : any (λ x. overlaps st en x.start_time x.end_time) bookings ≡ true =
      any-true _ bookings found hit in
    rw (es, ee, er, ew, no_hold, loaded, taken) refl
