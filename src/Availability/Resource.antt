-- ===== src/Availability/Resource.antt =====
-- app/services/availability.py, lines 15-16 and 33-119: the resource of a request, its booking rule and its
-- opening hours on a day.
use desmobapp_backend.Prelude.{
  ℕ, ◌&&◌, Option, none, some, String, Result, ok, err, ◌>>=◌, or_raise, find_first, ◌==◌, sql_eq,
  if◌then◌else◌, availability_validation, availability_not_found, only_seat_id, only_room_id,
  only_venue_id, seat_missing, seat_broken, room_missing, room_broken, venue_missing,
}
use desmobapp_backend.Db.{
  Db, Uuid, BookingLevel, seat, room, venue, Venue, Room, Seat, RoomHour, BookingRule,
}
use desmobapp_backend.Time.{weekday}

abbrev pub default_open_time : ℕ
default_open_time = 0

-- 23:59
abbrev pub default_close_time : ℕ
default_close_time = 86_340_000_000

pub record ResourceContext : Type 0 where
  pub level : BookingLevel
  pub venue_id : Uuid
  pub room_id : Option Uuid
  pub seat_id : Option Uuid
  pub timezone : String

-- `session.get(Venue, id)`, and so for the other two.
abbrev pub get_venue : Db → Uuid → Option Venue
get_venue db i = find_first (λ r. r.id == i) db.venues

abbrev pub get_room : Db → Uuid → Option Room
get_room db i = find_first (λ r. r.id == i) db.rooms

abbrev pub get_seat : Db → Uuid → Option Seat
get_seat db i = find_first (λ r. r.id == i) db.seats

resolve_seat : Db → Uuid → Result ResourceContext
resolve_seat db i = do
  s ← or_raise (get_seat db i) (availability_not_found seat_missing)
  r ← or_raise (get_room db s.room_id) (availability_not_found seat_broken)
  v ← or_raise (get_venue db r.venue_id) (availability_not_found seat_broken)
  ok (record {
    level = seat;
    venue_id = v.id;
    room_id = some r.id;
    seat_id = some s.id;
    timezone = v.timezone;
  })

resolve_room : Db → Uuid → Result ResourceContext
resolve_room db i = do
  r ← or_raise (get_room db i) (availability_not_found room_missing)
  v ← or_raise (get_venue db r.venue_id) (availability_not_found room_broken)
  ok (record {
    level = room;
    venue_id = v.id;
    room_id = some r.id;
    seat_id = none;
    timezone = v.timezone;
  })

resolve_venue : Db → Uuid → Result ResourceContext
resolve_venue db i = do
  v ← or_raise (get_venue db i) (availability_not_found venue_missing)
  ok (record {
    level = venue;
    venue_id = v.id;
    room_id = none;
    seat_id = none;
    timezone = v.timezone;
  })

-- `_resolve_resource`: the identifier of the level must be given, and no other.
unfoldable pub resolve_resource :
    Db → BookingLevel → Option Uuid → Option Uuid → Option Uuid → Result ResourceContext
unfolding resolve_seat resolve_room resolve_venue
resolve_resource db seat (some s) none none = resolve_seat db s
resolve_resource db seat _ _ _ = err (availability_validation only_seat_id)
resolve_resource db room none (some r) none = resolve_room db r
resolve_resource db room _ _ _ = err (availability_validation only_room_id)
resolve_resource db venue none none (some v) = resolve_venue db v
resolve_resource db venue _ _ _ = err (availability_validation only_venue_id)

abbrev pub room_rule : Db → Option Uuid → Option BookingRule
room_rule db none = none
room_rule db (some r) = find_first (λ b. sql_eq b.room_id r) db.booking_rules

abbrev pub or_else {ℓ} : {A : Type ℓ} → Option A → Option A → Option A
or_else (some a) d = some a
or_else none d = d

-- `_resolve_booking_rule`: a room's own rule comes before its venue's.
unfoldable pub resolve_booking_rule : Db → ResourceContext → Option BookingRule
resolve_booking_rule db c =
    or_else
      (elim c.level [
        | seat ↦ room_rule db c.room_id
        | room ↦ room_rule db c.room_id
        | venue ↦ none
      ])
      (find_first (λ b. sql_eq b.venue_id c.venue_id) db.booking_rules)

abbrev pub or_default : Option ℕ → ℕ → ℕ
or_default none d = d
or_default (some t) d = t

hours_of : Option RoomHour → Option (ℕ × ℕ)
hours_of none = some (default_open_time, default_close_time)
hours_of (some h) =
    if h.is_closed
    then none
    else some (
      or_default h.start_local_time default_open_time,
      or_default h.end_local_time default_close_time,
    )

room_hours : Db → ℕ → Option Uuid → Option (ℕ × ℕ)
unfolding hours_of
room_hours db date none = some (default_open_time, default_close_time)
room_hours db date (some r) =
    hours_of (find_first (λ h. h.room_id == r && h.weekday == weekday date) db.room_hours)

-- `_resolve_operating_hours`: `none` is a closed day.
unfoldable pub resolve_operating_hours : Db → ResourceContext → ℕ → Option (ℕ × ℕ)
unfolding room_hours
resolve_operating_hours db c date = room_hours db date c.room_id
