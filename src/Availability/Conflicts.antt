-- ===== src/Availability/Conflicts.antt =====
-- app/services/availability.py, lines 17-22, 42-43 and 122-183: the blocking statuses, the overlap of
-- two intervals and `_load_conflicts`.
use desmobapp_backend.Prelude.{
  ℕ, Bool, true, false, ◌&&◌, ◌||◌, Option, none, some, List, map, Result, ok, err, ◌>>=◌,
  assertion_error, any, filter_by, ltb, ◌==◌, sql_eq,
}
use desmobapp_backend.Db.{
  Db, Uuid, seat, room, venue, BookingStatus, confirmed, checked_in, hold_is_pending, Booking, Hold,
}
use desmobapp_backend.Availability.Resource.{ResourceContext}

-- `_overlaps`: the intervals share an instant, their ends excluded.
abbrev pub overlaps : ℕ → ℕ → ℕ → ℕ → Bool
overlaps slot_start slot_end range_start range_end =
    ltb slot_start range_end && ltb range_start slot_end

-- `BLOCKING_BOOKING_STATUSES`
abbrev pub is_blocking : BookingStatus → Bool
is_blocking BookingStatus.pending = true
is_blocking confirmed = true
is_blocking checked_in = true
is_blocking _ = false

-- A condition on the columns `venue_id`, `room_id` and `seat_id` of a booking or a hold.
abbrev pub ResourceFilter : Type 0
ResourceFilter = Option Uuid → Option Uuid → Option Uuid → Bool

-- `column.in_(ids)`
abbrev pub sql_in : Option Uuid → List Uuid → Bool
sql_in o ids = any (λ i. sql_eq o i) ids

seat_filter : Uuid → Option Uuid → Option Uuid → Result ResourceFilter
seat_filter v (some r) (some s) =
    ok (λ venue_id room_id seat_id. sql_eq seat_id s || sql_eq room_id r || sql_eq venue_id v)
seat_filter v _ _ = err assertion_error

room_filter : Db → Uuid → Option Uuid → Result ResourceFilter
room_filter db v none = err assertion_error
room_filter db v (some r) =
    let seat_ids = map (λ s. s.id) (filter_by (λ s. s.room_id == r) db.seats) in
    ok
      (λ venue_id room_id seat_id. sql_eq room_id r || sql_eq venue_id v || sql_in seat_id seat_ids)

venue_filter : Db → Uuid → ResourceFilter
venue_filter db v =
    let room_ids = map (λ r. r.id) (filter_by (λ r. r.venue_id == v) db.rooms) in
    let seat_ids = map (λ s. s.id) (filter_by (λ s. sql_in (some s.room_id) room_ids) db.seats) in
    λ venue_id room_id seat_id.
      sql_eq venue_id v || sql_in room_id room_ids || sql_in seat_id seat_ids

-- `booking_filter` and `hold_filter`, which are the same on the two tables.
unfoldable pub resource_filter : Db → ResourceContext → Result ResourceFilter
unfolding seat_filter room_filter venue_filter
resource_filter db c = elim c.level [
  | seat ↦ seat_filter c.venue_id c.room_id c.seat_id
  | room ↦ room_filter db c.venue_id c.room_id
  | venue ↦ ok (venue_filter db c.venue_id)
]

abbrev pub blocking_booking : ℕ → ℕ → Booking → Bool
blocking_booking range_start range_end b =
    is_blocking b.status && ltb b.start_time range_end && ltb range_start b.end_time

abbrev pub blocking_hold : ℕ → ℕ → ℕ → Hold → Bool
blocking_hold now range_start range_end h =
    hold_is_pending h.status
    && ltb now h.expires_at
    && ltb h.start_time range_end
    && ltb range_start h.end_time

-- `_load_conflicts`, at the time `now`.
unfoldable pub load_conflicts : ℕ → Db → ResourceContext → ℕ → ℕ → Result (List Booking × List Hold)
load_conflicts now db c range_start range_end = do
  matches ← resource_filter db c
  ok (
    filter_by
        (λ b. blocking_booking range_start range_end b && matches b.venue_id b.room_id b.seat_id)
        db.bookings,
    filter_by
        (λ h. blocking_hold now range_start range_end h && matches h.venue_id h.room_id h.seat_id)
        db.holds,
  )
