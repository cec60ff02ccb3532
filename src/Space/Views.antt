-- ===== src/Space/Views.antt =====
-- app/services/space.py: the reads of one venue, one room, the features, hours, tariffs and rules. A
-- seat, a feature, an hour, a tariff and a rule are shown by their rows.
use desmobapp_backend.Prelude.{
  Bool, true, false, ◌&&◌, ◌||◌, Option, none, some, String, List, [], ◌∷◌, map, filter_by,
  find_first, Result, ok, or_raise, raise_if, ◌>>=◌, ◌>>◌, space_not_found, value_error,
  venue_missing, room_missing, rule_missing, bad_scope, venue_id_required, room_id_required, ltb,
  leb, sql_eq, ◌==◌, not,
}
use desmobapp_backend.Db.{Db, Uuid, ℤ, Venue, Room, Seat, Feature, RoomHour, Tariff, BookingRule}
use desmobapp_backend.Listing.{order_by}
use desmobapp_backend.Access.Texts.{text_eq}
use desmobapp_backend.Space.Codes.{Letters}
use desmobapp_backend.Space.Features.{get_feature_map, names_of, sorted}

-- app/schemas/space.py
pub record RoomBrief : Type 0 where
  pub id : Uuid
  pub name : String
  pub allow_full_room_booking : Bool
  pub features : List String

pub record RoomFull : Type 0 where
  pub brief : RoomBrief
  pub grid_width : Option ℤ
  pub grid_height : Option ℤ
  pub seats : List Seat

-- `location` is an empty point in every answer.
pub record VenueFull : Type 0 where
  pub id : Uuid
  pub name : String
  pub address : String
  pub timezone : String
  pub features : List String
  pub rooms : List RoomBrief

abbrev pub find_venue : Uuid → Db → Result Venue
find_venue venue_id db =
    or_raise (find_first (λ v. v.id == venue_id) db.venues) (space_not_found venue_missing)

abbrev pub find_room : Uuid → Db → Result Room
find_room room_id db =
    or_raise (find_first (λ r. r.id == room_id) db.rooms) (space_not_found room_missing)

abbrev pub room_brief : List (Option Uuid × List String) → Room → RoomBrief
room_brief feature_map room = record {
  id = room.id;
  name = room.name;
  allow_full_room_booking = room.allow_full_room_booking;
  features = sorted (names_of room.id feature_map);
}

-- `(TariffA.active_from.desc().nullslast(), Tariff.id)`
abbrev pub tariff_first : Tariff → Tariff → Bool
tariff_first a b = elim a.active_from [
  | none ↦ elim b.active_from [ none ↦ leb a.id b.id | some d ↦ false ]
  | some c ↦ elim b.active_from [ none ↦ true | some d ↦ ltb d c || (c == d && leb a.id b.id) ]
]

-- `if venue_id is not None: stmt = stmt.where(column == venue_id)`
abbrev pub if_asked : Option Uuid → Option Uuid → Bool
if_asked none column = true
if_asked (some i) column = sql_eq column i

-- `list_tariffs`
unfoldable pub list_tariffs : Option Uuid → Option Uuid → Option Uuid → Db → List Tariff
list_tariffs venue_id room_id seat_id db = order_by tariff_first (
    filter_by
      (λ t.
        if_asked venue_id t.venue_id && if_asked room_id t.room_id && if_asked seat_id t.seat_id)
      db.tariffs)

-- `BookingRule.created_at.desc()`
abbrev pub newer_rule : BookingRule → BookingRule → Bool
newer_rule a b = leb b.created_at a.created_at

abbrev pub is_null : Option Uuid → Bool
is_null none = true
is_null (some i) = false

-- The column `= NULL` of a missing identifier selects nothing.
abbrev pub sql_same : Option Uuid → Option Uuid → Bool
sql_same column none = false
sql_same column (some i) = sql_eq column i

abbrev pub in_scope : Bool → Option Uuid → Option Uuid → BookingRule → Bool
in_scope true venue_id room_id rule = sql_same rule.venue_id venue_id && is_null rule.room_id
in_scope false venue_id room_id rule = sql_same rule.room_id room_id

-- `get_booking_rule`
unfoldable pub get_booking_rule : String → Option Uuid → Option Uuid → Db → Result BookingRule
get_booking_rule scope venue_id room_id db = do
  raise_if (not (text_eq scope "venue" || text_eq scope "room")) (value_error bad_scope)
  raise_if (text_eq scope "venue" && is_null venue_id) (value_error venue_id_required)
  raise_if (text_eq scope "room" && is_null room_id) (value_error room_id_required)
  or_raise
      (find_first (λ r. true)
        (order_by newer_rule
          (filter_by (in_scope (text_eq scope "venue") venue_id room_id) db.booking_rules)))
      (space_not_found rule_missing)

-- `order_by(RoomHour.weekday)`
abbrev pub weekday_first : RoomHour → RoomHour → Bool
weekday_first a b = leb a.weekday b.weekday

-- `get_room_hours`
unfoldable pub get_room_hours : Uuid → Db → Result (List RoomHour)
get_room_hours room_id db = do
  room ← find_room room_id db
  ok (order_by weekday_first (filter_by (λ h. h.room_id == room_id) db.room_hours))

module _ (letters : Letters) where
  -- `order_by(Room.name)`, of the rooms of a venue.
  abbrev pub rooms_of : Uuid → Db → List Room
  rooms_of venue_id db =
      order_by (λ a b. letters.may_precede a.name b.name)
        (filter_by (λ r. r.venue_id == venue_id) db.rooms)

  -- `_get_feature_map(session, room_ids=...)`, where there are rooms.
  abbrev pub room_briefs : List Room → Db → List RoomBrief
  room_briefs rooms db =
      map (room_brief (get_feature_map none (some (map (λ r. r.id) rooms)) db)) rooms

  -- `get_venue`
  unfoldable pub get_venue : Uuid → Db → Result VenueFull
  get_venue venue_id db = do
    venue ← find_venue venue_id db
    ok (record {
      id = venue.id;
      name = venue.name;
      address = venue.address;
      timezone = venue.timezone;
      features = sorted (names_of venue.id (get_feature_map (some (venue_id ∷ [])) none db));
      rooms = room_briefs (rooms_of venue_id db) db;
    })

  -- `get_rooms_by_venue`
  unfoldable pub get_rooms_by_venue : Uuid → Db → Result (List RoomBrief)
  get_rooms_by_venue venue_id db = do
    venue ← find_venue venue_id db
    ok (room_briefs (rooms_of venue_id db) db)

  -- `order_by(Seat.label)`, of the seats of a room.
  abbrev pub seats_of : Uuid → Db → List Seat
  seats_of room_id db =
      order_by (λ a b. letters.may_precede a.label b.label)
        (filter_by (λ s. s.room_id == room_id) db.seats)

  -- `get_seats_by_room`
  unfoldable pub get_seats_by_room : Uuid → Db → Result (List Seat)
  get_seats_by_room room_id db = do room ← find_room room_id db; ok (seats_of room_id db)

  -- `get_room`
  unfoldable pub get_room : Uuid → Db → Result RoomFull
  unfolding get_seats_by_room
  get_room room_id db = do
    room ← find_room room_id db
    seats ← get_seats_by_room room_id db
    ok (record {
      brief = room_brief (get_feature_map none (some (room.id ∷ [])) db) room;
      grid_width = room.grid_width;
      grid_height = room.grid_height;
      seats = seats;
    })

  -- `list_features`
  unfoldable pub list_features : Db → List Feature
  list_features db = order_by (λ a b. letters.may_precede a.name b.name) db.features
