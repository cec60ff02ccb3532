-- ===== src/Db/Space.antt =====
-- app/db/models/space.py: places, their features, hours, rules and prices. The columns that no
-- modelled function reads or shows (the location of a venue, the status of a room, `updated_at`) are
-- left out.
use desmobapp_backend.Prelude.{ℕ, Bool, Option, String}

-- A UUID is only compared, so a number stands for it.
abbrev pub Uuid : Type 0
Uuid = ℕ

-- A number of an `Integer` column that is only stored and shown.
pub data ℤ : Type 0 where
  pos negsuc : ℕ → ℤ

pub data VenueStatus : Type 0 where
  draft active archived : VenueStatus

pub record Venue : Type 0 where
  pub id : Uuid
  pub name : String
  pub address : String
  pub timezone : String
  pub status : VenueStatus

pub record Room : Type 0 where
  pub id : Uuid
  pub venue_id : Uuid
  pub name : String
  pub allow_full_room_booking : Bool
  pub grid_width : Option ℤ
  pub grid_height : Option ℤ

-- `attributes` is the text of a JSON object.
pub record Seat : Type 0 where
  pub id : Uuid
  pub room_id : Uuid
  pub label : String
  pub grid_x : ℤ
  pub grid_y : ℤ
  pub seat_type : Option String
  pub attributes : Option String
  pub active : Bool

pub record Feature : Type 0 where
  pub id : Uuid
  pub code : String
  pub name : String
  pub icon : Option String

pub record FeatureLink : Type 0 where
  pub id : Uuid
  pub feature_id : Uuid
  pub venue_id : Option Uuid
  pub room_id : Option Uuid

-- A time of day is the number of microseconds since midnight.
pub record RoomHour : Type 0 where
  pub room_id : Uuid
  pub weekday : ℕ
  pub start_local_time : Option ℕ
  pub end_local_time : Option ℕ
  pub is_closed : Bool

-- A date is the number of days since 0001-01-01.
pub record Tariff : Type 0 where
  pub id : Uuid
  pub venue_id : Option Uuid
  pub room_id : Option Uuid
  pub seat_id : Option Uuid
  pub billing_unit : String
  pub price_amount_cents : ℤ
  pub currency : String
  pub active_from : Option ℕ
  pub active_to : Option ℕ
  pub archived_at : Option ℕ

pub record BookingRule : Type 0 where
  pub id : Uuid
  pub venue_id : Option Uuid
  pub room_id : Option Uuid
  pub min_duration_minutes : ℕ
  pub max_duration_minutes : ℕ
  pub max_advance_days : ℕ
  pub cancellation_deadline_minutes : ℕ
  pub requires_payment : Bool
  pub hold_ttl_seconds : ℕ
  pub checkin_open_before_minutes : ℕ
  pub geo_radius_meters : ℕ
  pub created_at : ℕ

-- app/db/models/access.py
pub record FavoriteVenue : Type 0 where
  pub user_id : Uuid
  pub venue_id : Uuid
  pub created_at : ℕ
