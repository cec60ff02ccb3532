-- ===== src/Space/Routes.antt =====
-- app/api/routes/space.py.
use desmobapp_backend.Prelude.{ℕ, Option, String, List, Error, space_not_found, value_error}
use desmobapp_backend.Db.{Db, Uuid, Seat, Feature, RoomHour, Tariff, BookingRule}
use desmobapp_backend.Api.{Response, success, answer, answer_read}
use desmobapp_backend.Space.Codes.{Letters}
use desmobapp_backend.Space.Features.{VenueListItem}
use desmobapp_backend.Space.Search.{VenueQuery, list_venues}
use desmobapp_backend.Space.Views.{
  RoomBrief, RoomFull, VenueFull, get_venue, get_rooms_by_venue, get_seats_by_room, get_room,
  list_features, get_room_hours, list_tariffs, get_booking_rule,
}
use desmobapp_backend.Space.Admin.{VenueCreate, Draws, create_venue}
use desmobapp_backend.Space.Layout.{RoomLayoutUpdate, LayoutWrite, update_room_layout}

abbrev pub space_code : Error → ℕ
space_code (space_not_found _) = 404
space_code _ = 500

abbrev pub rule_code : Error → ℕ
rule_code (value_error _) = 400
rule_code (space_not_found _) = 404
rule_code _ = 500

abbrev pub unhandled_code : Error → ℕ
unhandled_code _ = 500

unfoldable pub room_hours_endpoint : Uuid → Db → Response (List RoomHour)
room_hours_endpoint room_id db = answer_read space_code (get_room_hours room_id db)

unfoldable pub tariffs_endpoint :
    Option Uuid → Option Uuid → Option Uuid → Db → Response (List Tariff)
tariffs_endpoint venue_id room_id seat_id db =
    success 200 (list_tariffs venue_id room_id seat_id db)

unfoldable pub booking_rule_endpoint :
    String → Option Uuid → Option Uuid → Db → Response BookingRule
booking_rule_endpoint scope venue_id room_id db =
    answer_read rule_code (get_booking_rule scope venue_id room_id db)

module _ (letters : Letters) where
  unfoldable pub venues_endpoint : VenueQuery → Db → Response (List VenueListItem)
  venues_endpoint query db = success 200 (list_venues letters query db)

  unfoldable pub venue_details_endpoint : Uuid → Db → Response VenueFull
  venue_details_endpoint venue_id db = answer_read space_code (get_venue letters venue_id db)

  unfoldable pub venue_rooms_endpoint : Uuid → Db → Response (List RoomBrief)
  venue_rooms_endpoint venue_id db = answer_read space_code (get_rooms_by_venue letters venue_id db)

  unfoldable pub room_seats_endpoint : Uuid → Db → Response (List Seat)
  room_seats_endpoint room_id db = answer_read space_code (get_seats_by_room letters room_id db)

  unfoldable pub room_details_endpoint : Uuid → Db → Response RoomFull
  room_details_endpoint room_id db = answer_read space_code (get_room letters room_id db)

  unfoldable pub features_endpoint : Db → Response (List Feature)
  features_endpoint db = success 200 (list_features letters db)

  -- The route asks for the permission `venues.update` first.
  unfoldable pub admin_create_venue_endpoint : Draws → VenueCreate → Db → Response VenueFull × Db
  admin_create_venue_endpoint draws payload db =
      answer 201 unhandled_code db (create_venue letters draws payload db)

  -- The route asks for the permission `rooms.update` first.
  unfoldable pub admin_update_room_layout_endpoint :
      (ℕ → Uuid)
      → (List LayoutWrite → List LayoutWrite)
      → Uuid
      → RoomLayoutUpdate
      → Db
      → Response RoomFull × Db
  admin_update_room_layout_endpoint seat_ids flush room_id payload db =
      answer 200 space_code db (update_room_layout seat_ids room_id letters flush payload db)
