-- ===== src/Tests/Places.antt =====
-- The sample house with a feature, a favorite and a booking, and what is shown of it.

use desmobapp_backend.Prelude.{
  ℕ, Error, ◌⊎◌, ◌≡◌, ◌↔◌, ◌≤◌, ◌<◌, ◌+◌, ◌*◌, refl, true, false, not, ◌&&◌, ◌||◌, none, some, List,
  [], ◌∷◌, ok, ◌==◌, any, IsUnique, update_where, find_first, filter_by, space_not_found,
  venue_missing, value_error, dates_swapped, integrity_error, In, arith,
}
use desmobapp_backend.Db.{Db, Uuid, Venue, Booking, pos}
use desmobapp_backend.Time.{Env, day}
use desmobapp_backend.Api.{success, failure}
use desmobapp_backend.Access.Texts.{text_eq}
use desmobapp_backend.Listing.{order_by, insert_by}
use desmobapp_backend.Space.{
  Letters, feature_code, sub_runs, strip_start, strip_end, join_features, append_name, group_names,
  get_feature_map, names_of, sorted, count_seats, workplaces, VenueListItem, venue_list_item,
  VenueQuery, is_subset, list_items, list_venues, VenueCreate, Draws, insert_venue, insert_feature,
  insert_link, feature_for, link_features, create_venue, get_venue, venues_endpoint,
  venue_details_endpoint, admin_create_venue_endpoint, create_favorite_venue, delete_favorite_venue,
  list_favorite_venues, get_favorites_endpoint, add_favorite_endpoint, insert_favorite,
  build_venue_list_items, venue_feature_map, venues_of, VenueFull,
}
use desmobapp_backend.Space.Matches.{IsMatch, venue_names, list_venues-IsMatch}
use desmobapp_backend.Space.Marked.{is_favorite, is_same, favorite_venues_set}
use desmobapp_backend.Analytics.{
  get_occupancy_analytics, capacity_units, booked_minutes, sum, occupancy_analytics_endpoint,
}
use desmobapp_backend.Analytics.Bounded.{minutes_of, get_occupancy_analytics-bounds}
use desmobapp_backend.Tests.Samples.{env, empty_db, booked_db, house, desk, other_desk}
use desmobapp_backend.Space.Laid.{Laid, seat_clash}
use desmobapp_backend.Space.Seated.{IsNamed}
use desmobapp_backend.Space.Taken.{named_alike, IsFlush}
use desmobapp_backend.Space.Updated.{Takes, admin_update_room_layout-Updated}
use desmobapp_backend.Space.{
  RoomFull, RoomLayoutUpdate, RoomLayoutSeatInput, changed_seat, new_seat, layout_writes,
  send_write, send_writes, update_room_layout, admin_update_room_layout_endpoint, get_room,
}

-- Letters that are small already, and patterns that match everything.
abbrev letters : Letters
letters = record {
  lower = λ text. text;
  strip = λ text. text;
  ilike = λ text pattern. true;
  may_precede = λ a b. true;
}

wifi_code : feature_code letters "--fast wi-fi!" ≡ "fast_wi_fi"
unfolding feature_code sub_runs strip_start strip_end
wifi_code = refl

no_code : feature_code letters "!?" ≡ "feature"
unfolding feature_code sub_runs strip_start strip_end
no_code = refl

abbrev draws : Draws
draws = record { venue_id = 90; feature_id = λ n. 91 + n; link_id = λ n. 95 + n }

abbrev loft : VenueCreate
loft = record { name = "Loft"; address = "Road"; timezone = "UTC"; features = "wi-fi" ∷ [] }

abbrev loft_shown : VenueFull
loft_shown = record {
  id = 90;
  name = "Loft";
  address = "Road";
  timezone = "UTC";
  features = "wi-fi" ∷ [];
  rooms = [];
}

-- A venue is created, with a feature that is new.
loft_created : (admin_create_venue_endpoint letters draws loft empty_db).0 ≡ success 201 loft_shown
unfolding admin_create_venue_endpoint create_venue insert_venue link_features feature_for
    insert_feature insert_link get_venue get_feature_map join_features group_names append_name
    names_of sorted order_by insert_by any find_first filter_by text_eq feature_code sub_runs
    strip_start strip_end
loft_created = refl

abbrev any_venue : VenueQuery
any_venue = record { q = some ""; location = none; capacity = some 2; features = none }

house_listed :
    venues_endpoint letters any_venue empty_db
    ≡ success 200 (venue_list_item [] empty_db house ∷ [])
unfolding venues_endpoint list_venues list_items is_subset names_of get_feature_map join_features
    group_names workplaces count_seats order_by insert_by filter_by
house_listed = refl

no_venue : venue_details_endpoint letters 5 empty_db ≡ failure 404 (space_not_found venue_missing)
unfolding venue_details_endpoint get_venue find_first
no_venue = refl

list_venues-IsMatch_example :
    In (venue_list_item [] empty_db house) (list_venues letters any_venue empty_db)
    ↔ (v : Venue) × IsMatch letters any_venue empty_db v
      × (venue_list_item [] empty_db house
          ≡ venue_list_item (venue_names letters any_venue empty_db v) empty_db v)
list_venues-IsMatch_example =
    list_venues-IsMatch letters any_venue empty_db (venue_list_item [] empty_db house)

house_found : find_first (λ (v : Venue). v.id == 1) empty_db.venues ≡ some house
unfolding find_first
house_found = refl

favorite_venues_set_example :
    ((items : List VenueListItem) × (db : Db) × (create_favorite_venue (env 20) 9 1 empty_db
        ≡ ok (items, db))
      × ((u v : Uuid) → is_favorite u v db ≡ is_favorite u v empty_db || is_same 9 1 u v)
      × ((later : Env) → create_favorite_venue later 9 1 db ≡ ok (items, db)))
    × ((u v : Uuid)
        → is_favorite u v (delete_favorite_venue 9 1 empty_db)
          ≡ is_favorite u v empty_db && not (is_same 9 1 u v))
favorite_venues_set_example = favorite_venues_set (env 20) 9 1 empty_db house house_found

-- A favorite is listed until it is removed.
favorite_shown :
    get_favorites_endpoint 9 (add_favorite_endpoint (env 20) 9 1 empty_db).1
    ≡ success 200 (venue_list_item [] empty_db house ∷ [])
unfolding get_favorites_endpoint add_favorite_endpoint create_favorite_venue insert_favorite
    list_favorite_venues build_venue_list_items venue_feature_map join_features group_names names_of
    venues_of order_by insert_by filter_by find_first any workplaces count_seats
favorite_shown = refl

get_occupancy_analytics-bounds_example :
    let response = get_occupancy_analytics 0 1 booked_db in
    (response.available ≡ capacity_units booked_db * minutes_of 0 1)
    × (1 ≤ capacity_units booked_db)
    × (0 < response.available)
    × (response.occupied ≤ response.available)
    × ((b : Booking) → booked_minutes (0 * day) ((1 + 1) * day) b ≤ minutes_of 0 1)
get_occupancy_analytics-bounds_example = get_occupancy_analytics-bounds 0 1 booked_db (omega arith)

-- One of two desks is booked for an hour of two days.
one_hour : (get_occupancy_analytics 0 1 booked_db).occupied ≡ 60
unfolding get_occupancy_analytics sum capacity_units filter_by
one_hour = refl

swapped : occupancy_analytics_endpoint 2 1 booked_db ≡ failure 400 (value_error dates_swapped)
unfolding occupancy_analytics_endpoint
swapped = refl

abbrev moved_desk : RoomLayoutSeatInput
moved_desk = record {
  id = some 3;
  label = "B1";
  grid_x = pos 4;
  grid_y = pos 0;
  seat_type = none;
  attributes = none;
  active = false;
}

abbrev third_desk : RoomLayoutSeatInput
third_desk = record moved_desk { id = none; label = "A3"; active = true }

abbrev layout : RoomLayoutUpdate
layout = record { allow_full_room_booking = some false; seats = third_desk ∷ moved_desk ∷ [] }

house_seats : IsUnique seat_clash empty_db.seats
unfolding any
house_seats = (refl, (refl, tt))

once_named : IsUnique named_alike layout.seats
unfolding any
once_named = (refl, (refl, tt))

-- A flush in the order of the requests.
in_order : IsFlush (λ ws. ws)
in_order = record { only = λ ws w m. m; every = λ ws w m. m; once = λ ws u. u }

admin_update_room_layout-Updated_example :
    let served =
      admin_update_room_layout_endpoint letters (λ n. 70 + n) (λ ws. ws) 2 layout empty_db in
    Laid 2 (IsNamed layout) empty_db.seats served.1.seats
    × (((status : ℕ) × (e : Error) × (served ≡ (failure status e, empty_db)))
        ⊎ ((shown : RoomFull) × (served.0 ≡ success 200 shown)
            × Takes 2 layout empty_db.seats served.1.seats))
admin_update_room_layout-Updated_example =
    admin_update_room_layout-Updated letters (λ n. 70 + n) (λ ws. ws) 2 layout empty_db in_order
      house_seats once_named

-- The other desk stays, the named one is moved, and one is new.
desks_laid_out :
    (admin_update_room_layout_endpoint letters (λ n. 70 + n) (λ ws. ws) 2 layout empty_db).1.seats
    ≡ changed_seat moved_desk desk ∷ other_desk ∷ new_seat (λ n. 70 + n) 2 0 third_desk ∷ []
unfolding admin_update_room_layout_endpoint update_room_layout layout_writes send_write send_writes
    get_room any find_first filter_by update_where text_eq get_feature_map join_features group_names
    append_name names_of sorted order_by insert_by
desks_laid_out = refl

-- A label that another seat of the room has is refused, with the whole request.
label_taken :
    admin_update_room_layout_endpoint letters
      (λ n. 70 + n)
      (λ ws. ws)
      2
      (record layout { seats = record third_desk { label = "A2" } ∷ [] })
      empty_db
    ≡ (failure 500 integrity_error, empty_db)
unfolding admin_update_room_layout_endpoint update_room_layout layout_writes send_write send_writes
    any find_first filter_by text_eq
label_taken = refl
