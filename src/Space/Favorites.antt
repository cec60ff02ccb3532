-- ===== src/Space/Favorites.antt =====
-- app/services/favorite.py and app/api/routes/favorites.py.
use desmobapp_backend.Prelude.{
  ℕ, Bool, not, ◌&&◌, Option, none, some, String, List, [], ◌∷◌, ◌++◌, map, filter_by, find_first,
  any, Result, ok, Error, or_raise, raise_if, ◌>>=◌, ◌>>◌, integrity_error, favorite_not_found,
  venue_missing, leb, ◌==◌,
}
use desmobapp_backend.Db.{Db, Uuid, Venue, FavoriteVenue}
use desmobapp_backend.Time.{Env}
use desmobapp_backend.Listing.{order_by}
use desmobapp_backend.Api.{Response, success, answer}
use desmobapp_backend.Space.Features.{
  sql_in, join_features, group_names, names_of, VenueListItem, venue_list_item,
}

-- The map of features of `_build_venue_list_items`.
unfoldable pub venue_feature_map : List Uuid → Db → List (Option Uuid × List String)
venue_feature_map ids db =
    group_names
      (join_features (λ l. l.venue_id) db.features
        (filter_by (λ l. sql_in ids l.venue_id) db.feature_links))
      []

-- `_build_venue_list_items`
unfoldable pub build_venue_list_items : Db → List Venue → List VenueListItem
unfolding venue_feature_map
build_venue_list_items db venues =
    let feature_map = venue_feature_map (map (λ v. v.id) venues) db in
    map (λ v. venue_list_item (names_of v.id feature_map) db v) venues

abbrev pub is_pair : Uuid → Uuid → FavoriteVenue → Bool
is_pair user_id venue_id f = f.user_id == user_id && f.venue_id == venue_id

-- `order_by(FavoriteVenue.created_at.desc())`
abbrev pub added_later : FavoriteVenue → FavoriteVenue → Bool
added_later a b = leb b.created_at a.created_at

-- The join of favorites with their venues.
unfoldable pub venues_of : List Venue → List FavoriteVenue → List Venue
venues_of venues [] = []
venues_of venues (f ∷ favorites) =
    filter_by (λ v. v.id == f.venue_id) venues ++ venues_of venues favorites

-- `list_favorite_venues`
unfoldable pub list_favorite_venues : Uuid → Db → List VenueListItem
unfolding build_venue_list_items venues_of
list_favorite_venues user_id db = build_venue_list_items db (
    venues_of db.venues (order_by added_later (filter_by (λ f. f.user_id == user_id) db.favorites)))

-- The primary key of `favorite_venues` is the pair.
unfoldable pub insert_favorite : FavoriteVenue → Db → Result Db
insert_favorite f db = do
  raise_if (any (is_pair f.user_id f.venue_id) db.favorites) integrity_error
  ok (record db { favorites = db.favorites ++ f ∷ [] })

abbrev pub save_favorite : Env → Uuid → Uuid → Db → Result Db
save_favorite env user_id venue_id db = elim (find_first (is_pair user_id venue_id) db.favorites) [
  | some f ↦ ok db
  | none ↦
      insert_favorite (record { user_id = user_id; venue_id = venue_id; created_at = env.db_now })
        db
]

-- `create_favorite_venue`, which answers with the list of the one item.
unfoldable pub create_favorite_venue : Env → Uuid → Uuid → Db → Result (List VenueListItem × Db)
unfolding insert_favorite build_venue_list_items
create_favorite_venue env user_id venue_id db = do
  venue ← or_raise (find_first (λ v. v.id == venue_id) db.venues) (favorite_not_found venue_missing)
  saved ← save_favorite env user_id venue_id db
  ok (build_venue_list_items saved (venue ∷ []), saved)

-- `delete_favorite_venue`
unfoldable pub delete_favorite_venue : Uuid → Uuid → Db → Db
delete_favorite_venue user_id venue_id db =
    elim (find_first (is_pair user_id venue_id) db.favorites) [
      | none ↦ db
      | some f ↦ record db {
        favorites = filter_by (λ r. not (is_pair f.user_id f.venue_id r)) db.favorites;
      }
    ]

abbrev pub favorite_code : Error → ℕ
favorite_code (favorite_not_found _) = 404
favorite_code _ = 500

unfoldable pub add_favorite_endpoint : Env → Uuid → Uuid → Db → Response (List VenueListItem) × Db
add_favorite_endpoint env user_id venue_id db =
    answer 201 favorite_code db (create_favorite_venue env user_id venue_id db)

unfoldable pub get_favorites_endpoint : Uuid → Db → Response (List VenueListItem)
get_favorites_endpoint user_id db = success 200 (list_favorite_venues user_id db)

unfoldable pub remove_favorite_endpoint : Uuid → Uuid → Db → Response (Unit {0}) × Db
remove_favorite_endpoint user_id venue_id db =
    (success 204 tt, delete_favorite_venue user_id venue_id db)
