-- ===== src/Space/Features.antt =====
-- app/services/space.py, `_get_feature_map`, and app/services/favorite.py, `_build_venue_list_items`:
-- the names of features and the active seats of venues.
use Prim.Native.String.{compare}
use Prim.Native.Nat.{Ordering}
use desmobapp_backend.Prelude.{
  ℕ, ◌+◌, Bool, true, false, ◌&&◌, Option, none, some, String, List, [], ◌∷◌, ◌++◌, map, length,
  filter_by, any, ◌==◌, opt_eq, if◌then◌else◌,
}
use desmobapp_backend.Db.{Db, Uuid, Venue, Room, Seat, Feature, FeatureLink}
use desmobapp_backend.Listing.{order_by}

-- `x in ids`
abbrev pub in_ids : List Uuid → Uuid → Bool
in_ids ids i = any (λ j. j == i) ids

-- `column.in_(ids)`: a NULL is in no list.
abbrev pub sql_in : List Uuid → Option Uuid → Bool
sql_in ids none = false
sql_in ids (some i) = in_ids ids i

abbrev pub where_in : Option (List Uuid) → Option Uuid → Bool
where_in none o = true
where_in (some ids) o = sql_in ids o

-- `room_id or venue_id`
abbrev pub or_else : Option Uuid → Option Uuid → Option Uuid
or_else none o = o
or_else (some i) o = some i

-- `select(...).join(Feature, Feature.id == FeatureLink.feature_id)`: a key and a name for each link.
unfoldable pub join_features :
    (FeatureLink → Option Uuid) → List Feature → List FeatureLink → List (Option Uuid × String)
join_features key features [] = []
join_features key features (l ∷ links) =
    map (λ f. (key l, f.name)) (filter_by (λ f. f.id == l.feature_id) features)
    ++ join_features key features links

-- `feature_map.setdefault(key, []).append(name)`
unfoldable pub append_name :
    Option Uuid → String → List (Option Uuid × List String) → List (Option Uuid × List String)
append_name key name [] = (key, name ∷ []) ∷ []
append_name key name ((k, names) ∷ groups) =
    let rest = append_name key name groups in
    if opt_eq k key then (k, names ++ name ∷ []) ∷ groups else (k, names) ∷ rest

unfoldable pub group_names :
    List (Option Uuid × String)
    → List (Option Uuid × List String)
    → List (Option Uuid × List String)
unfolding append_name
group_names [] groups = groups
group_names ((key, name) ∷ rows) groups = group_names rows (append_name key name groups)

-- `_get_feature_map`
unfoldable pub get_feature_map :
    Option (List Uuid) → Option (List Uuid) → Db → List (Option Uuid × List String)
unfolding join_features group_names
get_feature_map venue_ids room_ids db =
    group_names
      (join_features (λ l. or_else l.room_id l.venue_id) db.features
        (filter_by (λ l. where_in venue_ids l.venue_id && where_in room_ids l.room_id)
          db.feature_links))
      []

-- `feature_map.get(str(i), [])`
unfoldable pub names_of : Uuid → List (Option Uuid × List String) → List String
names_of i [] = []
names_of i ((k, names) ∷ groups) =
    let rest = names_of i groups in if opt_eq k (some i) then names else rest

-- `a <= b` of two texts in Python.
abbrev pub text_le : String → String → Bool
text_le a b = elim (compare a b) [ Ordering.gt ↦ false | _ ↦ true ]

-- `sorted(names)`
unfoldable pub sorted : List String → List String
sorted names = order_by text_le names

-- `select(Room.venue_id, func.count(Seat.id)).join(...)`, grouped by the venue.
unfoldable pub count_seats : List Seat → List Room → ℕ
count_seats seats [] = 0
count_seats seats (r ∷ rooms) =
    length (filter_by (λ s. s.room_id == r.id && s.active) seats) + count_seats seats rooms

-- `seat_counts.get(venue.id, 0)`
unfoldable pub workplaces : Uuid → Db → ℕ
unfolding count_seats
workplaces venue_id db = count_seats db.seats (filter_by (λ r. r.venue_id == venue_id) db.rooms)

-- app/schemas/space.py
pub record VenueListItem : Type 0 where
  pub id : Uuid
  pub name : String
  pub address : String
  pub features : List String
  pub available_workplaces : ℕ

abbrev pub venue_list_item : List String → Db → Venue → VenueListItem
venue_list_item features db venue = record {
  id = venue.id;
  name = venue.name;
  address = venue.address;
  features = sorted features;
  available_workplaces = workplaces venue.id db;
}
