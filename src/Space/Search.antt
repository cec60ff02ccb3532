-- ===== src/Space/Search.antt =====
-- app/services/space.py, `list_venues`.
use Prim.Native.String.{String, ◌++◌ as ◌<>◌}
use desmobapp_backend.Prelude.{
  ℕ, Bool, true, false, not, ◌&&◌, ◌||◌, Option, none, some, List, [], ◌∷◌, map, filter_by, ltb,
  if◌then◌else◌,
}
use desmobapp_backend.Db.{Db, Uuid, Venue}
use desmobapp_backend.Listing.{order_by}
use desmobapp_backend.Access.Texts.{contains}
use desmobapp_backend.Space.Codes.{Letters, feature_code}
use desmobapp_backend.Space.Features.{
  get_feature_map, names_of, workplaces, VenueListItem, venue_list_item,
}

pub record VenueQuery : Type 0 where
  pub q : Option String
  pub location : Option String
  pub capacity : Option ℕ
  pub features : Option (List String)

-- `features or []`
abbrev pub or_empty : Option (List String) → List String
or_empty none = []
or_empty (some names) = names

-- `if text: ...`: an empty text asks for nothing.
abbrev pub if_given : (String → Bool) → Option String → Bool
if_given test none = true
if_given test (some String.[]) = true
if_given test (some (String.◌∷◌ c s)) = test (String.◌∷◌ c s)

-- `requested.issubset(codes)`
unfoldable pub is_subset : List String → List String → Bool
is_subset [] codes = true
is_subset (r ∷ requested) codes = contains codes r && is_subset requested codes

-- `capacity is not None and workplaces < capacity`
abbrev pub too_small : Option ℕ → ℕ → Bool
too_small none workplaces = false
too_small (some capacity) workplaces = ltb workplaces capacity

module _ (letters : Letters) where
  -- `f"%{text.strip()}%"`
  abbrev pub like : String → String → Bool
  like column text = letters.ilike column ("%" <> (letters.strip text <> "%"))

  abbrev pub text_matches : VenueQuery → Venue → Bool
  text_matches query venue =
      if_given (λ q. like venue.name q || like venue.address q) query.q
      && if_given (like venue.address) query.location

  abbrev pub has_features : VenueQuery → List String → Bool
  has_features query names =
      is_subset (map (feature_code letters) (or_empty query.features))
        (map (feature_code letters) names)

  -- The loop over the venues. A venue that lacks a requested feature, or is too small, is passed
  -- over; no request for features is met by every venue.
  unfoldable pub list_items :
      VenueQuery → Db → List (Option Uuid × List String) → List Venue → List VenueListItem
  list_items query db feature_map [] = []
  list_items query db feature_map (venue ∷ venues) =
      let rest = list_items query db feature_map venues in
      let names = names_of venue.id feature_map in
      if not (has_features query names)
      then rest
      else if too_small query.capacity (workplaces venue.id db)
      then rest
      else venue_list_item names db venue ∷ rest

  -- `order_by(Venue.name)`
  abbrev pub name_first : Venue → Venue → Bool
  name_first a b = letters.may_precede a.name b.name

  abbrev pub matching_venues : VenueQuery → Db → List Venue
  matching_venues query db = order_by name_first (filter_by (text_matches query) db.venues)

  -- `list_venues`
  unfoldable pub list_venues : VenueQuery → Db → List VenueListItem
  unfolding list_items
  list_venues query db =
      let venues = matching_venues query db in
      list_items query db (get_feature_map (some (map (λ v. v.id) venues)) none db) venues
