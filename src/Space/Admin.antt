-- ===== src/Space/Admin.antt =====
-- app/services/space.py, `create_venue`.
use desmobapp_backend.Prelude.{
  ℕ, Bool, suc, ◌||◌, none, some, String, List, [], ◌∷◌, ◌++◌, Result, ok, any, find_first,
  raise_if, ◌>>=◌, ◌>>◌, integrity_error, ◌==◌,
}
use desmobapp_backend.Db.{Db, Uuid, Venue, Feature, FeatureLink, active}
use desmobapp_backend.Access.Texts.{text_eq}
use desmobapp_backend.Space.Codes.{Letters, feature_code}
use desmobapp_backend.Space.Views.{VenueFull, get_venue}

-- app/schemas/space.py
pub record VenueCreate : Type 0 where
  pub name : String
  pub address : String
  pub timezone : String
  pub features : List String

-- The identifiers that a request draws: of the venue, and of the feature and the link of each name.
pub record Draws : Type 0 where
  pub venue_id : Uuid
  pub feature_id : ℕ → Uuid
  pub link_id : ℕ → Uuid

abbrev pub venue_row : Draws → VenueCreate → Venue
venue_row draws payload = record {
  id = draws.venue_id;
  name = payload.name;
  address = payload.address;
  timezone = payload.timezone;
  status = active;
}

unfoldable pub insert_venue : Venue → Db → Result Db
insert_venue v db = do
  raise_if (any (λ r. r.id == v.id) db.venues) integrity_error
  ok (record db { venues = db.venues ++ v ∷ [] })

-- `features` has the unique columns `id` and `code`.
abbrev pub feature_clash : Feature → Feature → Bool
feature_clash r f = r.id == f.id || text_eq r.code f.code

unfoldable pub insert_feature : Feature → Db → Result Db
insert_feature f db = do
  raise_if (any (λ r. feature_clash r f) db.features) integrity_error
  ok (record db { features = db.features ++ f ∷ [] })

unfoldable pub insert_link : FeatureLink → Db → Result Db
insert_link l db = do
  raise_if (any (λ r. r.id == l.id) db.feature_links) integrity_error
  ok (record db { feature_links = db.feature_links ++ l ∷ [] })

module _ (letters : Letters) (draws : Draws) where
  abbrev pub feature_row : ℕ → String → Feature
  feature_row n name = record {
    id = draws.feature_id n;
    code = feature_code letters name;
    name = name;
    icon = none;
  }

  abbrev pub link_row : ℕ → Uuid → FeatureLink
  link_row n feature_id = record {
    id = draws.link_id n;
    feature_id = feature_id;
    venue_id = some draws.venue_id;
    room_id = none;
  }

  -- The feature with the code of a name, new if there is none.
  unfoldable pub feature_for : ℕ → String → Db → Result (Feature × Db)
  unfolding insert_feature
  feature_for n name db =
      elim (find_first (λ f. text_eq f.code (feature_code letters name)) db.features) [
        | some f ↦ ok (f, db)
        | none ↦ do added ← insert_feature (feature_row n name) db; ok (feature_row n name, added)
      ]

  -- The loop over the names, from the name with the number `n` on.
  unfoldable pub link_features : ℕ → List String → Db → Result Db
  unfolding feature_for insert_link
  link_features n [] db = ok db
  link_features n (name ∷ names) db = do
    (feature, found) ← feature_for n name db
    linked ← insert_link (link_row n feature.id) found
    link_features (suc n) names linked

  -- `create_venue`
  unfoldable pub create_venue : VenueCreate → Db → Result (VenueFull × Db)
  unfolding insert_venue link_features
  create_venue payload db = do
    added ← insert_venue (venue_row draws payload) db
    committed ← link_features 0 payload.features added
    shown ← get_venue letters draws.venue_id committed
    ok (shown, committed)
