-- ===== src/Space/Matches.antt =====
-- app/services/space.py, `list_venues`: which venues it lists.
use desmobapp_backend.Prelude.{
  ◌≡◌, ◌↔◌, refl, sym, ◌∙◌, ap, subst, true, false, none, some, String, List, [], ◌∷◌, map, In-map,
  map-In, In, here, there, In-filter_by, filter_by-In, Bool-cases, inl, inr, &&-true,
}
use desmobapp_backend.Db.{Db, Uuid, Venue}
use desmobapp_backend.Access.Texts.{contains, contains-true, contains-In}
use desmobapp_backend.Listing.{order_by-In, In-order_by}
use desmobapp_backend.Space.{
  Letters, feature_code, get_feature_map, names_of, workplaces, VenueListItem, venue_list_item,
  VenueQuery, or_empty, is_subset, too_small, text_matches, has_features, name_first, list_items,
  matching_venues, list_venues,
}
use desmobapp_backend.Space.Linked.{IsLinked, names_of-IsLinked}

is_subset-In :
    (requested codes : List String)
    → is_subset requested codes ≡ true
    → (r : String) → In r requested
    → In r codes
unfolding is_subset
is_subset-In [] codes h r m = elim m [ ]
is_subset-In (x ∷ requested) codes h r (here e) =
    let (a, b) = &&-true (contains codes x) (is_subset requested codes) h in
    subst (λ y. In y codes) (sym e) (contains-In codes a)
is_subset-In (x ∷ requested) codes h r (there m) =
    let (a, b) = &&-true (contains codes x) (is_subset requested codes) h in
    is_subset-In requested codes b r m

In-is_subset :
    (requested codes : List String)
    → ((r : String) → In r requested → In r codes)
    → is_subset requested codes ≡ true
unfolding is_subset
In-is_subset [] codes k = refl
In-is_subset (x ∷ requested) codes k =
    rw (contains-true codes (k x (here refl))) (In-is_subset requested codes (λ r m. k r (there m)))

module _ (letters : Letters) (query : VenueQuery) (db : Db) where
  -- The identifiers of the venues whose texts match.
  abbrev pub matching_ids : List Uuid
  matching_ids = map (λ (v : Venue). v.id) (matching_venues letters query db)

  abbrev pub venue_names : Venue → List String
  venue_names v = names_of v.id (get_feature_map (some matching_ids) none db)

  -- What it takes to be listed: the texts match, for each requested feature one is linked to
  -- the venue that has the same code, and the active seats are enough.
  pub record IsMatch (v : Venue) : Type 0 where
    pub present : In v db.venues
    pub texts : text_matches letters query v ≡ true
    pub features :
        (name : String)
        → In name (or_empty query.features)
        → (n : String) × IsLinked matching_ids db v.id n
          × (feature_code letters n ≡ feature_code letters name)
    pub places : too_small query.capacity (workplaces v.id db) ≡ false

  features-to :
      (v : Venue)
      → has_features letters query (venue_names v) ≡ true
      → (name : String) → In name (or_empty query.features)
      → (n : String) × IsLinked matching_ids db v.id n
        × (feature_code letters n ≡ feature_code letters name)
  features-to v h name m =
      let code =
        is_subset-In (map (feature_code letters) (or_empty query.features))
          (map (feature_code letters) (venue_names v)) h (feature_code letters name)
          (In-map (feature_code letters) (or_empty query.features) m) in
      let (n, j, e) = map-In (feature_code letters) (venue_names v) code in
      (n, (names_of-IsLinked matching_ids db v.id n).0 j, sym e)

  features-from : (v : Venue) → IsMatch v → has_features letters query (venue_names v) ≡ true
  features-from v h =
      In-is_subset (map (feature_code letters) (or_empty query.features))
        (map (feature_code letters) (venue_names v))
        (λ r m.
          let (name, j, e) = map-In (feature_code letters) (or_empty query.features) m in
          let (n, linked, same) = h.features name j in
          subst (λ c. In c (map (feature_code letters) (venue_names v))) (same ∙ sym e)
            (In-map (feature_code letters) (venue_names v)
              ((names_of-IsLinked matching_ids db v.id n).1 linked)))

  -- The two tests of the loop.
  record Passes (v : Venue) : Type 0 where
    featured : has_features letters query (venue_names v) ≡ true
    large : too_small query.capacity (workplaces v.id db) ≡ false

  list_items-In :
      (vs : List Venue) {item : VenueListItem}
      → In item (list_items letters query db (get_feature_map (some matching_ids) none db) vs)
      → (v : Venue) × In v vs × Passes v × (item ≡ venue_list_item (venue_names v) db v)
  unfolding list_items
  list_items-In [] m = elim m [ ]
  list_items-In (v ∷ vs) {item} m = elim (Bool-cases (has_features letters query (venue_names v))) [
    | inr lacks ↦ later (list_items-In vs (rw lacks at m))
    | inl has ↦ elim (Bool-cases (too_small query.capacity (workplaces v.id db))) [
      | inl small ↦ later (list_items-In vs (rw (has, small) at m))
      | inr large ↦
          first (record { featured = has; large = large }) (list_items-In vs) (rw (has, large) at m)
    ]
  ]
    where
      later :
          (w : Venue) × In w vs × Passes w × (item ≡ venue_list_item (venue_names w) db w)
          → (w : Venue) × In w (v ∷ vs) × Passes w × (item ≡ venue_list_item (venue_names w) db w)
      later (w, i, p, e) = (w, there i, p, e)

      first :
          Passes v
          → (In item (list_items letters query db (get_feature_map (some matching_ids) none db) vs)
              → (w : Venue) × In w vs × Passes w × (item ≡ venue_list_item (venue_names w) db w))
          → In item (
              venue_list_item (venue_names v) db v
              ∷ list_items letters query db (get_feature_map (some matching_ids) none db) vs)
          → (w : Venue) × In w (v ∷ vs) × Passes w × (item ≡ venue_list_item (venue_names w) db w)
      first p rest (here e) = (v, here refl, p, e)
      first p rest (there j) = later (rest j)

  In-list_items :
      (vs : List Venue) {v : Venue}
      → In v vs
      → Passes v
      → In
          (venue_list_item (venue_names v) db v)
          (list_items letters query db (get_feature_map (some matching_ids) none db) vs)
  unfolding list_items
  In-list_items [] m p = elim m [ ]
  In-list_items (w ∷ vs) {v} (here e) p =
      let p' : Passes w = subst Passes e p in
      rw (p'.featured, p'.large) (here (ap (λ (x : Venue). venue_list_item (venue_names x) db x) e))
  In-list_items (w ∷ vs) (there m) p =
      let rest = In-list_items vs m p in
      elim (Bool-cases (has_features letters query (venue_names w))) [
        | inr lacks ↦ rw lacks rest
        | inl has ↦ elim (Bool-cases (too_small query.capacity (workplaces w.id db))) [
          | inl small ↦ rw (has, small) rest
          | inr large ↦ rw (has, large) (there rest)
        ]
      ]

  -- `list_venues` lists exactly the items of the venues whose texts match, that have for each requested
  -- feature a linked one with the same code, and that have enough active seats.
  pub list_venues-IsMatch :
      (item : VenueListItem)
      → In item (list_venues letters query db)
        ↔ (v : Venue) × IsMatch v × (item ≡ venue_list_item (venue_names v) db v)
  unfolding list_venues
  list_venues-IsMatch item = (to, from)
    where
      to :
          In item (
            list_items letters query db
              (get_feature_map (some matching_ids) none db)
              (matching_venues letters query db))
          → (v : Venue) × IsMatch v × (item ≡ venue_list_item (venue_names v) db v)
      to m =
          let (v, i, p, e) = list_items-In (matching_venues letters query db) m in
          let (present, texts) =
            filter_by-In (text_matches letters query) db.venues
              (order_by-In (name_first letters) _ i) in
          (
            v,
            record {
              present = present;
              texts = texts;
              features = features-to v p.featured;
              places = p.large;
            },
            e,
          )

      from :
          (v : Venue) × IsMatch v × (item ≡ venue_list_item (venue_names v) db v)
          → In item (
              list_items letters query db
                (get_feature_map (some matching_ids) none db)
                (matching_venues letters query db))
      from (v, h, e) =
          subst
            (λ x. In x (
              list_items letters query db (get_feature_map (some matching_ids) none db)
                (matching_venues letters query db)))
            (sym e)
            (In-list_items (matching_venues letters query db)
              (In-order_by (name_first letters) _
                (In-filter_by (text_matches letters query) db.venues h.present h.texts))
              (record { featured = features-from v h; large = h.places }))
