-- ===== src/Space/Linked.antt =====
-- app/services/space.py, `_get_feature_map`: whose features it files under an identifier.
use desmobapp_backend.Prelude.{
  ◌≡◌, ◌↔◌, refl, sym, ◌∙◌, ap, subst, Bool, true, false, ◌&&◌, Option, none, some, String, List,
  [], ◌∷◌, ◌++◌, map, In-map, map-In, filter_by, In, here, there, In-filter_by, filter_by-In,
  In-append_left, In-append_right, append-In, opt_eq, opt_eq→eq, ◌==◌, ==→eq, ==_refl, Bool-cases,
  inl, inr, &&-true, if◌then◌else◌, true_and_false,
}
use desmobapp_backend.Db.{Db, Uuid, Feature, FeatureLink}
use desmobapp_backend.Space.{
  where_in, or_else, sql_in, join_features, append_name, group_names, get_feature_map, names_of,
}

opt_eq_refl : (o : Option Uuid) → opt_eq o o ≡ true
opt_eq_refl none = refl
opt_eq_refl (some i) = ==_refl i

-- The names of the rows that are filed under `i`.
select : Uuid → List (Option Uuid × String) → List String
select i [] = []
select i ((k, n) ∷ rows) = let rest = select i rows in if opt_eq k (some i) then n ∷ rest else rest

append_assoc : (xs ys zs : List String) → (xs ++ ys) ++ zs ≡ xs ++ (ys ++ zs)
append_assoc [] ys zs = refl
append_assoc (x ∷ xs) ys zs = ap (◌∷◌ x) (append_assoc xs ys zs)

append-nil : (xs : List String) → xs ++ [] ≡ xs
append-nil [] = refl
append-nil (x ∷ xs) = ap (◌∷◌ x) (append-nil xs)

-- A name is filed at the end of its group, and the other groups are left alone.
names_of-append_name :
    (i : Uuid) (k : Option Uuid) (m : String) (groups : List (Option Uuid × List String))
    → names_of i (append_name k m groups)
      ≡ (if opt_eq k (some i) then names_of i groups ++ m ∷ [] else names_of i groups)
unfolding names_of append_name
names_of-append_name i k m [] = refl
names_of-append_name i k m ((g, names) ∷ groups) = elim (Bool-cases (opt_eq g k)) [
  | inl same ↦ elim (Bool-cases (opt_eq g (some i))) [
    | inl at ↦ rw (same, at, subst (λ o. opt_eq o (some i) ≡ true) (opt_eq→eq g k same) at) refl
    | inr away ↦
        rw (same, away, subst (λ o. opt_eq o (some i) ≡ false) (opt_eq→eq g k same) away) refl
  ]
  | inr other ↦ elim (Bool-cases (opt_eq g (some i))) [
    | inl at ↦
        let apart : opt_eq k (some i) ≡ false = differs at other in rw (other, at, apart) refl
    | inr away ↦ rw (other, away) (names_of-append_name i k m groups)
  ]
]
  where
    differs : opt_eq g (some i) ≡ true → opt_eq g k ≡ false → opt_eq k (some i) ≡ false
    differs at other = elim (Bool-cases (opt_eq k (some i))) [
      | inl t ↦ absurd (
          true_and_false (opt_eq_refl k) (
            subst (λ o. opt_eq o k ≡ false) (opt_eq→eq g (some i) at ∙ sym (opt_eq→eq k (some i) t))
              other))
      | inr n ↦ n
    ]

names_of-group_names :
    (i : Uuid) (rows : List (Option Uuid × String)) (groups : List (Option Uuid × List String))
    → names_of i (group_names rows groups) ≡ names_of i groups ++ select i rows
unfolding group_names select
names_of-group_names i [] groups = sym (append-nil (names_of i groups))
names_of-group_names i ((k, n) ∷ rows) groups =
    names_of-group_names i rows (append_name k n groups)
    ∙ ap (λ ns. ns ++ select i rows) (names_of-append_name i k n groups)
    ∙ elim (Bool-cases (opt_eq k (some i))) [
      | inl t ↦ rw t (append_assoc (names_of i groups) (n ∷ []) (select i rows))
      | inr f ↦ rw f refl
    ]

select-In :
    (i : Uuid) (rows : List (Option Uuid × String)) {n : String}
    → In n (select i rows)
    → In (some i, n) rows
unfolding select
select-In i [] m = elim m [ ]
select-In i ((k, m) ∷ rows) {n} j = elim (Bool-cases (opt_eq k (some i))) [
  | inl t ↦ from_head (opt_eq→eq k (some i) t) (select-In i rows) (rw t at j)
  | inr f ↦ there (select-In i rows (rw f at j))
]
  where
    from_head :
        k ≡ some i
        → (In n (select i rows) → In (some i, n) rows)
        → In n (m ∷ select i rows)
        → In (some i, n) ((k, m) ∷ rows)
    from_head e later (here h) = here (cc (e, h))
    from_head e later (there h) = there (later h)

In-select :
    (i : Uuid) (rows : List (Option Uuid × String)) {n : String}
    → In (some i, n) rows
    → In n (select i rows)
unfolding select
In-select i [] m = elim m [ ]
In-select i ((k, m) ∷ rows) {n} (here e) =
    let key : opt_eq k (some i) ≡ true =
      subst (λ o. opt_eq o (some i) ≡ true) (ap (λ (p : Option Uuid × String). p.0) e)
        (opt_eq_refl (some i)) in
    rw key (here (ap (λ (p : Option Uuid × String). p.1) e))
In-select i ((k, m) ∷ rows) (there j) = elim (Bool-cases (opt_eq k (some i))) [
  | inl t ↦ rw t (there (In-select i rows j))
  | inr f ↦ rw f (In-select i rows j)
]

-- A feature of this name is linked to one of the venues, and filed under `i`.
pub record IsLinked (ids : List Uuid) (db : Db) (i : Uuid) (name : String) : Type 0 where
  pub link : FeatureLink
  pub feature : Feature
  pub link_present : In link db.feature_links
  pub feature_present : In feature db.features
  pub joined : feature.id ≡ link.feature_id
  pub in_venues : sql_in ids link.venue_id ≡ true
  pub filed : or_else link.room_id link.venue_id ≡ some i
  pub named : feature.name ≡ name

-- A row of the join stands for a link and its feature.
record Row (features : List Feature) (links : List FeatureLink) (k : Option Uuid) (n : String)
    : Type 0 where
  link : FeatureLink
  feature : Feature
  link_present : In link links
  feature_present : In feature features
  joined : feature.id ≡ link.feature_id
  filed : or_else link.room_id link.venue_id ≡ k
  named : feature.name ≡ n

join_features-Row :
    (features : List Feature) (links : List FeatureLink) {k : Option Uuid} {n : String}
    → In (k, n) (join_features (λ l. or_else l.room_id l.venue_id) features links)
    → Row features links k n
unfolding join_features
join_features-Row features [] m = elim m [ ]
join_features-Row features (l ∷ links) m =
    elim (append-In
      (map (λ (f : Feature). (or_else l.room_id l.venue_id, f.name))
        (filter_by (λ f. f.id == l.feature_id) features))
      m) [
        | inl i ↦
            let (f, j, e) =
              map-In (λ (f : Feature). (or_else l.room_id l.venue_id, f.name))
                (filter_by (λ f. f.id == l.feature_id) features) i in
            let (present, id) = filter_by-In (λ f. f.id == l.feature_id) features j in
            record {
              link = l;
              feature = f;
              link_present = here refl;
              feature_present = present;
              joined = ==→eq f.id l.feature_id id;
              filed = sym (ap (λ (p : Option Uuid × String). p.0) e);
              named = sym (ap (λ (p : Option Uuid × String). p.1) e);
            }
        | inr j ↦
            let row = join_features-Row features links j in
            record {
              link = row.link;
              feature = row.feature;
              link_present = there row.link_present;
              feature_present = row.feature_present;
              joined = row.joined;
              filed = row.filed;
              named = row.named;
            }
      ]

Row-join_features :
    (features : List Feature) (links : List FeatureLink) {l : FeatureLink} {f : Feature}
    → In l links
    → In f features
    → f.id ≡ l.feature_id
    → In
        (or_else l.room_id l.venue_id, f.name)
        (join_features (λ l. or_else l.room_id l.venue_id) features links)
unfolding join_features
Row-join_features features [] m k e = elim m [ ]
Row-join_features features (x ∷ links) {l} {f} (here h) k e =
    In-append_left (join_features (λ l. or_else l.room_id l.venue_id) features links) (
      subst
        (λ (y : FeatureLink).
          In {A = Option Uuid × String} (or_else l.room_id l.venue_id, f.name)
            (map (λ (f : Feature). (or_else y.room_id y.venue_id, f.name))
              (filter_by (λ f. f.id == y.feature_id) features)))
        h
        (In-map (λ (f : Feature). (or_else l.room_id l.venue_id, f.name))
          (filter_by (λ f. f.id == l.feature_id) features)
          (In-filter_by (λ f. f.id == l.feature_id) features k
            (subst (λ i. (f.id == i) ≡ true) e (==_refl f.id)))))
Row-join_features features (x ∷ links) (there m) k e =
    In-append_right
      (map (λ (f : Feature). (or_else x.room_id x.venue_id, f.name))
        (filter_by (λ f. f.id == x.feature_id) features))
      (Row-join_features features links m k e)

-- The names that the map of features holds for an identifier are those of the features linked.
pub names_of-IsLinked :
    (ids : List Uuid) (db : Db) (i : Uuid) (n : String)
    → In n (names_of i (get_feature_map (some ids) none db)) ↔ IsLinked ids db i n
unfolding get_feature_map names_of
names_of-IsLinked ids db i n = (to, from)
  where
    wanted : FeatureLink → Bool
    wanted l = where_in (some ids) l.venue_id && where_in none l.room_id

    rows : List (Option Uuid × String)
    rows =
        join_features (λ l. or_else l.room_id l.venue_id) db.features
          (filter_by wanted db.feature_links)

    to : In n (names_of i (group_names rows [])) → IsLinked ids db i n
    to m =
        let row =
          join_features-Row db.features (filter_by wanted db.feature_links)
            (select-In i rows (subst (In n) (names_of-group_names i rows []) m)) in
        let (present, want) = filter_by-In wanted db.feature_links row.link_present in
        record {
          link = row.link;
          feature = row.feature;
          link_present = present;
          feature_present = row.feature_present;
          joined = row.joined;
          in_venues = (&&-true (sql_in ids row.link.venue_id) true want).0;
          filed = row.filed;
          named = row.named;
        }

    from : IsLinked ids db i n → In n (names_of i (group_names rows []))
    from h =
        let want : wanted h.link ≡ true = rw h.in_venues refl in
        let j =
          Row-join_features db.features (filter_by wanted db.feature_links)
            (In-filter_by wanted db.feature_links h.link_present want) h.feature_present h.joined in
        subst (In n) (sym (names_of-group_names i rows [])) (
          In-select i rows (
            subst (λ m. In (some i, m) rows) h.named
              (subst (λ k. In (k, h.feature.name) rows) h.filed j)))
