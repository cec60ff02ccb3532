-- ===== src/Space/Marked.antt =====
-- app/services/favorite.py: the favorites as a set of pairs.
use mathlib.Core.Path.{ap₂}
use desmobapp_backend.Prelude.{
  ◌≡◌, refl, sym, ◌∙◌, ap, subst, Bool, true, false, not, ◌&&◌, ◌||◌, some, List, [], ◌∷◌, ◌++◌, ok,
  any, any-true, find_first, find_first-In, find_first-absent, find_first-any, filter_by, ◌==◌,
  ==→eq, Bool-cases, Option-cases, inl, inr, &&-true, arith,
}
use desmobapp_backend.Db.{Db, Uuid, Venue, FavoriteVenue}
use desmobapp_backend.Time.{Env}
use desmobapp_backend.Space.{
  is_pair, insert_favorite, save_favorite, build_venue_list_items, create_favorite_venue,
  delete_favorite_venue, VenueListItem,
}

-- Whether a venue is a favorite of a user.
abbrev pub is_favorite : Uuid → Uuid → Db → Bool
is_favorite user_id venue_id db = any (is_pair user_id venue_id) db.favorites

abbrev pub is_same : Uuid → Uuid → Uuid → Uuid → Bool
is_same u v u' v' = u' == u && v' == v

any-snoc_pair :
    (u v : Uuid) (fs : List FavoriteVenue) (f : FavoriteVenue)
    → any (is_pair u v) (fs ++ f ∷ []) ≡ any (is_pair u v) fs || is_pair u v f
unfolding any
any-snoc_pair u v [] f = ground arith
any-snoc_pair u v (x ∷ fs) f = ground (arith, any-snoc_pair u v fs f)

any-filter_pair :
    (u v u' v' : Uuid) (fs : List FavoriteVenue)
    → any (is_pair u' v') (filter_by (λ r. not (is_pair u v r)) fs)
      ≡ any (is_pair u' v') fs && not (is_same u v u' v')
unfolding any filter_by
any-filter_pair u v u' v' [] = refl
any-filter_pair u v u' v' (x ∷ fs) =
    ground (arith, any-filter_pair u v u' v' fs, Bool-cases (is_pair u v x))

pair_known :
    (u v u' v' : Uuid) (fs : List FavoriteVenue)
    → any (is_pair u v) fs ≡ true
    → any (is_pair u' v') fs ≡ any (is_pair u' v') fs || is_same u v u' v'
pair_known u v u' v' fs h = elim (Bool-cases (is_same u v u' v')) [
  | inl same ↦
      let (a, b) = &&-true (u' == u) (v' == v) same in
      let known : any (is_pair u' v') fs ≡ true =
        subst (λ i. any (is_pair i v') fs ≡ true) (sym (==→eq u' u a))
          (subst (λ i. any (is_pair u i) fs ≡ true) (sym (==→eq v' v b)) h) in
      ground arith
  | inr other ↦ ground arith
]

pair_unknown :
    (u v u' v' : Uuid) (fs : List FavoriteVenue)
    → any (is_pair u v) fs ≡ false
    → any (is_pair u' v') fs ≡ any (is_pair u' v') fs && not (is_same u v u' v')
pair_unknown u v u' v' fs h = elim (Bool-cases (is_same u v u' v')) [
  | inl same ↦
      let (a, b) = &&-true (u' == u) (v' == v) same in
      let unknown : any (is_pair u' v') fs ≡ false =
        subst (λ i. any (is_pair i v') fs ≡ false) (sym (==→eq u' u a))
          (subst (λ i. any (is_pair u i) fs ≡ false) (sym (==→eq v' v b)) h) in
      ground arith
  | inr other ↦ ground arith
]

-- The table after a favorite is added: it has the pair, and no other that it had not.
record Added (u v : Uuid) (db db' : Db) : Type 0 where
  marked : (u' v' : Uuid) → is_favorite u' v' db' ≡ is_favorite u' v' db || is_same u v u' v'
  venues_kept : db'.venues ≡ db.venues

save_favorite-Added :
    (env : Env) (u v : Uuid) (db : Db)
    → (db' : Db) × (save_favorite env u v db ≡ ok db') × Added u v db db'
unfolding insert_favorite
save_favorite-Added env u v db = elim (Option-cases (find_first (is_pair u v) db.favorites)) [
  | inl absent ↦
      let row : FavoriteVenue = record { user_id = u; venue_id = v; created_at = env.db_now } in
      let unused = find_first-absent (is_pair u v) db.favorites absent in
      (
        record db { favorites = db.favorites ++ row ∷ [] },
        rw (absent, save_favorite, unused) refl,
        record {
          marked = λ u' v'.
              any-snoc_pair u' v' db.favorites row
              ∙ ap (λ b. is_favorite u' v' db || b) (flip u' v');
          venues_kept = refl;
        },
      )
  | inr (f, found) ↦
      let (m, e) = find_first-In (is_pair u v) db.favorites found in
      (
        db,
        rw (found, save_favorite) refl,
        record {
          marked =
              λ u' v'. pair_known u v u' v' db.favorites (any-true (is_pair u v) db.favorites m e);
          venues_kept = refl;
        },
      )
]
  where
    flip : (u' v' : Uuid) → (u == u' && v == v') ≡ is_same u v u' v'
    flip u' v' = ground arith

save_again :
    (env : Env) (u v : Uuid) (db : Db)
    → is_favorite u v db ≡ true
    → save_favorite env u v db ≡ ok db
save_again env u v db h =
    let (f, found) = find_first-any (is_pair u v) db.favorites h in rw (found, save_favorite) refl

delete_favorite_venue-marked :
    (user_id venue_id : Uuid) (db : Db) (u v : Uuid)
    → is_favorite u v (delete_favorite_venue user_id venue_id db)
      ≡ is_favorite u v db && not (is_same user_id venue_id u v)
unfolding delete_favorite_venue
delete_favorite_venue-marked user_id venue_id db u v =
    elim (Option-cases (find_first (is_pair user_id venue_id) db.favorites)) [
      | inl absent ↦
          let after : delete_favorite_venue user_id venue_id db ≡ db =
            rw (absent, delete_favorite_venue) refl in
          ap (is_favorite u v) after
          ∙ pair_unknown user_id venue_id u v db.favorites
              (find_first-absent (is_pair user_id venue_id) db.favorites absent)
      | inr (f, found) ↦
          let (m, e) = find_first-In (is_pair user_id venue_id) db.favorites found in
          let (a, b) = &&-true (f.user_id == user_id) (f.venue_id == venue_id) e in
          let after : delete_favorite_venue user_id venue_id db ≡ record db {
            favorites = filter_by (λ r. not (is_pair f.user_id f.venue_id r)) db.favorites;
          } =
            rw (found, delete_favorite_venue) refl in
          ap (is_favorite u v) after
          ∙ any-filter_pair f.user_id f.venue_id u v db.favorites
          ∙ ap₂ (λ i j. is_favorite u v db && not (is_same i j u v)) (==→eq f.user_id user_id a)
              (==→eq f.venue_id venue_id b)
    ]

-- The favorites are a set of pairs. A `create_favorite_venue` for a venue that exists returns, adds the pair
-- and no other, and a second one returns and leaves the database as it was; a
-- `delete_favorite_venue` takes the pair away and no other.
pub favorite_venues_set :
    (env : Env) (user_id venue_id : Uuid) (db : Db) (venue : Venue)
    → find_first (λ v. v.id == venue_id) db.venues ≡ some venue
    → ((items : List VenueListItem) × (db' : Db) × (create_favorite_venue env user_id venue_id db
          ≡ ok (items, db'))
        × ((u v : Uuid) → is_favorite u v db' ≡ is_favorite u v db || is_same user_id venue_id u v)
        × ((later : Env) → create_favorite_venue later user_id venue_id db' ≡ ok (items, db')))
      × ((u v : Uuid)
          → is_favorite u v (delete_favorite_venue user_id venue_id db)
            ≡ is_favorite u v db && not (is_same user_id venue_id u v))
unfolding create_favorite_venue delete_favorite_venue
favorite_venues_set env user_id venue_id db venue there =
    let (db', saved, added) = save_favorite-Added env user_id venue_id db in
    let there' : find_first (λ v. v.id == venue_id) db'.venues ≡ some venue =
      subst (λ vs. find_first (λ v. v.id == venue_id) vs ≡ some venue) (sym added.venues_kept)
        there in
    let marked : is_favorite user_id venue_id db' ≡ true =
      added.marked user_id venue_id
      ∙ ap (λ b. is_favorite user_id venue_id db || b) self
      ∙ or_true (is_favorite user_id venue_id db) in
    (
      (
        build_venue_list_items db' (venue ∷ []),
        db',
        rw (there, create_favorite_venue, saved) refl,
        added.marked,
        λ later.
            rw (there', create_favorite_venue, save_again later user_id venue_id db' marked) refl,
      ),
      delete_favorite_venue-marked user_id venue_id db,
    )
  where
    self : is_same user_id venue_id user_id venue_id ≡ true
    self = ground arith

    or_true : (b : Bool) → b || true ≡ true
    or_true b = ground arith
