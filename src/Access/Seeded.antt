-- ===== src/Access/Seeded.antt =====
-- app/services/rbac.py, `seed_roles_and_permissions`: it ends, links every role to its permissions,
-- and can be run again.
use desmobapp_backend.Prelude.{
  ℕ, suc, ◌≡◌, refl, sym, ◌∙◌, ap, subst, Bool, true, inl, inr, ==_refl, Option, some, String, List,
  [], ◌∷◌, ◌++◌, map, any, any-In, any-snoc_true, any-true, find_first-any, find_first-In,
  Bool-cases, In, here, there, In-map, map-In, In-append_left, In-append_right, arith,
}
use desmobapp_backend.Db.{Uuid}
use desmobapp_backend.Access.Texts.{text_eq, text_eq_refl, text_eq→eq, In-sorted_set}
use desmobapp_backend.Access.Permissions.{
  role_permissions, role_names, all_permissions, union, Dictionary,
}
use desmobapp_backend.Access.Roles.{Role}
use desmobapp_backend.Access.Seed.{
  Permission, RolePermission, RoleTables, insert_missing, has_permission_code, has_role_code,
  is_link, new_link, add_pair, add_pairs, pairs_of, role_pairs, all_pairs, new_permission, new_role,
  seed_permissions, seed_roles, link_all, seed_roles_and_permissions,
}

module _ {ℓ κ} {K : Type ℓ} {A : Type κ} (has : K → A → Bool) (make : ℕ → K → A) where
  insert_missing-any :
      (test : A → Bool) (n : ℕ) (keys : List K) (rows : List A)
      → any test rows ≡ true
      → any test (insert_missing has make n keys rows) ≡ true
  unfolding insert_missing
  insert_missing-any test n [] rows h = h
  insert_missing-any test n (k ∷ keys) rows h = elim (Bool-cases (any (has k) rows)) [
    | inl t ↦ rw t (insert_missing-any test (suc n) keys rows h)
    | inr f ↦ rw f (
        insert_missing-any test (suc n) keys (rows ++ make n k ∷ [])
          (any-snoc_true test rows (make n k) h))
  ]

  insert_missing-present :
      ((n : ℕ) (k : K) → has k (make n k) ≡ true)
      → (n : ℕ) (keys : List K) (rows : List A) {k : K} → In k keys
      → any (has k) (insert_missing has make n keys rows) ≡ true
  unfolding insert_missing
  insert_missing-present made n [] rows m = elim m [ ]
  insert_missing-present made n (x ∷ keys) rows {k} (here e) =
      subst (λ z. any (has z) (insert_missing has make n (x ∷ keys) rows) ≡ true) (sym e)
        (elim (Bool-cases (any (has x) rows)) [
          | inl t ↦ rw t (insert_missing-any (has x) (suc n) keys rows t)
          | inr f ↦ rw f (
              insert_missing-any (has x) (suc n) keys (rows ++ make n x ∷ []) (
                any-true (has x) (rows ++ make n x ∷ []) (In-append_right rows (here refl))
                  (made n x)))
        ])
  insert_missing-present made n (x ∷ keys) rows (there m) =
      insert_missing-present made (suc n) keys _ m

  In-insert_missing :
      (n : ℕ) (keys : List K) (rows : List A) {x : A}
      → In x rows
      → In x (insert_missing has make n keys rows)
  unfolding insert_missing
  In-insert_missing n [] rows m = m
  In-insert_missing n (k ∷ keys) rows m = elim (Bool-cases (any (has k) rows)) [
    | inl t ↦ rw t (In-insert_missing (suc n) keys rows m)
    | inr f ↦
        rw f (
          In-insert_missing (suc n) keys (rows ++ make n k ∷ []) (In-append_left (make n k ∷ []) m))
  ]

  insert_missing-same :
      (n : ℕ) (keys : List K) (rows : List A)
      → ((k : K) → In k keys → any (has k) rows ≡ true)
      → insert_missing has make n keys rows ≡ rows
  unfolding insert_missing
  insert_missing-same n [] rows h = refl
  insert_missing-same n (k ∷ keys) rows h =
      rw (h k (here refl)) (insert_missing-same (suc n) keys rows (λ x m. h x (there m)))

-- What `role_pairs` finds.
role_pairs-some :
    (permissions : List Permission) (role : Role) (codes : List String)
    → ((c : String) → In c codes → any (has_permission_code c) permissions ≡ true)
    → (pairs : List (Uuid × Uuid)) × (role_pairs permissions codes role ≡ some pairs)
      × ((c : String)
          → In c codes
          → (p : Permission) × In p permissions × (p.code ≡ c) × In (role.id, p.id) pairs)
unfolding role_pairs
role_pairs-some permissions role [] h = ([], refl, λ c m. elim m [ ])
role_pairs-some permissions role (x ∷ codes) h =
    let (pairs, e, f) = role_pairs-some permissions role codes (λ c m. h c (there m)) in
    let (p, found) = find_first-any (has_permission_code x) permissions (h x (here refl)) in
    let (m, hit) = find_first-In (has_permission_code x) permissions found in
    (
      (role.id, p.id) ∷ pairs,
      ap (λ o. add_pair role o (role_pairs permissions codes role)) found
          ∙ ap (add_pair role (some p)) e,
      linked pairs f p m (text_eq→eq p.code x hit),
    )
  where
    linked :
        (pairs : List (Uuid × Uuid))
        → ((c : String)
            → In c codes
            → (p : Permission) × In p permissions × (p.code ≡ c) × In (role.id, p.id) pairs)
        → (p : Permission) → In p permissions
        → p.code ≡ x
        → (c : String) → In c (x ∷ codes)
        → (q : Permission) × In q permissions
          × (q.code ≡ c)
          × In (role.id, q.id) ((role.id, p.id) ∷ pairs)
    linked pairs f p m e c (here k) = (p, m, e ∙ sym k, here refl)
    linked pairs f p m e c (there k) = let (q, n, d, i) = f c k in (q, n, d, there i)

-- A role of `entry` has a link to each of its permissions.
abbrev IsPaired :
    List Permission → List Role → List (Uuid × Uuid) → String × List String → String → Type 0
IsPaired permissions roles pairs entry c =
    (r : Role) × In r roles
    × (r.code ≡ entry.0)
    × (p : Permission) × In p permissions
    × (p.code ≡ c)
    × In (r.id, p.id) pairs

all_pairs-some :
    (permissions : List Permission) (roles : List Role) (entries : Dictionary (List String))
    → ((x : String × List String) → In x entries → any (λ r. text_eq r.code x.0) roles ≡ true)
    → ((x : String × List String) (c : String)
        → In x entries
        → In c x.1
        → any (has_permission_code c) permissions ≡ true)
    → (pairs : List (Uuid × Uuid)) × (all_pairs permissions roles entries ≡ some pairs)
      × ((x : String × List String) (c : String)
          → In x entries
          → In c x.1
          → IsPaired permissions roles pairs x c)
unfolding all_pairs
all_pairs-some permissions roles [] h k = ([], refl, λ x c m. elim m [ ])
all_pairs-some permissions roles ((code, codes) ∷ entries) h k =
    let (more, e, f) =
      all_pairs-some permissions roles entries (λ x m. h x (there m)) (λ x c m. k x c (there m)) in
    let (r, found) =
      find_first-any (λ r. text_eq r.code code) roles (h (code, codes) (here refl)) in
    let (m, hit) = find_first-In (λ r. text_eq r.code code) roles found in
    let (pairs, e', g) = role_pairs-some permissions r codes (λ c. k (code, codes) c (here refl)) in
    (
      pairs ++ more,
      ap (λ o. add_pairs (pairs_of permissions codes o) (all_pairs permissions roles entries)) found
          ∙ ap (λ o. add_pairs o (all_pairs permissions roles entries)) e'
          ∙ ap (add_pairs (some pairs)) e,
      linked pairs more f r m (text_eq→eq r.code code hit) g,
    )
  where
    linked :
        (pairs more : List (Uuid × Uuid))
        → ((x : String × List String) (c : String)
            → In x entries
            → In c x.1
            → IsPaired permissions roles more x c)
        → (r : Role) → In r roles
        → r.code ≡ code
        → ((c : String)
            → In c codes
            → (p : Permission) × In p permissions × (p.code ≡ c) × In (r.id, p.id) pairs)
        → (x : String × List String) (c : String) → In x ((code, codes) ∷ entries)
        → In c x.1
        → IsPaired permissions roles (pairs ++ more) x c
    linked pairs more f r m e g x c (here same) i =
        let (p, n, d, j) = g c (subst (λ (z : String × List String). In c z.1) same i) in
        (
          r,
          m,
          e ∙ ap (λ (z : String × List String). z.0) (sym same),
          p,
          n,
          d,
          In-append_left more j,
        )
    linked pairs more f r m e g x c (there k) i =
        let (r', m', e', p, n, d, j) = f x c k i in (r', m', e', p, n, d, In-append_right pairs j)

In-union :
    (entries : Dictionary (List String)) {x : String × List String} {c : String}
    → In x entries
    → In c x.1
    → In c (union entries)
unfolding union
In-union [] m i = elim m [ ]
In-union (y ∷ entries) {x} {c} (here e) i =
    In-append_left (union entries) (subst (λ (z : String × List String). In c z.1) e i)
In-union (y ∷ entries) (there m) i = In-append_right y.1 (In-union entries m i)

role_code : String × List String → String
role_code entry = entry.0

name_code : String × String → String
name_code entry = entry.0

-- Every role of `ROLE_PERMISSIONS` has a name.
codes_named : map role_code role_permissions ≡ map name_code role_names
unfolding role_code name_code
codes_named = refl

module _ (permission_ids role_ids : ℕ → Uuid) where
  permission_present :
      (permissions : List Permission) (x : String × List String) (c : String)
      → In x role_permissions
      → In c x.1
      → any (has_permission_code c) (seed_permissions permission_ids role_ids permissions) ≡ true
  unfolding all_permissions
  permission_present permissions x c m i =
      insert_missing-present has_permission_code (new_permission permission_ids role_ids)
        (λ n k. text_eq_refl k) 0 all_permissions permissions
        (In-sorted_set (union role_permissions) (In-union role_permissions m i))

  role_present :
      (roles : List Role) (x : String × List String)
      → In x role_permissions
      → any (λ r. text_eq r.code x.0) (seed_roles permission_ids role_ids roles) ≡ true
  unfolding role_code name_code
  role_present roles x m =
      let (entry, k, e) =
        map-In name_code role_names
          (subst (λ codes. In x.0 codes) codes_named (In-map role_code role_permissions m)) in
      subst (λ c. any (λ r. text_eq r.code c) (seed_roles permission_ids role_ids roles) ≡ true)
        (sym e)
        (insert_missing-present has_role_code (new_role permission_ids role_ids)
          (λ n k. text_eq_refl k.0) 0 role_names roles k)

is_link-new_link : (n : ℕ) (pair : Uuid × Uuid) → is_link pair (new_link n pair) ≡ true
is_link-new_link n pair = ground (arith, ==_refl pair.0, ==_refl pair.1)

is_link-both :
    (pair : Uuid × Uuid) (l : RolePermission)
    → is_link pair l ≡ true
    → (l.role_id ≡ pair.0) × (l.permission_id ≡ pair.1)
is_link-both pair l h = (ground arith, ground arith)

-- Every role has a link to each of its permissions, and no row of before is gone.
pub record IsSeeded (before after : RoleTables) : Type 0 where
  pub linked :
      (entry : String × List String) (c : String)
      → In entry role_permissions
      → In c entry.1
      → (r : Role) × In r after.roles
        × (r.code ≡ entry.0)
        × (p : Permission) × In p after.permissions
        × (p.code ≡ c)
        × (l : RolePermission) × In l after.links
        × (l.role_id ≡ r.id)
        × (l.permission_id ≡ p.id)
  pub kept_permissions : (p : Permission) → In p before.permissions → In p after.permissions
  pub kept_roles : (r : Role) → In r before.roles → In r after.roles
  pub kept_links : (l : RolePermission) → In l before.links → In l after.links

-- Every run of `seed_roles_and_permissions` ends without a KeyError, whatever the tables hold: every
-- role of `ROLE_PERMISSIONS` has a link to each of its permissions then, no row is gone, and
-- another run changes nothing, whatever identifiers it would draw.
pub seed_roles_and_permissions_again :
    (permission_ids role_ids : ℕ → Uuid) (t : RoleTables)
    → (after : RoleTables) × (seed_roles_and_permissions permission_ids role_ids t ≡ some after)
      × IsSeeded t after
      × ((more_permission_ids more_role_ids : ℕ → Uuid)
          → seed_roles_and_permissions more_permission_ids more_role_ids after ≡ some after)
unfolding seed_roles_and_permissions
seed_roles_and_permissions_again permission_ids role_ids t =
    let permissions = seed_permissions permission_ids role_ids t.permissions in
    let roles = seed_roles permission_ids role_ids t.roles in
    let (pairs, e, f) =
      all_pairs-some permissions roles role_permissions
        (role_present permission_ids role_ids t.roles)
        (permission_present permission_ids role_ids t.permissions) in
    let links = insert_missing is_link new_link 0 pairs t.links in
    let after : RoleTables = record { permissions = permissions; roles = roles; links = links } in
    let present = (λ (pair : Uuid × Uuid) (m : In pair pairs).
      insert_missing-present is_link new_link is_link-new_link 0 pairs t.links m) in
    (
      after,
      ap (link_all permission_ids role_ids permissions roles t.links) e,
      record {
        linked = λ entry c m i.
            let (r, rm, re, p, pm, pe, k) = f entry c m i in
            let (l, lm, hit) = any-In (is_link (r.id, p.id)) links (present (r.id, p.id) k) in
            let (a, b) = is_link-both (r.id, p.id) l hit in (r, rm, re, p, pm, pe, l, lm, a, b);
        kept_permissions = λ p m. In-insert_missing has_permission_code _ 0 all_permissions _ m;
        kept_roles = λ r m. In-insert_missing has_role_code _ 0 role_names _ m;
        kept_links = λ l m. In-insert_missing is_link new_link 0 pairs t.links m;
      },
      λ more_permission_ids more_role_ids.
          let same_permissions =
            insert_missing-same has_permission_code
              (new_permission more_permission_ids more_role_ids) 0 all_permissions permissions
              (λ c m.
                insert_missing-present has_permission_code (new_permission permission_ids role_ids)
                  (λ n k. text_eq_refl k) 0 all_permissions t.permissions m) in
          let same_roles =
            insert_missing-same has_role_code (new_role more_permission_ids more_role_ids) 0
              role_names roles
              (λ c m.
                insert_missing-present has_role_code (new_role permission_ids role_ids)
                  (λ n k. text_eq_refl k.0) 0 role_names t.roles m) in
          let with_links : List RolePermission → Option RoleTables =
            λ ls. some (record { permissions = permissions; roles = roles; links = ls }) in
          let run = (λ (ps : List Permission) (rs : List Role).
            link_all more_permission_ids more_role_ids ps rs links
              (all_pairs ps rs role_permissions)) in
          ap (λ ps. run ps (seed_roles more_permission_ids more_role_ids roles)) same_permissions
          ∙ ap (run permissions) same_roles
          ∙ ap (link_all more_permission_ids more_role_ids permissions roles links) e
          ∙ ap with_links (insert_missing-same is_link new_link 0 pairs links present),
    )
