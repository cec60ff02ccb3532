-- ===== src/Access/Granted.antt =====
-- app/services/rbac.py, `get_user_permissions_context`: from which roles the permissions come.
use desmobapp_backend.Prelude.{
  ◌↔◌, refl, subst, ◌⊎◌, inl, inr, Option, none, some, String, List, [], ◌∷◌, ◌++◌, In, here, there,
  In-append_left, In-append_right, append-In, ◌==◌, Bool-cases,
}
use desmobapp_backend.Db.{Uuid}
use desmobapp_backend.Access.Texts.{sorted_set, In-sorted_set, sorted_set-In}
use desmobapp_backend.Access.Permissions.{permissions_of}
use desmobapp_backend.Access.Roles.{
  Accounts, role_rows, global_roles_of, append_role, venue_roles_of, permissions_of_all,
  permissions_of_groups, get_user_permissions_context,
}

-- Some row of the user, of whatever venue or of none, has a role with the permission.
pub data Grants (p : String) (rows : List (String × Option Uuid)) : Type 0 where
  grants :
      (code : String) (v : Option Uuid)
      → In (code, v) rows
      → In p (permissions_of code)
      → Grants p rows

Grants-there :
    {p : String} {r : String × Option Uuid} {rows : List (String × Option Uuid)}
    → Grants p rows
    → Grants p (r ∷ rows)
Grants-there (grants code v m k) = grants code v (there m) k

permissions_of_all-snoc :
    {p : String} (codes : List String) (code : String)
    → In p (permissions_of_all (codes ++ code ∷ []))
    → In p (permissions_of_all codes) ⊎ In p (permissions_of code)
unfolding permissions_of_all
permissions_of_all-snoc [] code m = elim (append-In (permissions_of code) m) [
  | inl k ↦ inr k
  | inr k ↦ inl k
]
permissions_of_all-snoc (c ∷ codes) code m = elim (append-In (permissions_of c) m) [
  | inl k ↦ inl (In-append_left _ k)
  | inr k ↦ elim (permissions_of_all-snoc codes code k) [
    | inl j ↦ inl (In-append_right (permissions_of c) j)
    | inr j ↦ inr j
  ]
]

snoc-permissions_of_all :
    {p : String} (codes : List String) (code : String)
    → In p (permissions_of_all codes) ⊎ In p (permissions_of code)
    → In p (permissions_of_all (codes ++ code ∷ []))
unfolding permissions_of_all
snoc-permissions_of_all [] code (inl m) = elim m [ ]
snoc-permissions_of_all [] code (inr m) = In-append_left [] m
snoc-permissions_of_all (c ∷ codes) code (inl m) = elim (append-In (permissions_of c) m) [
  | inl k ↦ In-append_left _ k
  | inr k ↦ In-append_right (permissions_of c) (snoc-permissions_of_all codes code (inl k))
]
snoc-permissions_of_all (c ∷ codes) code (inr m) =
    In-append_right (permissions_of c) (snoc-permissions_of_all codes code (inr m))

abbrev Groups : Type 0
Groups = List (Uuid × List String)

append_role-permissions :
    {p : String} (v : Uuid) (code : String) (groups : Groups)
    → In p (permissions_of_groups (append_role v code groups))
    → In p (permissions_of code) ⊎ In p (permissions_of_groups groups)
unfolding append_role permissions_of_groups permissions_of_all
append_role-permissions v code [] m = elim (append-In (permissions_of code ++ []) m) [
  | inl k ↦ elim (append-In (permissions_of code) k) [ inl j ↦ inl j | inr j ↦ inr j ]
  | inr k ↦ inr k
]
append_role-permissions v code ((w, codes) ∷ groups) m = elim (Bool-cases (w == v)) [
  | inl t ↦ elim (append-In (permissions_of_all (codes ++ code ∷ [])) (rw t at m)) [
    | inl k ↦ elim (permissions_of_all-snoc codes code k) [
      | inl j ↦ inr (In-append_left _ j)
      | inr j ↦ inl j
    ]
    | inr k ↦ inr (In-append_right (permissions_of_all codes) k)
  ]
  | inr f ↦ elim (append-In (permissions_of_all codes) (rw f at m)) [
    | inl k ↦ inr (In-append_left _ k)
    | inr k ↦ elim (append_role-permissions v code groups k) [
      | inl j ↦ inl j
      | inr j ↦ inr (In-append_right (permissions_of_all codes) j)
    ]
  ]
]

permissions-append_role :
    {p : String} (v : Uuid) (code : String) (groups : Groups)
    → In p (permissions_of code) ⊎ In p (permissions_of_groups groups)
    → In p (permissions_of_groups (append_role v code groups))
unfolding append_role permissions_of_groups permissions_of_all
permissions-append_role v code [] (inl m) = In-append_left [] (In-append_left [] m)
permissions-append_role v code [] (inr m) = elim m [ ]
permissions-append_role {p} v code ((w, codes) ∷ groups) m = elim (Bool-cases (w == v)) [
  | inl t ↦ rw t (same_group m)
  | inr f ↦ rw f (elim m [
    | inl k ↦
        In-append_right (permissions_of_all codes) (permissions-append_role v code groups (inl k))
    | inr k ↦ elim (append-In (permissions_of_all codes) k) [
      | inl j ↦ In-append_left _ j
      | inr j ↦
          In-append_right (permissions_of_all codes) (permissions-append_role v code groups (inr j))
    ]
  ])
]
  where
    same_group :
        In p (permissions_of code) ⊎ In p (permissions_of_all codes ++ permissions_of_groups groups)
        → In p (permissions_of_all (codes ++ code ∷ []) ++ permissions_of_groups groups)
    same_group (inl k) = In-append_left _ (snoc-permissions_of_all codes code (inr k))
    same_group (inr k) = elim (append-In (permissions_of_all codes) k) [
      | inl j ↦ In-append_left _ (snoc-permissions_of_all codes code (inl j))
      | inr j ↦ In-append_right (permissions_of_all (codes ++ code ∷ [])) j
    ]

venue_roles-Grants :
    {p : String} (rows : List (String × Option Uuid)) (groups : Groups)
    → In p (permissions_of_groups (venue_roles_of rows groups))
    → Grants p rows ⊎ In p (permissions_of_groups groups)
unfolding venue_roles_of
venue_roles-Grants [] groups m = inr m
venue_roles-Grants ((code, none) ∷ rows) groups m = elim (venue_roles-Grants rows groups m) [
  | inl g ↦ inl (Grants-there g)
  | inr k ↦ inr k
]
venue_roles-Grants ((code, some v) ∷ rows) groups m =
    elim (venue_roles-Grants rows (append_role v code groups) m) [
      | inl g ↦ inl (Grants-there g)
      | inr k ↦ elim (append_role-permissions v code groups k) [
        | inl j ↦ inl (grants code (some v) (here refl) j)
        | inr j ↦ inr j
      ]
    ]

groups-venue_roles :
    {p : String} (rows : List (String × Option Uuid)) (groups : Groups)
    → In p (permissions_of_groups groups)
    → In p (permissions_of_groups (venue_roles_of rows groups))
unfolding venue_roles_of
groups-venue_roles [] groups m = m
groups-venue_roles ((code, none) ∷ rows) groups m = groups-venue_roles rows groups m
groups-venue_roles ((code, some v) ∷ rows) groups m =
    groups-venue_roles rows (append_role v code groups)
      (permissions-append_role v code groups (inr m))

row-venue_roles :
    {p : String} (rows : List (String × Option Uuid)) (groups : Groups) (code : String) (v : Uuid)
    → In (code, some v) rows
    → In p (permissions_of code)
    → In p (permissions_of_groups (venue_roles_of rows groups))
unfolding venue_roles_of
row-venue_roles [] groups code v m k = elim m [ ]
row-venue_roles ((c, none) ∷ rows) groups code v (there m) k =
    row-venue_roles rows groups code v m k
row-venue_roles ((c, none) ∷ rows) groups code v (here e) k = cc
row-venue_roles {p} ((c, some w) ∷ rows) groups code v (here e) k =
    groups-venue_roles rows (append_role w c groups) (
      permissions-append_role w c groups
        (inl (subst (λ (r : String × Option Uuid). In p (permissions_of r.0)) e k)))
row-venue_roles ((c, some w) ∷ rows) groups code v (there m) k =
    row-venue_roles rows (append_role w c groups) code v m k

global_roles-Grants :
    {p : String} (rows : List (String × Option Uuid))
    → In p (permissions_of_all (global_roles_of rows))
    → Grants p rows
unfolding global_roles_of permissions_of_all
global_roles-Grants [] m = elim m [ ]
global_roles-Grants ((code, none) ∷ rows) m = elim (append-In (permissions_of code) m) [
  | inl k ↦ grants code none (here refl) k
  | inr k ↦ Grants-there (global_roles-Grants rows k)
]
global_roles-Grants ((code, some v) ∷ rows) m = Grants-there (global_roles-Grants rows m)

row-global_roles :
    {p : String} (rows : List (String × Option Uuid)) (code : String)
    → In (code, none) rows
    → In p (permissions_of code)
    → In p (permissions_of_all (global_roles_of rows))
unfolding global_roles_of permissions_of_all
row-global_roles [] code m k = elim m [ ]
row-global_roles {p} ((c, none) ∷ rows) code (here e) k =
    In-append_left _ (subst (λ (r : String × Option Uuid). In p (permissions_of r.0)) e k)
row-global_roles ((c, none) ∷ rows) code (there m) k =
    In-append_right (permissions_of c) (row-global_roles rows code m k)
row-global_roles ((c, some v) ∷ rows) code (here e) k = cc
row-global_roles ((c, some v) ∷ rows) code (there m) k = row-global_roles rows code m k

-- A permission is in the context of a user if and only if some role assigned to the user has it, for
-- every venue or for one, whichever that is.
pub permissions-Grants :
    (accounts : Accounts) (user_id : Uuid) (p : String)
    → In p (get_user_permissions_context accounts user_id).permissions
      ↔ Grants p (role_rows accounts user_id)
unfolding get_user_permissions_context permissions_of_groups
permissions-Grants accounts user_id p = (from_permissions, to_permissions)
  where
    rows : List (String × Option Uuid)
    rows = role_rows accounts user_id

    globals : List String
    globals = permissions_of_all (global_roles_of rows)

    from_permissions :
        In p (sorted_set (globals ++ permissions_of_groups (venue_roles_of rows [])))
        → Grants p rows
    from_permissions m = elim (append-In globals (sorted_set-In _ m)) [
      | inl k ↦ global_roles-Grants rows k
      | inr k ↦ elim (venue_roles-Grants rows [] k) [ inl g ↦ g | inr j ↦ elim j [ ] ]
    ]

    to_permissions :
        Grants p rows
        → In p (sorted_set (globals ++ permissions_of_groups (venue_roles_of rows [])))
    to_permissions (grants code none m k) =
        In-sorted_set _ (In-append_left _ (row-global_roles rows code m k))
    to_permissions (grants code (some v) m k) =
        In-sorted_set _ (In-append_right globals (row-venue_roles rows [] code v m k))
