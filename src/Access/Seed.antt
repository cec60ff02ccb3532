-- ===== src/Access/Seed.antt =====
-- app/services/rbac.py, `seed_roles_and_permissions`, over the tables of app/db/models/access.py. The
-- identifiers of new rows are drawn by the database: `role_ids` and `permission_ids` are parameters.
use desmobapp_backend.Prelude.{
  ℕ, suc, Bool, ◌&&◌, ◌==◌, if◌then◌else◌, Option, none, some, String, List, [], ◌∷◌, ◌++◌, any,
  find_first,
}
use desmobapp_backend.Db.{Uuid}
use desmobapp_backend.Access.Texts.{text_eq}
use desmobapp_backend.Access.Permissions.{Dictionary, role_permissions, role_names, all_permissions}
use desmobapp_backend.Access.Roles.{Role}

pub record Permission : Type 0 where
  pub id : Uuid
  pub code : String

pub record RolePermission : Type 0 where
  pub role_id : Uuid
  pub permission_id : Uuid

pub record RoleTables : Type 0 where
  pub permissions : List Permission
  pub roles : List Role
  pub links : List RolePermission

-- A loop that inserts a row for each key that has none yet; `n` counts the keys that it has passed.
unfoldable pub insert_missing {ℓ κ} :
    {K : Type ℓ} {A : Type κ} → (K → A → Bool) → (ℕ → K → A) → ℕ → List K → List A → List A
insert_missing has make n [] rows = rows
insert_missing has make n (k ∷ keys) rows =
    insert_missing has make (suc n) keys (if any (has k) rows then rows else rows ++ make n k ∷ [])

-- The codes are unique, so a dictionary by code finds the first row.
abbrev pub has_permission_code : String → Permission → Bool
has_permission_code code p = text_eq p.code code

abbrev pub has_role_code : String × String → Role → Bool
has_role_code entry r = text_eq r.code entry.0

abbrev pub is_link : Uuid × Uuid → RolePermission → Bool
is_link pair l = l.role_id == pair.0 && l.permission_id == pair.1

abbrev pub new_link : ℕ → Uuid × Uuid → RolePermission
new_link n pair = record { role_id = pair.0; permission_id = pair.1 }

-- The inner loop: `permissions_by_code[permission_code]`, none for a KeyError.
abbrev pub add_pair :
    Role → Option Permission → Option (List (Uuid × Uuid)) → Option (List (Uuid × Uuid))
add_pair role none rest = none
add_pair role (some permission) none = none
add_pair role (some permission) (some pairs) = some ((role.id, permission.id) ∷ pairs)

unfoldable pub role_pairs : List Permission → List String → Role → Option (List (Uuid × Uuid))
role_pairs permissions [] role = some []
role_pairs permissions (code ∷ codes) role =
    add_pair role (find_first (has_permission_code code) permissions)
      (role_pairs permissions codes role)

-- The loop over `ROLE_PERMISSIONS.items()`: `roles_by_code[role_code]`, none for a KeyError.
abbrev pub add_pairs :
    Option (List (Uuid × Uuid)) → Option (List (Uuid × Uuid)) → Option (List (Uuid × Uuid))
add_pairs none rest = none
add_pairs (some pairs) none = none
add_pairs (some pairs) (some more) = some (pairs ++ more)

abbrev pub pairs_of : List Permission → List String → Option Role → Option (List (Uuid × Uuid))
pairs_of permissions codes none = none
pairs_of permissions codes (some role) = role_pairs permissions codes role

unfoldable pub all_pairs :
    List Permission → List Role → Dictionary (List String) → Option (List (Uuid × Uuid))
all_pairs permissions roles [] = some []
all_pairs permissions roles ((code, codes) ∷ entries) =
    add_pairs (pairs_of permissions codes (find_first (λ r. text_eq r.code code) roles))
      (all_pairs permissions roles entries)

module _ (permission_ids role_ids : ℕ → Uuid) where
  abbrev pub new_permission : ℕ → String → Permission
  new_permission n code = record { id = permission_ids n; code = code }

  abbrev pub new_role : ℕ → String × String → Role
  new_role n entry = record { id = role_ids n; code = entry.0; name = entry.1 }

  abbrev pub seed_permissions : List Permission → List Permission
  seed_permissions permissions =
      insert_missing has_permission_code new_permission 0 all_permissions permissions

  abbrev pub seed_roles : List Role → List Role
  seed_roles roles = insert_missing has_role_code new_role 0 role_names roles

  abbrev pub link_all :
      List Permission
      → List Role
      → List RolePermission
      → Option (List (Uuid × Uuid))
      → Option RoleTables
  link_all permissions roles links none = none
  link_all permissions roles links (some pairs) = some (record {
    permissions = permissions;
    roles = roles;
    links = insert_missing is_link new_link 0 pairs links;
  })

  unfoldable pub seed_roles_and_permissions : RoleTables → Option RoleTables
  seed_roles_and_permissions t =
      let permissions = seed_permissions t.permissions in
      let roles = seed_roles t.roles in
      link_all permissions roles t.links (all_pairs permissions roles role_permissions)
