-- ===== src/Access/Roles.antt =====
-- app/services/rbac.py, `get_user_permissions_context`, over the tables of app/db/models/access.py.
use desmobapp_backend.Prelude.{
  Option, none, some, String, List, [], ◌∷◌, ◌++◌, map, filter_by, ◌==◌, if◌then◌else◌,
}
use desmobapp_backend.Db.{Uuid}
use desmobapp_backend.Access.Texts.{sorted_set}
use desmobapp_backend.Access.Permissions.{permissions_of}

pub data UserStatus : Type 0 where
  active inactive suspended : UserStatus

pub record User : Type 0 where
  pub id : Uuid
  pub email : String
  pub password_hash : String
  pub name : String
  pub phone : Option String
  pub status : UserStatus

pub record Role : Type 0 where
  pub id : Uuid
  pub code : String
  pub name : String

-- An assignment without a venue holds everywhere.
pub record UserRoleAssignment : Type 0 where
  pub id : Uuid
  pub user_id : Uuid
  pub role_id : Uuid
  pub venue_id : Option Uuid

pub record Accounts : Type 0 where
  pub users : List User
  pub roles : List Role
  pub assignments : List UserRoleAssignment

-- `select(Role.code, UserRoleAssignment.venue_id).join(...)`: a row for each assignment and role of
-- one identifier.
unfoldable pub join_roles : List Role → List UserRoleAssignment → List (String × Option Uuid)
join_roles roles [] = []
join_roles roles (a ∷ rest) =
    map (λ r. (r.code, a.venue_id)) (filter_by (λ r. r.id == a.role_id) roles)
    ++ join_roles roles rest

unfoldable pub role_rows : Accounts → Uuid → List (String × Option Uuid)
role_rows accounts user_id =
    join_roles accounts.roles (filter_by (λ a. a.user_id == user_id) accounts.assignments)

-- The rows of the loop whose `venue_id` is None.
unfoldable pub global_roles_of : List (String × Option Uuid) → List String
global_roles_of [] = []
global_roles_of ((code, none) ∷ rows) = code ∷ global_roles_of rows
global_roles_of ((code, some v) ∷ rows) = global_roles_of rows

-- `venue_roles_map[venue_id].append(role_code)`, on a `defaultdict(list)`. The key `str(venue_id)` is
-- as good as the identifier.
unfoldable pub append_role : Uuid → String → List (Uuid × List String) → List (Uuid × List String)
append_role v code [] = (v, code ∷ []) ∷ []
append_role v code ((w, codes) ∷ groups) =
    let rest = append_role v code groups in
    if w == v then (w, codes ++ code ∷ []) ∷ groups else (w, codes) ∷ rest

unfoldable pub venue_roles_of :
    List (String × Option Uuid) → List (Uuid × List String) → List (Uuid × List String)
venue_roles_of [] groups = groups
venue_roles_of ((code, none) ∷ rows) groups = venue_roles_of rows groups
venue_roles_of ((code, some v) ∷ rows) groups = venue_roles_of rows (append_role v code groups)

-- `permission_set.update(ROLE_PERMISSIONS.get(role_code, set()))` for each code.
unfoldable pub permissions_of_all : List String → List String
permissions_of_all [] = []
permissions_of_all (code ∷ codes) = permissions_of code ++ permissions_of_all codes

unfoldable pub permissions_of_groups : List (Uuid × List String) → List String
permissions_of_groups [] = []
permissions_of_groups ((v, codes) ∷ groups) =
    permissions_of_all codes ++ permissions_of_groups groups

pub record PermissionsContext : Type 0 where
  pub global_roles : List String
  pub venue_roles : List (Uuid × List String)
  pub permissions : List String

-- `get_user_permissions_context`
unfoldable pub get_user_permissions_context : Accounts → Uuid → PermissionsContext
get_user_permissions_context accounts user_id =
    let rows = role_rows accounts user_id in
    let global_roles = global_roles_of rows in
    let venue_roles = venue_roles_of rows [] in
    record {
      global_roles = sorted_set global_roles;
      venue_roles = venue_roles;
      permissions =
          sorted_set (permissions_of_all global_roles ++ permissions_of_groups venue_roles);
    }
