-- ===== src/Tests/Accounts.antt =====
-- A manager of one venue, and what the token lets the manager do.
use desmobapp_backend.Prelude.{ℕ, ◌+◌, ◌≡◌, ◌↔◌, refl, none, some, [], ◌∷◌, In, filter_by}
use desmobapp_backend.Db.{Uuid}
use desmobapp_backend.Access.Roles.{
  User, active, Accounts, role_rows, join_roles, get_user_permissions_context,
}
use desmobapp_backend.Access.Seed.{RoleTables, seed_roles_and_permissions}
use desmobapp_backend.Access.Seeded.{IsSeeded, seed_roles_and_permissions_again}
use desmobapp_backend.Access.Granted.{Grants, permissions-Grants}
use desmobapp_backend.Access.Tokens.{
  Decoder, AccessTokenPayload, build_access_token, require_permissions, get_current_user, granted,
}
use desmobapp_backend.Access.Required.{
  IsAdmitted, require_permissions-granted, issued_token-admitted,
}
use desmobapp_backend.Access.Current.{IsCurrent, get_current_user-granted}

abbrev manager : User
manager = record {
  id = 5;
  email = "m@example.org";
  password_hash = "h";
  name = "M";
  phone = none;
  status = active;
}

-- The role is assigned for the venue 1 only.
abbrev accounts : Accounts
accounts = record {
  users = manager ∷ [];
  roles = record { id = 70; code = "manager"; name = "Manager" } ∷ [];
  assignments = record { id = 80; user_id = 5; role_id = 70; venue_id = some 1 } ∷ [];
}

abbrev issued : AccessTokenPayload
issued = build_access_token manager (get_user_permissions_context accounts 5)

-- A decoder that reads every text as that token.
abbrev decode : Decoder
decode token = some issued

manager_rows : role_rows accounts 5 ≡ ("manager", some 1) ∷ []
unfolding role_rows join_roles filter_by
manager_rows = refl

permissions-Grants_example :
    In "rooms.update" (get_user_permissions_context accounts 5).permissions
    ↔ Grants "rooms.update" (role_rows accounts 5)
permissions-Grants_example = permissions-Grants accounts 5 "rooms.update"

require_permissions-granted_example :
    (require_permissions decode ("rooms.update" ∷ []) "a.b.c" ≡ granted issued)
    ↔ IsAdmitted decode ("rooms.update" ∷ []) "a.b.c" issued
require_permissions-granted_example =
    require_permissions-granted decode ("rooms.update" ∷ []) "a.b.c" issued

issued_token-admitted_example :
    (require_permissions decode ("rooms.update" ∷ []) "a.b.c" ≡ granted issued)
    ↔ Grants "rooms.update" (role_rows accounts 5)
issued_token-admitted_example =
    issued_token-admitted decode accounts manager "a.b.c" "rooms.update" refl

get_current_user-granted_example :
    (get_current_user decode accounts "a.b.c" ≡ granted manager)
    ↔ IsCurrent decode accounts "a.b.c" manager
get_current_user-granted_example = get_current_user-granted decode accounts "a.b.c" manager

-- The tables have the role of the manager, and no permission yet.
abbrev started : RoleTables
started = record { permissions = []; roles = accounts.roles; links = [] }

seed_roles_and_permissions_again_example :
    (after : RoleTables) × (seed_roles_and_permissions (λ n. 100 + n) (λ n. 200 + n) started
      ≡ some after)
    × IsSeeded started after
    × ((more_permission_ids more_role_ids : ℕ → Uuid)
        → seed_roles_and_permissions more_permission_ids more_role_ids after ≡ some after)
seed_roles_and_permissions_again_example =
    seed_roles_and_permissions_again (λ n. 100 + n) (λ n. 200 + n) started
