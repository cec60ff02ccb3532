-- ===== src/Access/Tokens.antt =====
-- app/core/security.py, `build_access_token`, app/schemas/security.py and the dependencies of
-- app/api/dependencies/auth.py that guard the routes. The library that signs and reads tokens is a
-- parameter.
use desmobapp_backend.Prelude.{
  ℕ, Bool, true, false, not, Option, none, some, String, List, [], ◌∷◌, filter_by, find_first, ◌==◌,
}
use desmobapp_backend.Db.{Uuid}
use desmobapp_backend.Access.Texts.{text_eq, contains}
use desmobapp_backend.Access.Roles.{
  UserStatus, active, inactive, suspended, User, Accounts, PermissionsContext,
}

-- The claims of a token that the program reads back.
pub record AccessTokenPayload : Type 0 where
  pub sub : Uuid
  pub email : String
  pub type : String
  pub global_roles : List String
  pub venue_roles : List (Uuid × List String)
  pub permissions : List String

-- The details of the exceptions that a dependency raises, each with its status.
pub data Detail : Type 0 where
  invalid_access_token invalid_token_type user_not_found user_not_active : Detail
  missing_permissions : List String → Detail

abbrev pub status_of : Detail → ℕ
status_of invalid_access_token = 401
status_of invalid_token_type = 401
status_of user_not_found = 401
status_of user_not_active = 403
status_of (missing_permissions _) = 403

pub data Guarded (A : Type 0) : Type 0 where
  granted : A → Guarded A
  denied : Detail → Guarded A

-- The claims of `build_access_token`, less its two times.
unfoldable pub build_access_token : User → PermissionsContext → AccessTokenPayload
build_access_token user context = record {
  sub = user.id;
  email = user.email;
  type = "access";
  global_roles = context.global_roles;
  venue_roles = context.venue_roles;
  permissions = context.permissions;
}

-- `jwt.decode` followed by `AccessTokenPayload.model_validate`: none where either raises.
abbrev pub Decoder : Type 0
Decoder = String → Option AccessTokenPayload

abbrev pub is_active : UserStatus → Bool
is_active active = true
is_active inactive = false
is_active suspended = false

-- The steps that the two dependencies share: the token is read, and it is an access token.
unfoldable pub read_token : Option AccessTokenPayload → Guarded AccessTokenPayload
read_token none = denied invalid_access_token
read_token (some payload) = elim (text_eq payload.type "access") [
  | true ↦ granted payload
  | false ↦ denied invalid_token_type
]

unfoldable pub check_user : Option User → Guarded User
check_user none = denied user_not_found
check_user (some user) = elim (is_active user.status) [
  | true ↦ granted user
  | false ↦ denied user_not_active
]

abbrev pub and_then : {A B : Type 0} → Guarded A → (A → Guarded B) → Guarded B
and_then (granted a) f = f a
and_then (denied d) f = denied d

-- `get_current_user`
unfoldable pub get_current_user : Decoder → Accounts → String → Guarded User
get_current_user decode accounts token =
    and_then (read_token (decode token))
      (λ payload. check_user (find_first (λ u. u.id == payload.sub) accounts.users))

-- `[permission for permission in required_permissions if permission not in permission_set]`
unfoldable pub missing : List String → AccessTokenPayload → List String
missing required payload = filter_by (λ p. not (contains payload.permissions p)) required

abbrev pub demand : List String → AccessTokenPayload → Guarded AccessTokenPayload
demand [] payload = granted payload
demand (p ∷ ps) payload = denied (missing_permissions (p ∷ ps))

-- `require_permissions`
unfoldable pub require_permissions : Decoder → List String → String → Guarded AccessTokenPayload
require_permissions decode required token =
    and_then (read_token (decode token)) (λ payload. demand (missing required payload) payload)
