-- ===== src/Auth/Users.antt =====
-- app/services/auth.py: `register_user`, `get_current_user_profile` and
-- `update_current_user_profile`.
use desmobapp_backend.Prelude.{
  Option, none, some, String, Result, ok, err, Error, auth_conflict, email_taken, integrity_error,
  ◌>>=◌, find_first, update_where, ◌==◌,
}
use desmobapp_backend.Db.{Uuid}
use desmobapp_backend.Access.Texts.{text_eq}
use desmobapp_backend.Access.Roles.{active, User, UserRoleAssignment, Role}
use desmobapp_backend.Auth.Tables.{Store, with_users, insert_user, insert_assignment}
use desmobapp_backend.Auth.Sessions.{Platform, AuthEnv, UserPublic, user_public}

-- app/schemas/auth.py
pub record RegisterRequest : Type 0 where
  pub email : String
  pub password : String
  pub name : String
  pub phone : Option String

pub record UserProfile : Type 0 where
  pub id : Uuid
  pub email : String
  pub name : String
  pub phone : Option String

-- A request that has neither field is refused by its schema.
pub record ProfileUpdateRequest : Type 0 where
  pub name : Option String
  pub phone : Option String

abbrev pub conflict_of : Error → Error
conflict_of integrity_error = auth_conflict email_taken
conflict_of e = e

-- `except IntegrityError` around the commit.
abbrev pub conflict_if_integrity_error : {A : Type 0} → Result A → Result A
conflict_if_integrity_error (ok a) = ok a
conflict_if_integrity_error (err e) = err (conflict_of e)

abbrev pub client_assignment : AuthEnv → User → Role → UserRoleAssignment
client_assignment env user role = record {
  id = env.assignment_id;
  user_id = user.id;
  role_id = role.id;
  venue_id = none;
}

-- The role of a client, where the table has one.
unfoldable pub assign_client : AuthEnv → User → Store → Result Store
assign_client env user s = elim (find_first (λ r. text_eq r.code "client") s.accounts.roles) [
  | none ↦ ok s
  | some role ↦ insert_assignment (client_assignment env user role) s
]

-- `_serialize_user_profile`
unfoldable pub serialize_user_profile : User → UserProfile
serialize_user_profile user = record {
  id = user.id;
  email = user.email;
  name = user.name;
  phone = user.phone;
}

-- `get_current_user_profile`
unfoldable pub get_current_user_profile : User → UserProfile
unfolding serialize_user_profile
get_current_user_profile user = serialize_user_profile user

abbrev pub or_keep : Option String → String → String
or_keep none old = old
or_keep (some new) old = new

abbrev pub or_keep_phone : Option String → Option String → Option String
or_keep_phone none old = old
or_keep_phone (some new) old = some new

-- The assignments of `update_current_user_profile`.
unfoldable pub updated_user : ProfileUpdateRequest → User → User
updated_user payload user = record user {
  name = or_keep payload.name user.name;
  phone = or_keep_phone payload.phone user.phone;
}

-- `update_current_user_profile`
unfoldable pub update_current_user_profile :
    User → ProfileUpdateRequest → Store → UserProfile × Store
unfolding serialize_user_profile updated_user
update_current_user_profile user payload s = (
  serialize_user_profile (updated_user payload user),
  with_users (update_where (λ u. u.id == user.id) (updated_user payload) s.accounts.users) s,
)

module _ (lib : Platform) where
  abbrev pub user_row : AuthEnv → RegisterRequest → User
  user_row env payload = record {
    id = env.env.new_id;
    email = lib.lower payload.email;
    password_hash = lib.hash_password env.salt payload.password;
    name = payload.name;
    phone = payload.phone;
    status = active;
  }

  -- `register_user`. The row of the user is written by `flush`, which stands before the `try`.
  unfoldable pub register_user : AuthEnv → RegisterRequest → Store → Result (UserPublic × Store)
  unfolding assign_client
  register_user env payload s = do
    added ← insert_user (user_row env payload) s
    committed ← conflict_if_integrity_error (assign_client env (user_row env payload) added)
    ok (user_public (user_row env payload), committed)
