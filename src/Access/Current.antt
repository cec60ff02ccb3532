-- ===== src/Access/Current.antt =====
-- app/api/dependencies/auth.py, `get_current_user`: whom it takes a request to be from.
use desmobapp_backend.Prelude.{
  ◌≡◌, ◌↔◌, refl, ap, subst, true, Bool-cases, inl, inr, Option, none, some, String, find_first,
  ◌==◌,
}
use desmobapp_backend.Access.Roles.{User, UserStatus, active, inactive, suspended, Accounts}
use desmobapp_backend.Access.Tokens.{
  is_active, AccessTokenPayload, granted, Decoder, read_token, check_user, get_current_user,
}
use desmobapp_backend.Access.Required.{
  and_then-granted, read_token-eq-granted, read_token-access, granted-injective, denied≢granted,
}

-- The user that an access token names, present in the table and active.
pub record IsCurrent (decode : Decoder) (accounts : Accounts) (token : String) (user : User)
    : Type 0 where
  pub payload : AccessTokenPayload
  pub decoded : decode token ≡ some payload
  pub is_access : payload.type ≡ "access"
  pub found : find_first (λ u. u.id == payload.sub) accounts.users ≡ some user
  pub status_active : user.status ≡ active

is_active→active : (status : UserStatus) → is_active status ≡ true → status ≡ active
is_active→active active h = refl
is_active→active inactive h = cc
is_active→active suspended h = cc

check_user-granted :
    (o : Option User) (user : User)
    → check_user o ≡ granted user
    → (o ≡ some user) × (user.status ≡ active)
unfolding check_user
check_user-granted none user h = absurd (denied≢granted h)
check_user-granted (some u) user h = elim (Bool-cases (is_active u.status)) [
  | inl t ↦
      let same : u ≡ user = granted-injective (rw (t, check_user) at h) in
      (ap some same, subst (λ (x : User). x.status ≡ active) same (is_active→active u.status t))
  | inr f ↦ absurd (denied≢granted (rw (f, check_user) at h))
]

active-granted : (user : User) → user.status ≡ active → check_user (some user) ≡ granted user
unfolding check_user
active-granted user e =
    let on : is_active user.status ≡ true = ap is_active e in rw (on, check_user) refl

get_current_user-IsCurrent :
    (decode : Decoder) (accounts : Accounts) (token : String) (user : User)
    → get_current_user decode accounts token ≡ granted user
    → IsCurrent decode accounts token user
unfolding get_current_user
get_current_user-IsCurrent decode accounts token user h =
    let (a, e, k) = and_then-granted (read_token (decode token)) _ h in
    let (decoded, is_access) = read_token-eq-granted (decode token) e in
    let (found, on) = check_user-granted (find_first (λ u. u.id == a.sub) accounts.users) user k in
    record {
      payload = a;
      decoded = decoded;
      is_access = is_access;
      found = found;
      status_active = on;
    }

IsCurrent-get_current_user :
    (decode : Decoder) (accounts : Accounts) (token : String) (user : User)
    → IsCurrent decode accounts token user
    → get_current_user decode accounts token ≡ granted user
unfolding get_current_user
IsCurrent-get_current_user decode accounts token user c =
    rw
      (
        c.decoded,
        read_token-access c.payload c.is_access,
        c.found,
        active-granted user c.status_active,
      )
      refl

-- A request is from a user if and only if its token can be read, is an access token and names that
-- user, who is in the table and active.
pub get_current_user-granted :
    (decode : Decoder) (accounts : Accounts) (token : String) (user : User)
    → (get_current_user decode accounts token ≡ granted user) ↔ IsCurrent decode accounts token user
get_current_user-granted decode accounts token user = (
  get_current_user-IsCurrent decode accounts token user,
  IsCurrent-get_current_user decode accounts token user,
)
