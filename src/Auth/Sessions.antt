-- ===== src/Auth/Sessions.antt =====
-- app/services/auth.py: sessions. `login_user`, `refresh_user_session` and `logout_user_session`.
use desmobapp_backend.Prelude.{
  ℕ, ◌+◌, ◌*◌, Bool, not, ◌&&◌, Option, none, some, String, [], ◌∷◌, Result, ok, err,
  auth_credentials, auth_forbidden, auth_token, bad_credentials, inactive_user, bad_refresh_token,
  refresh_token_expired, or_raise, raise_if, ◌>>=◌, ◌>>◌, find_first, update_where, leb, ◌==◌,
  if◌then◌else◌,
}
use desmobapp_backend.Db.{Uuid}
use desmobapp_backend.Time.{Env, day}
use desmobapp_backend.Access.Texts.{text_eq}
use desmobapp_backend.Access.Roles.{User, get_user_permissions_context}
use desmobapp_backend.Access.Tokens.{AccessTokenPayload, is_active, build_access_token}
use desmobapp_backend.Auth.Tables.{DeviceInfo, RefreshToken, Store, is_null, insert_refresh_token}

-- What the services take from outside: pwdlib's salted hash of a password and its check, SHA-256 of a
-- token in hexadecimal digits, PyJWT's `encode`, and `str.lower`.
pub record Platform : Type 0 where
  pub hash_password : ℕ → String → String
  pub verify_password : String → String → Bool
  pub hash_token : String → String
  pub encode : AccessTokenPayload → String
  pub lower : String → String

-- The settings of app/core/config.py that the services read.
pub record Settings : Type 0 where
  pub app_env : String
  pub refresh_token_expire_days : ℕ
  pub password_reset_token_expire_minutes : ℕ

-- What a request draws: `env` has its clocks and the identifiers of the row it makes and of its
-- notification. `token` is what `token_urlsafe` gives, `salt` what the hash of a password is salted
-- with, `issued_now` the clock of `_issue_session_tokens`, the identifiers those of a session and of
-- an assignment.
pub record AuthEnv : Type 0 where
  pub env : Env
  pub issued_now : ℕ
  pub session_id : Uuid
  pub assignment_id : Uuid
  pub token : String
  pub salt : ℕ

-- app/schemas/auth.py
pub record LoginRequest : Type 0 where
  pub email : String
  pub password : String

pub record UserPublic : Type 0 where
  pub id : Uuid
  pub email : String
  pub name : String

pub record LoginResponse : Type 0 where
  pub access_token : String
  pub refresh_token : String
  pub user : UserPublic

unfoldable pub user_public : User → UserPublic
user_public user = record { id = user.id; email = user.email; name = user.name }

-- `device_info or {"provider": "mock"}`
abbrev pub device_info_or_mock : Option DeviceInfo → DeviceInfo
device_info_or_mock none = ("provider", "mock") ∷ []
device_info_or_mock (some []) = ("provider", "mock") ∷ []
device_info_or_mock (some (entry ∷ entries)) = entry ∷ entries

-- `session.get(User, user_id)`
abbrev pub find_user : Uuid → Store → Option User
find_user user_id s = find_first (λ u. u.id == user_id) s.accounts.users

-- `refresh_token_record.revoked_at = now`
abbrev pub revoke : ℕ → RefreshToken → RefreshToken
revoke now t = record t { revoked_at = some now }

unfoldable pub revoke_session : ℕ → RefreshToken → Store → Store
revoke_session now t s = record s {
  refresh_tokens = update_where (λ r. r.id == t.id) (revoke now) s.refresh_tokens;
}

-- A service that commits nothing when it raises.
abbrev pub commit_ok : {A : Type 0} → Store → Result (A × Store) → Result A × Store
commit_ok s (ok (a, s')) = (ok a, s')
commit_ok s (err e) = (err e, s)

-- `RefreshToken.token_hash == hash_token(refresh_token), RefreshToken.revoked_at.is_(None)`
abbrev pub is_session : String → RefreshToken → Bool
is_session hash t = text_eq t.token_hash hash && is_null t.revoked_at

module _ (lib : Platform) (settings : Settings) where
  abbrev pub session_row : AuthEnv → User → Option DeviceInfo → RefreshToken
  session_row env user device_info = record {
    id = env.session_id;
    user_id = user.id;
    token_hash = lib.hash_token env.token;
    expires_at = env.issued_now + settings.refresh_token_expire_days * day;
    revoked_at = none;
    device_info = some (device_info_or_mock device_info);
    created_at = env.env.db_now;
  }

  abbrev pub access_token_of : User → Store → String
  access_token_of user s =
      lib.encode (build_access_token user (get_user_permissions_context s.accounts user.id))

  -- `_issue_session_tokens`
  unfoldable pub issue_session_tokens :
      AuthEnv → User → Option DeviceInfo → Store → Result ((String × String) × Store)
  issue_session_tokens env user device_info s = do
    added ← insert_refresh_token (session_row env user device_info) s
    ok ((access_token_of user s, env.token), added)

  -- The last steps of a login and of a refresh.
  unfoldable pub open_session :
      AuthEnv → User → Option DeviceInfo → Store → Result (LoginResponse × Store)
  unfolding issue_session_tokens
  open_session env user device_info s = do
    (tokens, committed) ← issue_session_tokens env user device_info s
    ok (
      record { access_token = tokens.0; refresh_token = tokens.1; user = user_public user },
      committed,
    )

  -- `select(User).where(User.email == email.lower())`
  abbrev pub user_of_email : String → Store → Option User
  user_of_email email s = find_first (λ u. text_eq u.email (lib.lower email)) s.accounts.users

  -- `login_user`
  unfoldable pub login_user : AuthEnv → LoginRequest → Store → Result (LoginResponse × Store)
  unfolding open_session
  login_user env payload s = do
    user ← or_raise (user_of_email payload.email s) (auth_credentials bad_credentials)
    raise_if (not (lib.verify_password payload.password user.password_hash))
        (auth_credentials bad_credentials)
    raise_if (not (is_active user.status)) (auth_forbidden inactive_user)
    open_session env user none s

  abbrev pub find_session : String → Store → Option RefreshToken
  find_session refresh_token s =
      find_first (is_session (lib.hash_token refresh_token)) s.refresh_tokens

  -- The steps of `refresh_user_session` for a record that has not expired.
  unfoldable pub rotate_session : AuthEnv → RefreshToken → Store → Result (LoginResponse × Store)
  unfolding open_session revoke_session
  rotate_session env t s = do
    user ← or_raise (find_user t.user_id s) (auth_token bad_refresh_token)
    raise_if (not (is_active user.status)) (auth_forbidden inactive_user)
    open_session env user t.device_info (revoke_session env.env.own_now t s)

  -- A record that has expired is revoked, and the revocation committed, before the exception.
  unfoldable pub refresh_record : AuthEnv → RefreshToken → Store → Result LoginResponse × Store
  unfolding rotate_session revoke_session
  refresh_record env t s =
      if leb t.expires_at env.env.own_now
      then (err (auth_token refresh_token_expired), revoke_session env.env.own_now t s)
      else commit_ok s (rotate_session env t s)

  -- `refresh_user_session`
  unfoldable pub refresh_user_session : AuthEnv → String → Store → Result LoginResponse × Store
  unfolding refresh_record
  refresh_user_session env refresh_token s = elim (find_session refresh_token s) [
    | none ↦ (err (auth_token bad_refresh_token), s)
    | some t ↦ refresh_record env t s
  ]

  -- `logout_user_session`
  unfoldable pub logout_user_session : AuthEnv → String → Store → Result Store
  unfolding revoke_session
  logout_user_session env refresh_token s = do
    t ← or_raise (find_session refresh_token s) (auth_token bad_refresh_token)
    raise_if (leb t.expires_at env.env.own_now) (auth_token bad_refresh_token)
    ok (revoke_session env.env.own_now t s)
