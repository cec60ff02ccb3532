-- ===== src/Auth/Reset.antt =====
-- app/services/auth.py: `request_password_reset` and `reset_password`.
use desmobapp_backend.Prelude.{
  ℕ, ◌+◌, ◌*◌, Bool, true, false, not, ◌&&◌, Option, none, some, String, Result, ok, auth_token,
  auth_forbidden, bad_reset_token, inactive_user, or_raise, raise_if, ◌>>=◌, ◌>>◌, find_first,
  update_where, leb, ◌==◌,
}
use desmobapp_backend.Db.{Uuid, email, email_only}
use desmobapp_backend.Time.{minute}
use desmobapp_backend.Notification.{notify_by}
use desmobapp_backend.Access.Texts.{text_eq}
use desmobapp_backend.Access.Roles.{User}
use desmobapp_backend.Access.Tokens.{is_active}
use desmobapp_backend.Auth.Tables.{
  PasswordResetToken, RefreshToken, Store, is_null, with_users, insert_reset_token,
}
use desmobapp_backend.Auth.Sessions.{Platform, Settings, AuthEnv, revoke, find_user, user_of_email}

-- app/schemas/auth.py. The message is the same in every response.
pub record ForgotPasswordResponse : Type 0 where
  pub message : String
  pub reset_token : Option String

pub record ResetPasswordRequest : Type 0 where
  pub token : String
  pub new_password : String

abbrev pub reset_response : Option String → ForgotPasswordResponse
reset_response token = record {
  message = "If the account exists, password reset instructions were created.";
  reset_token = token;
}

-- `session.add` of a notification by email.
abbrev pub notify_email : AuthEnv → User → String → Store → Result Store
notify_email env user template_code s = do
  db ← notify_by email env.env user.id template_code (email_only user.email) s.db
  ok (record s { db = db })

-- `user.password_hash = ...`
abbrev pub set_password : Uuid → String → Store → Store
set_password user_id hash s =
    with_users
      (update_where (λ u. u.id == user_id) (λ u. record u { password_hash = hash })
        s.accounts.users)
      s

-- `reset_token.used_at = now`
abbrev pub use_reset_token : ℕ → PasswordResetToken → Store → Store
use_reset_token now t s = record s {
  reset_tokens =
      update_where (λ r. r.id == t.id) (λ r. record r { used_at = some now }) s.reset_tokens;
}

-- `RefreshToken.user_id == user.id, RefreshToken.revoked_at.is_(None)`
abbrev pub is_session_of : Uuid → RefreshToken → Bool
is_session_of user_id t = t.user_id == user_id && is_null t.revoked_at

-- Every session of a user that is not revoked is.
abbrev pub revoke_all : ℕ → Uuid → Store → Store
revoke_all now user_id s = record s {
  refresh_tokens = update_where (is_session_of user_id) (revoke now) s.refresh_tokens;
}

-- `PasswordResetToken.token_hash == hash_token(payload.token), used_at.is_(None)`
abbrev pub is_unused : String → PasswordResetToken → Bool
is_unused hash t = text_eq t.token_hash hash && is_null t.used_at

module _ (lib : Platform) (settings : Settings) where
  abbrev pub reset_row : AuthEnv → User → PasswordResetToken
  reset_row env user = record {
    id = env.env.new_id;
    user_id = user.id;
    token_hash = lib.hash_token env.token;
    expires_at = env.env.own_now + settings.password_reset_token_expire_minutes * minute;
    used_at = none;
    created_at = env.env.db_now;
  }

  -- `reset_token if settings.app_env != "production" else None`
  abbrev pub shown_token : String → Option String
  shown_token token = elim (text_eq settings.app_env "production") [
    | true ↦ none
    | false ↦ some token
  ]

  unfoldable pub create_reset : AuthEnv → User → Store → Result (ForgotPasswordResponse × Store)
  unfolding notify_by insert_reset_token
  create_reset env user s = do
    added ← insert_reset_token (reset_row env user) s
    notified ← notify_email env user "password_reset_requested" added
    ok (reset_response (shown_token env.token), notified)

  unfoldable pub reset_for : AuthEnv → Option User → Store → Result (ForgotPasswordResponse × Store)
  unfolding create_reset
  reset_for env none s = ok (reset_response none, s)
  reset_for env (some user) s = elim (is_active user.status) [
    | true ↦ create_reset env user s
    | false ↦ ok (reset_response none, s)
  ]

  -- `request_password_reset`
  unfoldable pub request_password_reset :
      AuthEnv → String → Store → Result (ForgotPasswordResponse × Store)
  unfolding reset_for
  request_password_reset env address s = reset_for env (user_of_email lib settings address s) s

  abbrev pub find_reset : String → Store → Option PasswordResetToken
  find_reset token s = find_first (is_unused (lib.hash_token token)) s.reset_tokens

  -- The three writes of `reset_password`.
  unfoldable pub apply_reset : AuthEnv → String → User → PasswordResetToken → Store → Store
  apply_reset env new_password user t s = revoke_all env.env.own_now user.id (
      use_reset_token env.env.own_now t
        (set_password user.id (lib.hash_password env.salt new_password) s))

  -- `reset_password`
  unfoldable pub reset_password : AuthEnv → ResetPasswordRequest → Store → Result Store
  unfolding apply_reset
  reset_password env payload s = do
    t ← or_raise (find_reset payload.token s) (auth_token bad_reset_token)
    raise_if (leb t.expires_at env.env.own_now) (auth_token bad_reset_token)
    user ← or_raise (find_user t.user_id s) (auth_forbidden inactive_user)
    raise_if (not (is_active user.status)) (auth_forbidden inactive_user)
    notify_email env user "password_reset_completed" (apply_reset env payload.new_password user t s)
