-- ===== src/Auth/Routes.antt =====
-- app/api/routes/auth.py and profile.py: the routes, and a history of requests that they serve.
use desmobapp_backend.Prelude.{
  ℕ, String, List, [], ◌∷◌, Error, auth_conflict, auth_credentials, auth_forbidden, auth_token,
}
use desmobapp_backend.Access.Roles.{User}
use desmobapp_backend.Api.{Response, success, answer, answer_committed, answer_message}
use desmobapp_backend.Auth.Tables.{Store}
use desmobapp_backend.Auth.Sessions.{
  Platform, Settings, AuthEnv, LoginRequest, LoginResponse, UserPublic, login_user,
  refresh_user_session, logout_user_session,
}
use desmobapp_backend.Auth.Users.{
  RegisterRequest, UserProfile, ProfileUpdateRequest, register_user, get_current_user_profile,
  update_current_user_profile,
}
use desmobapp_backend.Auth.Reset.{
  ForgotPasswordResponse, ResetPasswordRequest, request_password_reset, reset_password,
}

abbrev pub register_code : Error → ℕ
register_code (auth_conflict _) = 409
register_code _ = 500

abbrev pub login_code : Error → ℕ
login_code (auth_credentials _) = 401
login_code (auth_forbidden _) = 403
login_code _ = 500

abbrev pub refresh_code : Error → ℕ
refresh_code (auth_token _) = 401
refresh_code (auth_forbidden _) = 403
refresh_code _ = 500

abbrev pub logout_code : Error → ℕ
logout_code (auth_token _) = 401
logout_code _ = 500

abbrev pub forgot_code : Error → ℕ
forgot_code _ = 500

-- `GET /me`
unfoldable pub me_endpoint : User → Response UserProfile
me_endpoint user = success 200 (get_current_user_profile user)

-- `PATCH /me`
unfoldable pub update_me_endpoint :
    User → ProfileUpdateRequest → Store → Response UserProfile × Store
update_me_endpoint user payload s =
    let (profile, s') = update_current_user_profile user payload s in (success 200 profile, s')

-- A request for one of the routes, with what it draws.
pub data AuthCall : Type 0 where
  register_call : RegisterRequest → AuthCall
  login_call : LoginRequest → AuthCall
  refresh_call : String → AuthCall
  logout_call : String → AuthCall
  forgot_call : String → AuthCall
  reset_call : ResetPasswordRequest → AuthCall
  update_me_call : User → ProfileUpdateRequest → AuthCall

pub record AuthRequest : Type 0 where
  pub env : AuthEnv
  pub call : AuthCall

module _ (lib : Platform) (settings : Settings) where
  unfoldable pub register_endpoint : AuthEnv → RegisterRequest → Store → Response UserPublic × Store
  register_endpoint env payload s = answer 201 register_code s (register_user lib env payload s)

  unfoldable pub login_endpoint : AuthEnv → LoginRequest → Store → Response LoginResponse × Store
  login_endpoint env payload s = answer 200 login_code s (login_user lib settings env payload s)

  unfoldable pub refresh_endpoint : AuthEnv → String → Store → Response LoginResponse × Store
  refresh_endpoint env token s =
      answer_committed refresh_code (refresh_user_session lib settings env token s)

  unfoldable pub logout_endpoint : AuthEnv → String → Store → Response String × Store
  logout_endpoint env token s =
      answer_message "Logged out successfully." logout_code s
        (logout_user_session lib settings env token s)

  unfoldable pub forgot_password_endpoint :
      AuthEnv → String → Store → Response ForgotPasswordResponse × Store
  forgot_password_endpoint env address s =
      answer 200 forgot_code s (request_password_reset lib settings env address s)

  unfoldable pub reset_password_endpoint :
      AuthEnv → ResetPasswordRequest → Store → Response String × Store
  reset_password_endpoint env payload s =
      answer_message "Password was reset successfully." refresh_code s
        (reset_password lib settings env payload s)

  unfoldable pub serve_auth_call : AuthEnv → AuthCall → Store → Store
  unfolding register_endpoint login_endpoint refresh_endpoint logout_endpoint
      forgot_password_endpoint reset_password_endpoint update_me_endpoint
  serve_auth_call env (register_call p) s = (register_endpoint env p s).1
  serve_auth_call env (login_call p) s = (login_endpoint env p s).1
  serve_auth_call env (refresh_call token) s = (refresh_endpoint env token s).1
  serve_auth_call env (logout_call token) s = (logout_endpoint env token s).1
  serve_auth_call env (forgot_call address) s = (forgot_password_endpoint env address s).1
  serve_auth_call env (reset_call p) s = (reset_password_endpoint env p s).1
  serve_auth_call env (update_me_call user p) s = (update_me_endpoint user p s).1

  -- Requests served one after the other.
  unfoldable pub run_auth : List AuthRequest → Store → Store
  unfolding serve_auth_call
  run_auth [] s = s
  run_auth (r ∷ rs) s = run_auth rs (serve_auth_call r.env r.call s)
