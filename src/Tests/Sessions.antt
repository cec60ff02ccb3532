-- ===== src/Tests/Sessions.antt =====
-- A client with a session and a forgotten password, and what becomes of the tokens.
use desmobapp_backend.Prelude.{
  ℕ, ◌≡◌, refl, false, none, some, String, List, [], ◌∷◌, ok, err, auth_credentials,
  bad_credentials, auth_token, bad_reset_token, integrity_error, here, find_first, update_where,
  any,
}
use desmobapp_backend.Db.{email, email_only, insert_notification}
use desmobapp_backend.Notification.{notification_row, notify_by}
use desmobapp_backend.Access.Texts.{text_eq, text_eq_refl}
use desmobapp_backend.Access.Roles.{active, User}
use desmobapp_backend.Api.{failure}
use desmobapp_backend.Auth.{
  session_clash, find_user, find_reset, reset_row, create_reset, RefreshToken, PasswordResetToken,
  Store, insert_user, insert_refresh_token, insert_reset_token, Platform, Settings, AuthEnv,
  LoginResponse, user_public, session_row, revoke_session, issue_session_tokens, open_session,
  login_user, rotate_session, refresh_record, refresh_user_session, logout_user_session,
  RegisterRequest, user_row, assign_client, register_user, ResetPasswordRequest,
  ForgotPasswordResponse, reset_response, reset_for, request_password_reset, apply_reset,
  reset_password, AuthRequest, refresh_call, login_call, run_auth, register_endpoint,
}
use desmobapp_backend.Auth.Inserted.{login_response}
use desmobapp_backend.Auth.Once.{
  HasUniqueRows, IsRefused, refresh_user_session_once, logout_user_session_final,
  run_auth-HasUniqueRows,
}
use desmobapp_backend.Auth.Replaced.{reset_password-ends_sessions, reset_password_once}
use desmobapp_backend.Auth.Login.{with_session, VerifiesHashes, register_user-login_user}
use desmobapp_backend.Auth.Reentry.{reset_password-login_user}
use desmobapp_backend.Auth.Answers.{register_endpoint_duplicate, request_password_reset_alike}
use desmobapp_backend.Tests.Samples.{env, empty_db}

-- Hashes that hide nothing.
abbrev platform : Platform
platform = record {
  hash_password = λ salt password. password;
  verify_password = λ password hash. text_eq password hash;
  hash_token = λ token. token;
  encode = λ payload. payload.email;
  lower = λ text. text;
}

abbrev settings : Settings
settings = record {
  app_env = "production";
  refresh_token_expire_days = 14;
  password_reset_token_expire_minutes = 60;
}

abbrev draw : ℕ → String → AuthEnv
draw i token = record {
  env = env i;
  issued_now = 0;
  session_id = i;
  assignment_id = i;
  token = token;
  salt = 0;
}

abbrev client : User
client = record {
  id = 9;
  email = "c@example.org";
  password_hash = "secret";
  name = "C";
  phone = none;
  status = active;
}

abbrev phone_session : RefreshToken
phone_session = record {
  id = 40;
  user_id = 9;
  token_hash = "phone";
  expires_at = 100;
  revoked_at = none;
  device_info = some (("provider", "mock") ∷ []);
  created_at = 0;
}

abbrev forgotten : PasswordResetToken
forgotten = record {
  id = 50;
  user_id = 9;
  token_hash = "mailed";
  expires_at = 100;
  used_at = none;
  created_at = 0;
}

abbrev start : Store
start = record {
  accounts = record { users = client ∷ []; roles = []; assignments = [] };
  refresh_tokens = phone_session ∷ [];
  reset_tokens = forgotten ∷ [];
  db = empty_db;
}

start-HasUniqueRows : HasUniqueRows start
unfolding any
start-HasUniqueRows = record { users = (refl, tt); sessions = (refl, tt); resets = (refl, tt) }

platform-VerifiesHashes : VerifiesHashes platform settings
platform-VerifiesHashes salt password = text_eq_refl password

-- Someone tries the old token, and logs in.
abbrev later_requests : List AuthRequest
later_requests =
    record { env = draw 70 "x"; call = refresh_call "phone" }
    ∷ record {
      env = draw 71 "y";
      call = login_call (record { email = "c@example.org"; password = "secret" });
    }
    ∷ []

abbrev refreshed : Store
refreshed = record start {
  refresh_tokens =
      record phone_session { revoked_at = some 0 }
      ∷ session_row platform settings (draw 60 "tablet") client phone_session.device_info
      ∷ [];
}

refresh_returns :
    refresh_user_session platform settings (draw 60 "tablet") "phone" start
    ≡ (ok (login_response platform settings (draw 60 "tablet") client start), refreshed)
unfolding refresh_user_session refresh_record rotate_session open_session issue_session_tokens
    revoke_session insert_refresh_token find_first update_where any text_eq
refresh_returns = refl

refresh_user_session_once_example :
    IsRefused platform settings "phone" (run_auth platform settings later_requests refreshed)
refresh_user_session_once_example =
    refresh_user_session_once platform settings (draw 60 "tablet") "phone" start start-HasUniqueRows
      refresh_returns later_requests

abbrev logged_out : Store
logged_out = record start { refresh_tokens = record phone_session { revoked_at = some 0 } ∷ [] }

logout_returns : logout_user_session platform settings (draw 60 "") "phone" start ≡ ok logged_out
unfolding logout_user_session revoke_session find_first update_where text_eq
logout_returns = refl

logout_user_session_final_example :
    IsRefused platform settings "phone" (run_auth platform settings later_requests logged_out)
logout_user_session_final_example =
    logout_user_session_final platform settings (draw 60 "") "phone" start start-HasUniqueRows
      logout_returns later_requests

abbrev new_secret : ResetPasswordRequest
new_secret = record { token = "mailed"; new_password = "better" }

abbrev changed_client : User
changed_client = record client { password_hash = "better" }

abbrev replaced : Store
replaced = record {
  accounts = record { users = changed_client ∷ []; roles = []; assignments = [] };
  refresh_tokens = record phone_session { revoked_at = some 0 } ∷ [];
  reset_tokens = record forgotten { used_at = some 0 } ∷ [];
  db = record empty_db {
    notifications =
        notification_row (env 60) email 9 "password_reset_completed" (email_only "c@example.org")
        ∷ [];
  };
}

reset_returns : reset_password platform settings (draw 60 "") new_secret start ≡ ok replaced
unfolding reset_password apply_reset notify_by insert_notification find_first update_where any
    text_eq
reset_returns = refl

mailed_found : find_reset platform settings "mailed" start ≡ some forgotten
unfolding find_first text_eq
mailed_found = refl

reset_password-ends_sessions_example :
    IsRefused platform settings "phone" (run_auth platform settings later_requests replaced)
reset_password-ends_sessions_example =
    reset_password-ends_sessions platform settings (draw 60 "") new_secret start start-HasUniqueRows
      reset_returns forgotten mailed_found phone_session (here refl) refl "phone" refl
      later_requests

reset_password_once_example :
    reset_password platform settings
      (draw 80 "")
      (record { token = "mailed"; new_password = "third" })
      (run_auth platform settings later_requests replaced)
    ≡ err (auth_token bad_reset_token)
reset_password_once_example =
    reset_password_once platform settings (draw 60 "") new_secret start start-HasUniqueRows
      reset_returns later_requests (draw 80 "") "third"

run_auth-HasUniqueRows_example : HasUniqueRows (run_auth platform settings later_requests start)
run_auth-HasUniqueRows_example =
    run_auth-HasUniqueRows platform settings later_requests start start-HasUniqueRows

abbrev tablet_login : LoginResponse
tablet_login = login_response platform settings (draw 60 "tablet") client start

abbrev with_tablet : Store
with_tablet = with_session platform settings (draw 60 "tablet") client start

abbrev newcomer : RegisterRequest
newcomer = record { email = "n@example.org"; password = "opened"; name = "N"; phone = none }

abbrev registered : Store
registered = record start {
  accounts = record {
    users = client ∷ user_row platform (draw 60 "") newcomer ∷ [];
    roles = [];
    assignments = [];
  };
}

register_returns :
    register_user platform (draw 60 "") newcomer start
    ≡ ok (user_public (user_row platform (draw 60 "") newcomer), registered)
unfolding register_user insert_user assign_client find_first any text_eq
register_returns = refl

free_session :
    any
      (λ r. session_clash r (
        session_row platform settings
          (draw 61 "tablet")
          (user_row platform (draw 60 "") newcomer)
          none))
      registered.refresh_tokens
    ≡ false
unfolding any text_eq
free_session = refl

register_user-login_user_example :
    (a : LoginResponse) × (s : Store) × (login_user platform settings
        (draw 61 "tablet")
        (record { email = "n@example.org"; password = "opened" })
        registered
      ≡ ok (a, s))
    × (a.user ≡ user_public (user_row platform (draw 60 "") newcomer))
register_user-login_user_example =
    register_user-login_user platform settings (draw 60 "") newcomer start platform-VerifiesHashes
      register_returns (draw 61 "tablet") free_session

client_found : find_user 9 start ≡ some client
unfolding find_first
client_found = refl

free_after_reset :
    any
      (λ r. session_clash r (session_row platform settings (draw 61 "tablet") client none))
      replaced.refresh_tokens
    ≡ false
unfolding any text_eq
free_after_reset = refl

reset_password-login_user_example :
    ((a : LoginResponse) × (s : Store) × (login_user platform settings
          (draw 61 "tablet")
          (record { email = "c@example.org"; password = "better" })
          replaced
        ≡ ok (a, s))
      × (a.user ≡ user_public client))
    × ((password : String)
        → text_eq password "better" ≡ false
        → login_user platform settings
            (draw 61 "tablet")
            (record { email = "c@example.org"; password = password })
            replaced
          ≡ err (auth_credentials bad_credentials))
reset_password-login_user_example =
    reset_password-login_user platform settings (draw 60 "") new_secret start
      platform-VerifiesHashes start-HasUniqueRows reset_returns forgotten mailed_found client
      client_found "c@example.org" refl (draw 61 "tablet") free_after_reset

register_endpoint_duplicate_example :
    register_endpoint platform settings
      (draw 60 "")
      (record { email = "c@example.org"; password = "opened"; name = "D"; phone = none })
      start
    ≡ (failure 500 integrity_error, start)
register_endpoint_duplicate_example =
    register_endpoint_duplicate platform settings (draw 60 "")
      (record { email = "c@example.org"; password = "opened"; name = "D"; phone = none }) start
      client (here refl) refl

abbrev asked : Store
asked = record start {
  reset_tokens = forgotten ∷ reset_row platform settings (draw 60 "second") client ∷ [];
  db = record empty_db {
    notifications =
        notification_row (env 60) email 9 "password_reset_requested" (email_only "c@example.org")
        ∷ [];
  };
}

known_asks :
    request_password_reset platform settings (draw 60 "second") "c@example.org" start
    ≡ ok (reset_response none, asked)
unfolding request_password_reset reset_for create_reset insert_reset_token notify_by
    insert_notification find_first any text_eq
known_asks = refl

unknown_asks :
    request_password_reset platform settings (draw 61 "third") "nobody@example.org" start
    ≡ ok (reset_response none, start)
unfolding request_password_reset reset_for find_first text_eq
unknown_asks = refl

request_password_reset_alike_example :
    ◌≡◌ {A = ForgotPasswordResponse} (reset_response none) (reset_response none)
request_password_reset_alike_example =
    request_password_reset_alike platform settings (draw 60 "second") (draw 61 "third")
      "c@example.org" "nobody@example.org" start start refl known_asks unknown_asks
