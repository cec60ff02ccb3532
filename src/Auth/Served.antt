-- ===== src/Auth/Served.antt =====
-- app/services/auth.py: accounts and resets, and a history of requests: the tables of tokens only
-- age.
use desmobapp_backend.Prelude.{
  ℕ, Error, ◌≡◌, refl, sym, ◌∙◌, subst, not, Option, none, some, String, List, [], ◌∷◌, Result, ok,
  err, IsUnique-snoc, IsUnique-update_where, leb, ◌==◌, Bool-cases, inl, inr, raise_if-eq-ok,
  or_raise-eq-ok, >>=-eq-ok, ok-pair,
}
use desmobapp_backend.Db.{Db}
use desmobapp_backend.Access.Roles.{User}
use desmobapp_backend.Access.Tokens.{is_active}
use desmobapp_backend.Auth.{
  user_clash, PasswordResetToken, Store, Platform, Settings, AuthEnv, UserPublic, revoke, find_user,
  user_of_email, login_user, refresh_user_session, logout_user_session, RegisterRequest,
  register_user, user_row, ForgotPasswordResponse, ResetPasswordRequest, reset_row, create_reset,
  reset_for, request_password_reset, is_session_of, find_reset, apply_reset, reset_password,
  AuthCall, register_call, login_call, refresh_call, logout_call, forgot_call, reset_call,
  update_me_call, AuthRequest, register_endpoint, login_endpoint, refresh_endpoint, logout_endpoint,
  forgot_password_endpoint, reset_password_endpoint, update_me_endpoint, updated_user,
  update_current_user_profile, serve_auth_call, run_auth, insert_user, insert_reset_token,
  notify_email, register_code, login_code, refresh_code, logout_code, forgot_code, assign_client,
  conflict_if_integrity_error,
}
use desmobapp_backend.Api.{answer, answer_message, answer_committed}
use desmobapp_backend.Auth.Ages.{unchanged, ended, issued}
use desmobapp_backend.Auth.Inserted.{
  insert_user-eq-ok, insert_reset_token-eq-ok, assign_client-eq-ok, notify_email-eq-ok,
}
use desmobapp_backend.Auth.Aged.{
  Aged, Aged-refl, Aged-trans, login_user-Aged, refresh_user_session-Aged, logout_user_session-Aged,
}

module _ (lib : Platform) (settings : Settings) where
  register_user-Aged :
      (env : AuthEnv) (payload : RegisterRequest) (s : Store) {a : UserPublic} {s' : Store}
      → register_user lib env payload s ≡ ok (a, s')
      → Aged s s'
  unfolding register_user
  register_user-Aged env payload s e0 =
      let (added, e1, e2) = >>=-eq-ok (insert_user (user_row lib env payload) s) _ e0 in
      let (unused, after) = insert_user-eq-ok (user_row lib env payload) s e1 in
      let (committed, e3, e4) =
        >>=-eq-ok (conflict_if_integrity_error (assign_client env (user_row lib env payload) added))
          _ e2 in
      let (rows, assigned) = assign_client-eq-ok env (user_row lib env payload) added e3 in
      let (answered, last) = ok-pair e4 in
      subst (Aged s) (sym (last ∙ assigned)) (
        subst
          (λ (x : Store). Aged s (record x { accounts = record x.accounts { assignments = rows } }))
          (sym after)
          (record {
            sessions = unchanged refl;
            resets = unchanged refl;
            users =
                λ u. IsUnique-snoc user_clash s.accounts.users (user_row lib env payload) u unused;
          }))

  create_reset-Aged :
      (env : AuthEnv) (user : User) (s : Store) {a : ForgotPasswordResponse} {s' : Store}
      → create_reset lib settings env user s ≡ ok (a, s')
      → Aged s s'
  unfolding create_reset
  create_reset-Aged env user s e0 =
      let row = reset_row lib settings env user in
      let (added, e1, e2) = >>=-eq-ok (insert_reset_token row s) _ e0 in
      let (unused, after) = insert_reset_token-eq-ok row s e1 in
      let (notified, e3, e4) =
        >>=-eq-ok (notify_email env user "password_reset_requested" added) _ e2 in
      let (db, noted) = notify_email-eq-ok env user "password_reset_requested" added e3 in
      let (answered, last) = ok-pair e4 in
      subst (Aged s) (sym (last ∙ noted)) (
        subst (λ (x : Store). Aged s (record x { db = db })) (sym after)
          (record { sessions = unchanged refl; resets = issued row unused refl; users = λ u. u }))

  reset_for-Aged :
      (env : AuthEnv) (o : Option User) (s : Store) {a : ForgotPasswordResponse} {s' : Store}
      → reset_for lib settings env o s ≡ ok (a, s')
      → Aged s s'
  unfolding reset_for
  reset_for-Aged env none s e = subst (Aged s) (sym (ok-pair e).1) (Aged-refl s)
  reset_for-Aged env (some user) s e = elim (Bool-cases (is_active user.status)) [
    | inl on ↦ create_reset-Aged env user s (rw (on, reset_for) at e)
    | inr off ↦ subst (Aged s) (sym (ok-pair (rw (off, reset_for) at e)).1) (Aged-refl s)
  ]

  request_password_reset-Aged :
      (env : AuthEnv) (address : String) (s : Store) {a : ForgotPasswordResponse} {s' : Store}
      → request_password_reset lib settings env address s ≡ ok (a, s')
      → Aged s s'
  unfolding request_password_reset
  request_password_reset-Aged env address s e =
      reset_for-Aged env (user_of_email lib settings address s) s e

  apply_reset-Aged :
      (env : AuthEnv) (password : String) (user : User) (t : PasswordResetToken) (s : Store)
      → Aged s (apply_reset lib settings env password user t s)
  unfolding apply_reset
  apply_reset-Aged env password user t s = record {
    sessions =
        ended (is_session_of user.id) (revoke env.env.own_now)
          (record { keeps_id = λ x. refl; keeps_hash = λ x. refl; ends = λ x. refl }) refl;
    resets =
        ended (λ r. r.id == t.id) (λ r. record r { used_at = some env.env.own_now })
          (record { keeps_id = λ x. refl; keeps_hash = λ x. refl; ends = λ x. refl }) refl;
    users =
        IsUnique-update_where user_clash (λ u. u.id == user.id)
          (λ u. record u { password_hash = lib.hash_password env.salt password }) (λ x y. refl)
          (λ x y. refl) s.accounts.users;
  }

  pub reset_password-Aged :
      (env : AuthEnv) (payload : ResetPasswordRequest) (s : Store) {s' : Store}
      → reset_password lib settings env payload s ≡ ok s'
      → Aged s s'
  unfolding reset_password
  reset_password-Aged env payload s e0 =
      let (t, found, e1) = or_raise-eq-ok (find_reset lib settings payload.token s) _ _ e0 in
      let (live, e2) = raise_if-eq-ok (leb t.expires_at env.env.own_now) _ _ e1 in
      let (user, who, e3) = or_raise-eq-ok (find_user t.user_id s) _ _ e2 in
      let (on, e4) = raise_if-eq-ok (not (is_active user.status)) _ _ e3 in
      let done = apply_reset lib settings env payload.new_password user t s in
      let (db, noted) = notify_email-eq-ok env user "password_reset_completed" done e4 in
      subst (Aged s) (sym noted)
        (kept_but_db db (apply_reset-Aged env payload.new_password user t s))
    where
      kept_but_db : (db : Db) {s' : Store} → Aged s s' → Aged s (record s' { db = db })
      kept_but_db db h = record { sessions = h.sessions; resets = h.resets; users = h.users }

  answer-Aged :
      {A : Type 0} (status : ℕ) (code : Error → ℕ) (s : Store) (r : Result (A × Store))
      → ((a : A) (s' : Store) → r ≡ ok (a, s') → Aged s s')
      → Aged s (answer status code s r).1
  answer-Aged status code s (ok (a, s')) k = k a s' refl
  answer-Aged status code s (err e) k = Aged-refl s

  answer_message-Aged :
      (message : String) (code : Error → ℕ) (s : Store) (r : Result Store)
      → ((s' : Store) → r ≡ ok s' → Aged s s')
      → Aged s (answer_message message code s r).1
  answer_message-Aged message code s (ok s') k = k s' refl
  answer_message-Aged message code s (err e) k = Aged-refl s

  answer_committed-Aged :
      {A : Type 0} (code : Error → ℕ) (s : Store) (r : Result A × Store)
      → Aged s r.1
      → Aged s (answer_committed code r).1
  answer_committed-Aged code s (ok a, s') h = h
  answer_committed-Aged code s (err e, s') h = h

  serve_auth_call-Aged :
      (env : AuthEnv) (call : AuthCall) (s : Store)
      → Aged s (serve_auth_call lib settings env call s)
  unfolding serve_auth_call register_endpoint login_endpoint refresh_endpoint logout_endpoint
      forgot_password_endpoint reset_password_endpoint update_me_endpoint
      update_current_user_profile updated_user
  serve_auth_call-Aged env (register_call p) s =
      answer-Aged 201 register_code s (register_user lib env p s)
        (λ a s' e. register_user-Aged env p s e)
  serve_auth_call-Aged env (login_call p) s =
      answer-Aged 200 login_code s (login_user lib settings env p s)
        (λ a s' e. login_user-Aged lib settings env p s e)
  serve_auth_call-Aged env (refresh_call token) s =
      answer_committed-Aged refresh_code s (refresh_user_session lib settings env token s)
        (refresh_user_session-Aged lib settings env token s)
  serve_auth_call-Aged env (logout_call token) s =
      answer_message-Aged "Logged out successfully." logout_code s
        (logout_user_session lib settings env token s)
        (λ s' e. logout_user_session-Aged lib settings env token s e)
  serve_auth_call-Aged env (forgot_call address) s =
      answer-Aged 200 forgot_code s (request_password_reset lib settings env address s)
        (λ a s' e. request_password_reset-Aged env address s e)
  serve_auth_call-Aged env (reset_call p) s =
      answer_message-Aged "Password was reset successfully." refresh_code s
        (reset_password lib settings env p s) (λ s' e. reset_password-Aged env p s e)
  serve_auth_call-Aged env (update_me_call user p) s = record {
    sessions = unchanged refl;
    resets = unchanged refl;
    users =
        IsUnique-update_where user_clash (λ u. u.id == user.id) (updated_user p) (λ x y. refl)
          (λ x y. refl) s.accounts.users;
  }

  -- Whatever requests are served, the tables of tokens only age.
  pub run_auth-Aged : (rs : List AuthRequest) (s : Store) → Aged s (run_auth lib settings rs s)
  unfolding run_auth
  run_auth-Aged [] s = Aged-refl s
  run_auth-Aged (r ∷ rs) s =
      Aged-trans (serve_auth_call-Aged r.env r.call s)
        (run_auth-Aged rs (serve_auth_call lib settings r.env r.call s))
