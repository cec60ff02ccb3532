-- ===== src/Auth/Answers.antt =====
-- app/services/auth.py: what the answers of a registration and of a forgotten password give away.
use desmobapp_backend.Prelude.{
  ◌≡◌, refl, sym, ◌∙◌, subst, true, Option, none, some, String, ok, integrity_error, In, any-true,
  Bool-cases, inl, inr, arith, >>=-eq-ok, ok-pair,
}
use desmobapp_backend.Access.Texts.{text_eq, text_eq_refl}
use desmobapp_backend.Access.Roles.{User}
use desmobapp_backend.Access.Tokens.{is_active}
use desmobapp_backend.Api.{failure}
use desmobapp_backend.Auth.{
  shown_token, Store, user_clash, insert_user, insert_reset_token, Platform, Settings, AuthEnv,
  RegisterRequest, user_row, register_user, register_endpoint, user_of_email,
  ForgotPasswordResponse, reset_response, reset_row, create_reset, reset_for,
  request_password_reset, notify_email,
}

module _ (lib : Platform) (settings : Settings) where
  -- A registration with an address that some user has is answered by the status 500, as an error that
  -- the service does not handle, and never by the conflict that the route has for it.
  pub register_endpoint_duplicate :
      (env : AuthEnv) (payload : RegisterRequest) (s : Store) (u : User)
      → In u s.accounts.users
      → u.email ≡ lib.lower payload.email
      → register_endpoint lib settings env payload s ≡ (failure 500 integrity_error, s)
  unfolding register_endpoint register_user insert_user
  register_endpoint_duplicate env payload s u m e =
      let row = user_row lib env payload in
      let same : text_eq u.email row.email ≡ true =
        subst (λ k. text_eq u.email k ≡ true) e (text_eq_refl u.email) in
      let clashes : user_clash u row ≡ true = ground arith in
      rw (any-true (λ r. user_clash r row) s.accounts.users m clashes) refl

  create_reset-response :
      (env : AuthEnv) (user : User) (s : Store) {a : ForgotPasswordResponse} {s' : Store}
      → text_eq settings.app_env "production" ≡ true
      → create_reset lib settings env user s ≡ ok (a, s')
      → a ≡ reset_response none
  unfolding create_reset
  create_reset-response env user s production e0 =
      let (added, e1, e2) =
        >>=-eq-ok (insert_reset_token (reset_row lib settings env user) s) _ e0 in
      let (notified, e3, e4) =
        >>=-eq-ok (notify_email env user "password_reset_requested" added) _ e2 in
      let (answered, last) = ok-pair e4 in answered ∙ rw (production, shown_token) refl

  reset_for-response :
      (env : AuthEnv) (o : Option User) (s : Store) {a : ForgotPasswordResponse} {s' : Store}
      → text_eq settings.app_env "production" ≡ true
      → reset_for lib settings env o s ≡ ok (a, s')
      → a ≡ reset_response none
  unfolding reset_for
  reset_for-response env none s production e = (ok-pair e).0
  reset_for-response env (some user) s production e = elim (Bool-cases (is_active user.status)) [
    | inl on ↦ create_reset-response env user s production (rw (on, reset_for) at e)
    | inr off ↦ (ok-pair (rw (off, reset_for) at e)).0
  ]

  -- In production, any two requests for a reset that are answered are answered alike, whether
  -- the addresses belong to active users, to others or to nobody.
  pub request_password_reset_alike :
      (env env' : AuthEnv) (address address' : String) (s t : Store) {a b : ForgotPasswordResponse}
      {s' t' : Store}
      → settings.app_env ≡ "production"
      → request_password_reset lib settings env address s ≡ ok (a, s')
      → request_password_reset lib settings env' address' t ≡ ok (b, t')
      → a ≡ b
  unfolding request_password_reset
  request_password_reset_alike env env' address address' s t production e e' =
      let on : text_eq settings.app_env "production" ≡ true =
        subst (λ k. text_eq k "production" ≡ true) (sym production) (text_eq_refl "production") in
      reset_for-response env (user_of_email lib settings address s) s on e
      ∙ sym (reset_for-response env' (user_of_email lib settings address' t) t on e')
