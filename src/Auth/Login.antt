-- ===== src/Auth/Login.antt =====
-- app/services/auth.py: who can log in, and what a registration and a reset have to do with it.
use desmobapp_backend.Prelude.{
  ℕ, ◌≡◌, refl, sym, ◌∙◌, ap, subst, true, false, none, some, String, [], ◌∷◌, ◌++◌, ok, any,
  any-narrow, find_first, find_first-snoc, >>=-eq-ok, ok-pair, ||-false, ◌==◌,
}
use desmobapp_backend.Access.Texts.{text_eq, text_eq_refl}
use desmobapp_backend.Access.Roles.{User}
use desmobapp_backend.Access.Tokens.{is_active}
use desmobapp_backend.Auth.{
  Store, user_clash, session_clash, insert_user, insert_refresh_token, Platform, Settings, AuthEnv,
  LoginRequest, LoginResponse, UserPublic, session_row, issue_session_tokens, open_session,
  user_of_email, login_user, RegisterRequest, user_row, register_user, assign_client,
  conflict_if_integrity_error,
}
use desmobapp_backend.Auth.Inserted.{insert_user-eq-ok, assign_client-eq-ok, login_response}

module _ (lib : Platform) (settings : Settings) where
  -- What it takes to log in as `user`.
  pub record MayLogin (env : AuthEnv) (payload : LoginRequest) (s : Store) (user : User)
      : Type 0 where
    pub found : user_of_email lib settings payload.email s ≡ some user
    pub verified : lib.verify_password payload.password user.password_hash ≡ true
    pub status_active : is_active user.status ≡ true
    pub fresh :
        any (λ r. session_clash r (session_row lib settings env user none)) s.refresh_tokens ≡ false

  -- The table with the row of the new session.
  abbrev pub with_session : AuthEnv → User → Store → Store
  with_session env user s = record s {
    refresh_tokens = s.refresh_tokens ++ session_row lib settings env user none ∷ [];
  }

  pub MayLogin-login_user :
      (env : AuthEnv) (payload : LoginRequest) (s : Store) (user : User)
      → MayLogin env payload s user
      → login_user lib settings env payload s
        ≡ ok (login_response lib settings env user s, with_session env user s)
  unfolding login_user open_session issue_session_tokens insert_refresh_token
  MayLogin-login_user env payload s user h = rw (h.found, h.verified, h.status_active, h.fresh) refl

  -- The check of a password accepts what its hash was made of.
  abbrev pub VerifiesHashes : Type 0
  VerifiesHashes =
      (salt : ℕ) (password : String)
      → lib.verify_password password (lib.hash_password salt password) ≡ true

  -- A registration that returns is followed by a login with the same address and password that
  -- returns, as the same user, if nothing has come between, the check of a password accepts what the
  -- hash was made of, and the identifier and the hash of the session are not in use.
  pub register_user-login_user :
      (env : AuthEnv) (payload : RegisterRequest) (s : Store) {public : UserPublic} {s' : Store}
      → VerifiesHashes
      → register_user lib env payload s ≡ ok (public, s')
      → (later : AuthEnv)
      → any
          (λ r. session_clash r (session_row lib settings later (user_row lib env payload) none))
          s'.refresh_tokens
        ≡ false
      → (a : LoginResponse) × (s'' : Store) × (login_user lib settings later
            (record { email = payload.email; password = payload.password })
            s'
          ≡ ok (a, s''))
        × (a.user ≡ public)
  unfolding register_user
  register_user-login_user env payload s {public} {s'} verifies e0 later fresh =
      let row = user_row lib env payload in
      let (added, e1, e2) = >>=-eq-ok (insert_user row s) _ e0 in
      let (unused, inserted) = insert_user-eq-ok row s e1 in
      let (committed, e3, e4) =
        >>=-eq-ok (conflict_if_integrity_error (assign_client env row added)) _ e2 in
      let (rows, assigned) = assign_client-eq-ok env row added e3 in
      let (answered, last) = ok-pair e4 in
      let users : s'.accounts.users ≡ s.accounts.users ++ row ∷ [] =
        ap (λ (x : Store). x.accounts.users) (last ∙ assigned)
        ∙ ap (λ (x : Store). x.accounts.users) inserted in
      let found : user_of_email lib settings payload.email s' ≡ some row =
        subst (λ us. find_first (λ u. text_eq u.email row.email) us ≡ some row) (sym users)
          (find_first-snoc (λ u. text_eq u.email row.email) s.accounts.users row
            (any-narrow (λ r. user_clash r row) (λ r. text_eq r.email row.email)
              (λ r c. (||-false (r.id == row.id) (text_eq r.email row.email) c).1) s.accounts.users
              unused)
            (text_eq_refl row.email)) in
      (
        login_response lib settings later row s',
        with_session later row s',
        MayLogin-login_user later (record { email = payload.email; password = payload.password }) s'
            row
            (record {
              found = found;
              verified = verifies env.salt payload.password;
              status_active = refl;
              fresh = fresh;
            }),
        sym answered,
      )
