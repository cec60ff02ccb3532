-- ===== src/Auth/Reentry.antt =====
-- app/services/auth.py: `login_user` after `reset_password`.
use desmobapp_backend.Prelude.{
  ◌≡◌, refl, sym, ◌∙◌, ap, subst, true, false, some, none, String, ok, err, auth_credentials,
  bad_credentials, In, any, any-true, eq_of_clash, find_first, find_first-In, find_first-any,
  find_first-update_where, ◌==◌, ==_refl, eq_of_some, if◌then◌else◌, update_where, arith,
}
use desmobapp_backend.Access.Texts.{text_eq, text_eq_refl, text_eq→eq}
use desmobapp_backend.Access.Roles.{User}
use desmobapp_backend.Access.Tokens.{is_active}
use desmobapp_backend.Auth.{
  PasswordResetToken, Store, user_clash, session_clash, Platform, Settings, AuthEnv, LoginResponse,
  user_public, session_row, user_of_email, find_user, login_user, ResetPasswordRequest, find_reset,
  reset_password,
}
use desmobapp_backend.Auth.Inserted.{login_response}
use desmobapp_backend.Auth.Once.{HasUniqueRows}
use desmobapp_backend.Auth.Replaced.{ResetDone, reset_password-ResetDone}
use desmobapp_backend.Auth.Login.{MayLogin-login_user, with_session, VerifiesHashes}

module _ (lib : Platform) (settings : Settings) where
  -- Where addresses are unique, the address of a user finds the user.
  user_of_own_email :
      (s : Store) (user : User) (address : String)
      → HasUniqueRows s
      → In user s.accounts.users
      → lib.lower address ≡ user.email
      → user_of_email lib settings address s ≡ some user
  user_of_own_email s user address unique m e =
      let hit : text_eq user.email (lib.lower address) ≡ true =
        subst (λ k. text_eq user.email k ≡ true) (sym e) (text_eq_refl user.email) in
      let (x, found) =
        find_first-any (λ u. text_eq u.email (lib.lower address)) s.accounts.users
          (any-true (λ u. text_eq u.email (lib.lower address)) s.accounts.users m hit) in
      let (k, h) =
        find_first-In (λ u. text_eq u.email (lib.lower address)) s.accounts.users found in
      let same = text_eq→eq x.email (lib.lower address) h ∙ e in
      found
      ∙ ap some (
          eq_of_clash user_clash s.accounts.users unique.users k m (clashes x user same)
            (clashes user x (sym same)))
    where
      clashes : (a b : User) → a.email ≡ b.email → user_clash a b ≡ true
      clashes a b h =
          let same : text_eq a.email b.email ≡ true =
            subst (λ k. text_eq a.email k ≡ true) h (text_eq_refl a.email) in
          ground arith

  found_after :
      (env : AuthEnv) (payload : ResetPasswordRequest) (s : Store) (r : PasswordResetToken)
      (s' : Store) (address : String)
      → HasUniqueRows s
      → (done : ResetDone lib settings env payload s r s') → lib.lower address ≡ done.user.email
      → user_of_email lib settings address s'
        ≡ some
            (record done.user { password_hash = lib.hash_password env.salt payload.new_password })
  found_after env payload s r s' address unique done e =
      let user = done.user in
      let f : User → User =
        λ u. record u { password_hash = lib.hash_password env.salt payload.new_password } in
      let (m, id_of) = find_first-In (λ u. u.id == r.user_id) s.accounts.users done.who in
      let before = user_of_own_email s user address unique m e in
      let after =
        find_first-update_where (λ u. text_eq u.email (lib.lower address)) (λ u. u.id == user.id) f
          (λ x. refl) s.accounts.users before in
      subst (λ us. find_first (λ u. text_eq u.email (lib.lower address)) us ≡ some (f user))
        (sym done.users_after)
        (subst
          (λ b.
            find_first (λ u. text_eq u.email (lib.lower address))
              (update_where (λ u. u.id == user.id) f s.accounts.users)
            ≡ some (if b then f user else user))
          (==_refl user.id) after)

  -- After a `reset_password` that returns, where the unique constraints hold and the check of a
  -- password accepts what the hash was made of, the user of the reset logs in with the address and the new
  -- password, if the identifier and the hash of the session are not in use; a password that the
  -- check does not accept for the new hash is refused.
  pub reset_password-login_user :
      (env : AuthEnv) (payload : ResetPasswordRequest) (s : Store) {s' : Store}
      → VerifiesHashes lib settings
      → HasUniqueRows s
      → reset_password lib settings env payload s ≡ ok s'
      → (r : PasswordResetToken) → find_reset lib settings payload.token s ≡ some r
      → (user : User) → find_user r.user_id s ≡ some user
      → (address : String) → lib.lower address ≡ user.email
      → (later : AuthEnv)
      → any (λ t. session_clash t (session_row lib settings later user none)) s'.refresh_tokens
        ≡ false
      → ((a : LoginResponse) × (s'' : Store) × (login_user lib settings later
              (record { email = address; password = payload.new_password })
              s'
            ≡ ok (a, s''))
          × (a.user ≡ user_public user))
        × ((password : String)
            → lib.verify_password password (lib.hash_password env.salt payload.new_password) ≡ false
            → login_user lib settings later (record { email = address; password = password }) s'
              ≡ err (auth_credentials bad_credentials))
  unfolding login_user user_public
  reset_password-login_user env payload s {s'} verifies unique e r found user who address small
        later fresh =
      let done = reset_password-ResetDone lib settings env payload s e r found in
      let same : done.user ≡ user = eq_of_some (sym done.who ∙ who) in
      let now : User = record user {
        password_hash = lib.hash_password env.salt payload.new_password;
      } in
      let there : user_of_email lib settings address s' ≡ some now =
        found_after env payload s r s' address unique done
          (small ∙ ap (λ (u : User). u.email) (sym same))
        ∙ ap
            (λ (u : User).
              some (record u { password_hash = lib.hash_password env.salt payload.new_password }))
            same in
      (
        (
          login_response lib settings later now s',
          with_session lib settings later now s',
          MayLogin-login_user lib settings later
              (record { email = address; password = payload.new_password }) s' now
              (record {
                found = there;
                verified = verifies env.salt payload.new_password;
                status_active =
                    ap (λ (u : User). is_active u.status) (sym same) ∙ done.status_active;
                fresh = fresh;
              }),
          refl,
        ),
        λ password wrong. rw (there, login_user, wrong) refl,
      )
