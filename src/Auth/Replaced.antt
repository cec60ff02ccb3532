-- ===== src/Auth/Replaced.antt =====
-- app/services/auth.py, `reset_password`: what it does to the sessions of the user and to its token.
use desmobapp_backend.Prelude.{
  ℕ, ◌≡◌, refl, sym, ◌∙◌, ap, subst, true, false, not, some, String, List, In-update_where_miss, ok,
  err, auth_token, bad_reset_token, In, IsUnique, find_first-In, leb, not-not, ◌==◌, ==_refl, ==→eq,
  eq_of_some, arith, Bool-cases, inl, inr, raise_if-eq-ok, or_raise-eq-ok, update_where,
  update_where-In, In-update_where,
}
use desmobapp_backend.Db.{Uuid}
use desmobapp_backend.Access.Roles.{User}
use desmobapp_backend.Access.Tokens.{is_active}
use desmobapp_backend.Auth.{
  RefreshToken, PasswordResetToken, Store, is_null, session_clash, Platform, Settings, AuthEnv,
  revoke, find_user, ResetPasswordRequest, find_reset, apply_reset, reset_password, is_session_of,
  AuthRequest, run_auth,
}
use desmobapp_backend.Auth.Ages.{
  IsSpent, IsSpent-refused, Ages-IsSpent, end_row-IsSpent, dead-IsSpent, eq_of_hash,
}
use desmobapp_backend.Auth.Inserted.{notify_email-eq-ok}
use desmobapp_backend.Auth.Aged.{session_table, reset_table}
use desmobapp_backend.Auth.Served.{run_auth-Aged}
use desmobapp_backend.Auth.Once.{HasUniqueRows, is_unused-hash, IsRefused, later_IsRefused}

module _ (lib : Platform) (settings : Settings) where
  all_revoked :
      (now : ℕ) {user_id : Uuid} {hash : String} {ts : List RefreshToken} {t u : RefreshToken}
      → IsUnique session_clash ts
      → In t ts
      → t.user_id ≡ user_id
      → t.token_hash ≡ hash
      → In u (update_where (is_session_of user_id) (revoke now) ts)
      → u.token_hash ≡ hash
      → is_null u.revoked_at ≡ false
  all_revoked now {user_id} {hash} {ts} {t} {u} unique m who e k h =
      let (x, i, c) = update_where-In (is_session_of user_id) (revoke now) ts k in
      elim c [
        | inl (hit, y) ↦ subst (λ (z : RefreshToken). is_null z.revoked_at ≡ false) (sym y) refl
        | inr (miss, y) ↦
            let same : u ≡ t =
              y
              ∙ eq_of_hash session_table ts unique i m
                  (ap (λ (z : RefreshToken). z.token_hash) (sym y) ∙ h ∙ sym e) in
            let own : (u.user_id == user_id) ≡ true =
              subst (λ i. (u.user_id == i) ≡ true) (ap (λ (z : RefreshToken). z.user_id) same ∙ who)
                (==_refl u.user_id) in
            let missed : is_session_of user_id u ≡ false =
              subst (λ z. is_session_of user_id z ≡ false) (sym y) miss in
            ground arith
      ]

  -- What `reset_password` has done when it returns.
  pub record ResetDone (env : AuthEnv) (payload : ResetPasswordRequest) (s : Store)
      (r : PasswordResetToken) (s' : Store) : Type 0 where
    pub user : User
    pub who : find_user r.user_id s ≡ some user
    pub status_active : is_active user.status ≡ true
    pub users_after :
        s'.accounts.users
        ≡ update_where
            (λ u. u.id == user.id)
            (λ u. record u { password_hash = lib.hash_password env.salt payload.new_password })
            s.accounts.users
    pub sessions_after :
        s'.refresh_tokens
        ≡ update_where (is_session_of user.id) (revoke env.env.own_now) s.refresh_tokens
    pub resets_after :
        s'.reset_tokens
        ≡ update_where
            (λ x. x.id == r.id)
            (λ x. record x { used_at = some env.env.own_now })
            s.reset_tokens

  pub reset_password-ResetDone :
      (env : AuthEnv) (payload : ResetPasswordRequest) (s : Store) {s' : Store}
      → reset_password lib settings env payload s ≡ ok s'
      → (r : PasswordResetToken) → find_reset lib settings payload.token s ≡ some r
      → ResetDone env payload s r s'
  unfolding reset_password apply_reset
  reset_password-ResetDone env payload s {s'} e0 r found =
      let (t, found', e1) = or_raise-eq-ok (find_reset lib settings payload.token s) _ _ e0 in
      let same : t ≡ r = eq_of_some (sym found' ∙ found) in
      let (live, e2) = raise_if-eq-ok (leb t.expires_at env.env.own_now) _ _ e1 in
      let (user, who, e3) = or_raise-eq-ok (find_user t.user_id s) _ _ e2 in
      let (on, e4) = raise_if-eq-ok (not (is_active user.status)) _ _ e3 in
      let done = apply_reset lib settings env payload.new_password user t s in
      let (db, noted) = notify_email-eq-ok env user "password_reset_completed" done e4 in
      subst (λ x. ResetDone env payload s x s') same
        (record {
          user = user;
          who = who;
          status_active = not-not (is_active user.status) on;
          users_after = ap (λ (x : Store). x.accounts.users) noted;
          sessions_after = ap (λ (x : Store). x.refresh_tokens) noted;
          resets_after = ap (λ (x : Store). x.reset_tokens) noted;
        })

  -- The table after a reset, which revokes every live session of the user.
  revoke_all-IsSpent :
      (now : ℕ) (user_id : Uuid) (token : String) (s : Store) {t : RefreshToken}
      → HasUniqueRows s
      → In t s.refresh_tokens
      → t.user_id ≡ user_id
      → t.token_hash ≡ lib.hash_token token
      → IsSpent session_table
          (lib.hash_token token)
          (update_where (is_session_of user_id) (revoke now) s.refresh_tokens)
  revoke_all-IsSpent now user_id token s {t} unique m who e =
      let after = update_where (is_session_of user_id) (revoke now) s.refresh_tokens in
      let dead : (u : RefreshToken)
          → In u after
          → u.token_hash ≡ lib.hash_token token
          → is_null u.revoked_at ≡ false =
        λ u k h. all_revoked now unique.sessions m who e k h in
      elim (Bool-cases (is_session_of user_id t)) [
        | inl hit ↦
            dead-IsSpent session_table (lib.hash_token token) after {t = revoke now t}
              (In-update_where (is_session_of user_id) (revoke now) s.refresh_tokens m hit) e dead
        | inr miss ↦
            dead-IsSpent session_table (lib.hash_token token) after
              (In-update_where_miss (is_session_of user_id) (revoke now) s.refresh_tokens m miss) e
              dead
      ]

  -- Where the unique constraints hold, a `reset_password` that returns ends every session that the
  -- user of the reset has: each refresh token of that user is refused by every refresh and every
  -- logout from then on, whatever requests are served in between.
  pub reset_password-ends_sessions :
      (env : AuthEnv) (payload : ResetPasswordRequest) (s : Store) {s' : Store}
      → HasUniqueRows s
      → reset_password lib settings env payload s ≡ ok s'
      → (r : PasswordResetToken) → find_reset lib settings payload.token s ≡ some r
      → (t : RefreshToken) → In t s.refresh_tokens
      → t.user_id ≡ r.user_id
      → (token : String) → t.token_hash ≡ lib.hash_token token
      → (rs : List AuthRequest) → IsRefused lib settings token (run_auth lib settings rs s')
  reset_password-ends_sessions env payload s {s'} unique e r found t m who token h rs =
      let done = reset_password-ResetDone env payload s e r found in
      let (k, id_of) = find_first-In (λ u. u.id == r.user_id) s.accounts.users done.who in
      later_IsRefused lib settings token s' rs (
        subst (λ ts. IsSpent session_table (lib.hash_token token) ts) (sym done.sessions_after)
          (revoke_all-IsSpent env.env.own_now done.user.id token s unique m
            (who ∙ sym (==→eq done.user.id r.user_id id_of)) h))

  -- Where the unique constraints hold, a reset token resets a password once: after a
  -- `reset_password` that returns, the same token is refused, whatever requests are served in between.
  pub reset_password_once :
      (env : AuthEnv) (payload : ResetPasswordRequest) (s : Store) {s' : Store}
      → HasUniqueRows s
      → reset_password lib settings env payload s ≡ ok s'
      → (rs : List AuthRequest) (later : AuthEnv) (password : String)
      → reset_password lib settings later
          (record { token = payload.token; new_password = password })
          (run_auth lib settings rs s')
        ≡ err (auth_token bad_reset_token)
  unfolding reset_password
  reset_password_once env payload s {s'} unique e rs later password =
      let (r, found, k) = or_raise-eq-ok (find_reset lib settings payload.token s) _ _ e in
      let done = reset_password-ResetDone env payload s e r found in
      let (m, h) = is_unused-hash (lib.hash_token payload.token) s.reset_tokens found in
      let spent : IsSpent reset_table (lib.hash_token payload.token) s'.reset_tokens =
        subst (IsSpent reset_table (lib.hash_token payload.token)) (sym done.resets_after) (
          end_row-IsSpent reset_table s.reset_tokens
            (λ x. record x { used_at = some env.env.own_now }) (lib.hash_token payload.token)
            (record { keeps_id = λ x. refl; keeps_hash = λ x. refl; ends = λ x. refl })
            unique.resets m h) in
      let absent =
        IsSpent-refused reset_table (lib.hash_token payload.token)
          (run_auth lib settings rs s').reset_tokens
          (Ages-IsSpent reset_table (lib.hash_token payload.token)
            (run_auth-Aged lib settings rs s').resets spent) in
      rw (absent, reset_password) refl
