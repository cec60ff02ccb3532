-- ===== src/Auth/Once.antt =====
-- app/services/auth.py: a token that has been used, revoked or replaced is good for nothing later.
use desmobapp_backend.Prelude.{
  ℕ, ◌≡◌, refl, ap, subst, some, String, List, Result, Error, ok, err, auth_token,
  bad_refresh_token, In, IsUnique, find_first, find_first-In, leb, Bool-cases, Option-cases, inl,
  inr, raise_if-eq-ok, or_raise-eq-ok, ok-injective, &&-true,
}
use desmobapp_backend.Access.Texts.{text_eq, text_eq→eq}
use desmobapp_backend.Auth.{
  RefreshToken, PasswordResetToken, Store, is_null, user_clash, session_clash, reset_clash,
  Platform, Settings, AuthEnv, LoginResponse, revoke, revoke_session, is_session, find_session,
  commit_ok, rotate_session, refresh_record, refresh_user_session, logout_user_session, is_unused,
  AuthRequest, run_auth,
}
use desmobapp_backend.Auth.Ages.{
  Ends, IsSpent, IsSpent-refused, Ages-IsSpent, Ages-IsUnique, end_row-IsSpent,
}
use desmobapp_backend.Auth.Aged.{session_table, reset_table, rotate_session-Aged}
use desmobapp_backend.Auth.Served.{run_auth-Aged}

-- The unique constraints of the three tables.
pub record HasUniqueRows (s : Store) : Type 0 where
  pub users : IsUnique user_clash s.accounts.users
  pub sessions : IsUnique session_clash s.refresh_tokens
  pub resets : IsUnique reset_clash s.reset_tokens

is_session-hash :
    (hash : String) (ts : List RefreshToken) {t : RefreshToken}
    → find_first (is_session hash) ts ≡ some t
    → In t ts × (t.token_hash ≡ hash)
is_session-hash hash ts {t} h =
    let (m, e) = find_first-In (is_session hash) ts h in
    let (a, b) = &&-true (text_eq t.token_hash hash) (is_null t.revoked_at) e in
    (m, text_eq→eq t.token_hash hash a)

pub is_unused-hash :
    (hash : String) (ts : List PasswordResetToken) {t : PasswordResetToken}
    → find_first (is_unused hash) ts ≡ some t
    → In t ts × (t.token_hash ≡ hash)
is_unused-hash hash ts {t} h =
    let (m, e) = find_first-In (is_unused hash) ts h in
    let (a, b) = &&-true (text_eq t.token_hash hash) (is_null t.used_at) e in
    (m, text_eq→eq t.token_hash hash a)

err≢ok : {A : Type 0} {x : Error} {a : A} → ◌≡◌ {A = Result A} (err x) (ok a) → ⊥
err≢ok h = cc

pub revoke-Ends : (now : ℕ) → Ends session_table (revoke now)
revoke-Ends now = record { keeps_id = λ x. refl; keeps_hash = λ x. refl; ends = λ x. refl }

module _ (lib : Platform) (settings : Settings) where
  -- Neither a refresh nor a logout accepts the token.
  pub record IsRefused (token : String) (s : Store) : Type 0 where
    pub by_refresh :
        (env : AuthEnv)
        → refresh_user_session lib settings env token s ≡ (err (auth_token bad_refresh_token), s)
    pub by_logout :
        (env : AuthEnv)
        → logout_user_session lib settings env token s ≡ err (auth_token bad_refresh_token)

  IsSpent-IsRefused :
      (token : String) (s : Store)
      → IsSpent session_table (lib.hash_token token) s.refresh_tokens
      → IsRefused token s
  unfolding refresh_user_session logout_user_session
  IsSpent-IsRefused token s h =
      let absent = IsSpent-refused session_table (lib.hash_token token) s.refresh_tokens h in
      record {
        by_refresh = λ env. rw (absent, refresh_user_session) refl;
        by_logout = λ env. rw (absent, logout_user_session) refl;
      }

  pub later_IsRefused :
      (token : String) (s : Store) (rs : List AuthRequest)
      → IsSpent session_table (lib.hash_token token) s.refresh_tokens
      → IsRefused token (run_auth lib settings rs s)
  later_IsRefused token s rs h = IsSpent-IsRefused token (run_auth lib settings rs s) (
      Ages-IsSpent session_table (lib.hash_token token) (run_auth-Aged lib settings rs s).sessions
        h)

  revoked-IsSpent :
      (now : ℕ) (token : String) (s : Store) {t : RefreshToken}
      → HasUniqueRows s
      → find_session lib settings token s ≡ some t
      → IsSpent session_table (lib.hash_token token) (revoke_session now t s).refresh_tokens
  unfolding revoke_session
  revoked-IsSpent now token s {t} unique found =
      let (m, e) = is_session-hash (lib.hash_token token) s.refresh_tokens found in
      end_row-IsSpent session_table s.refresh_tokens (revoke now) (lib.hash_token token)
        (revoke-Ends now) unique.sessions m e

  commit_ok-eq-ok :
      {A : Type 0} (s : Store) (r : Result (A × Store)) {a : A} {s' : Store}
      → commit_ok s r ≡ (ok a, s')
      → r ≡ ok (a, s')
  commit_ok-eq-ok s (ok (b, x)) {a} {s'} e = cc
  commit_ok-eq-ok s (err x) e = cc

  refresh_record-spends :
      (env : AuthEnv) (token : String) (s : Store) {t : RefreshToken} {a : LoginResponse}
      {s' : Store}
      → HasUniqueRows s
      → find_session lib settings token s ≡ some t
      → refresh_record lib settings env t s ≡ (ok a, s')
      → IsSpent session_table (lib.hash_token token) s'.refresh_tokens
  unfolding refresh_record
  refresh_record-spends env token s {t} {a} {s'} unique found e =
      elim (Bool-cases (leb t.expires_at env.env.own_now)) [
        | inl past ↦ absurd (
            err≢ok
              (ap (λ (p : Result LoginResponse × Store). p.0) (rw (past, refresh_record) at e)))
        | inr live ↦
            Ages-IsSpent session_table (lib.hash_token token)
              (rotate_session-Aged lib settings env t s (
                commit_ok-eq-ok s (rotate_session lib settings env t s)
                  (rw (live, refresh_record) at e))).sessions
              (revoked-IsSpent env.env.own_now token s unique found)
      ]

  -- Where the unique constraints hold, a refresh token that a refresh has exchanged is refused by
  -- every refresh and every logout from then on, whatever requests are served in between.
  pub refresh_user_session_once :
      (env : AuthEnv) (token : String) (s : Store) {a : LoginResponse} {s' : Store}
      → HasUniqueRows s
      → refresh_user_session lib settings env token s ≡ (ok a, s')
      → (rs : List AuthRequest) → IsRefused token (run_auth lib settings rs s')
  unfolding refresh_user_session
  refresh_user_session_once env token s {a} {s'} unique e rs =
      elim (Option-cases (find_session lib settings token s)) [
        | inl absent ↦ absurd (
            err≢ok (
              ap (λ (p : Result LoginResponse × Store). p.0)
                (rw (absent, refresh_user_session) at e)))
        | inr (t, found) ↦
            later_IsRefused token s' rs (
              refresh_record-spends env token s unique found
                (rw (found, refresh_user_session) at e))
      ]

  -- Where the unique constraints hold, a refresh token that a logout has revoked is refused by
  -- every refresh and every logout from then on, whatever requests are served in between.
  pub logout_user_session_final :
      (env : AuthEnv) (token : String) (s : Store) {s' : Store}
      → HasUniqueRows s
      → logout_user_session lib settings env token s ≡ ok s'
      → (rs : List AuthRequest) → IsRefused token (run_auth lib settings rs s')
  unfolding logout_user_session
  logout_user_session_final env token s {s'} unique e0 rs =
      let (t, found, e1) = or_raise-eq-ok (find_session lib settings token s) _ _ e0 in
      let (live, e2) = raise_if-eq-ok (leb t.expires_at env.env.own_now) _ _ e1 in
      later_IsRefused token s' rs (
        subst (λ (x : Store). IsSpent session_table (lib.hash_token token) x.refresh_tokens)
          (ok-injective e2) (revoked-IsSpent env.env.own_now token s unique found))

  -- The unique columns of users and of both kinds of tokens are unique in every state that a history
  -- of requests leads to, if they are to begin with.
  pub run_auth-HasUniqueRows :
      (rs : List AuthRequest) (s : Store)
      → HasUniqueRows s
      → HasUniqueRows (run_auth lib settings rs s)
  run_auth-HasUniqueRows rs s unique =
      let aged = run_auth-Aged lib settings rs s in
      record {
        users = aged.users unique.users;
        sessions = Ages-IsUnique session_table aged.sessions unique.sessions;
        resets = Ages-IsUnique reset_table aged.resets unique.resets;
      }
