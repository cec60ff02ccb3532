-- ===== src/Auth/Aged.antt =====
-- app/services/auth.py: what each service does to the tables of tokens, and a history of requests.
use desmobapp_backend.Prelude.{
  ◌≡◌, refl, sym, subst, not, Option, none, String, Result, ok, err, IsUnique, leb, ◌==◌,
  Bool-cases, inl, inr, raise_if-eq-ok, or_raise-eq-ok, ok-injective, Option-cases,
}
use desmobapp_backend.Access.Roles.{User}
use desmobapp_backend.Access.Tokens.{is_active}
use desmobapp_backend.Auth.{
  user_clash, DeviceInfo, RefreshToken, PasswordResetToken, Store, is_null, Platform, Settings,
  AuthEnv, LoginRequest, LoginResponse, session_row, revoke, revoke_session, find_user,
  user_of_email, find_session, open_session, login_user, rotate_session, refresh_record,
  refresh_user_session, logout_user_session, commit_ok,
}
use desmobapp_backend.Auth.Ages.{TokenTable, Ages, unchanged, ended, issued, and_then}
use desmobapp_backend.Auth.Inserted.{open_session-eq-ok}

abbrev pub session_table : TokenTable RefreshToken
session_table = record {
  id = λ t. t.id;
  token_hash = λ t. t.token_hash;
  is_live = λ t. is_null t.revoked_at;
}

abbrev pub reset_table : TokenTable PasswordResetToken
reset_table = record {
  id = λ t. t.id;
  token_hash = λ t. t.token_hash;
  is_live = λ t. is_null t.used_at;
}

-- Both tables of tokens have aged, and the unique columns of users are as good as before.
pub record Aged (s s' : Store) : Type 0 where
  pub sessions : Ages session_table s.refresh_tokens s'.refresh_tokens
  pub resets : Ages reset_table s.reset_tokens s'.reset_tokens
  pub users : IsUnique user_clash s.accounts.users → IsUnique user_clash s'.accounts.users

pub Aged-refl : (s : Store) → Aged s s
Aged-refl s = record { sessions = unchanged refl; resets = unchanged refl; users = λ u. u }

pub Aged-trans : {s s' s'' : Store} → Aged s s' → Aged s' s'' → Aged s s''
Aged-trans h k = record {
  sessions = and_then h.sessions k.sessions;
  resets = and_then h.resets k.resets;
  users = λ u. k.users (h.users u);
}

revoke_session-Aged : (now : _) (t : RefreshToken) (s : Store) → Aged s (revoke_session now t s)
unfolding revoke_session
revoke_session-Aged now t s = record {
  sessions =
      ended (λ r. r.id == t.id) (revoke now)
        (record { keeps_id = λ x. refl; keeps_hash = λ x. refl; ends = λ x. refl }) refl;
  resets = unchanged refl;
  users = λ u. u;
}

module _ (lib : Platform) (settings : Settings) where
  open_session-Aged :
      (env : AuthEnv) (user : User) (info : Option DeviceInfo) (s : Store) {a : LoginResponse}
      {s' : Store}
      → open_session lib settings env user info s ≡ ok (a, s')
      → Aged s s'
  open_session-Aged env user info s e =
      let row = session_row lib settings env user info in
      let (unused, after, answered) = open_session-eq-ok lib settings env user info s e in
      subst (Aged s) (sym after)
        (record { sessions = issued row unused refl; resets = unchanged refl; users = λ u. u })

  pub login_user-Aged :
      (env : AuthEnv) (payload : LoginRequest) (s : Store) {a : LoginResponse} {s' : Store}
      → login_user lib settings env payload s ≡ ok (a, s')
      → Aged s s'
  unfolding login_user
  login_user-Aged env payload s e0 =
      let (user, found, e1) = or_raise-eq-ok (user_of_email lib settings payload.email s) _ _ e0 in
      let (verified, e2) =
        raise_if-eq-ok (not (lib.verify_password payload.password user.password_hash)) _ _ e1 in
      let (on, e3) = raise_if-eq-ok (not (is_active user.status)) _ _ e2 in
      open_session-Aged env user none s e3

  pub rotate_session-Aged :
      (env : AuthEnv) (t : RefreshToken) (s : Store) {a : LoginResponse} {s' : Store}
      → rotate_session lib settings env t s ≡ ok (a, s')
      → Aged (revoke_session env.env.own_now t s) s'
  unfolding rotate_session
  rotate_session-Aged env t s e0 =
      let (user, found, e1) = or_raise-eq-ok (find_user t.user_id s) _ _ e0 in
      let (on, e2) = raise_if-eq-ok (not (is_active user.status)) _ _ e1 in
      open_session-Aged env user t.device_info (revoke_session env.env.own_now t s) e2

  commit_ok-Aged :
      {A : Type 0} (s : Store) (r : Result (A × Store))
      → ((a : A) (s' : Store) → r ≡ ok (a, s') → Aged s s')
      → Aged s (commit_ok s r).1
  commit_ok-Aged s (ok (a, s')) k = k a s' refl
  commit_ok-Aged s (err e) k = Aged-refl s

  refresh_record-Aged :
      (env : AuthEnv) (t : RefreshToken) (s : Store)
      → Aged s (refresh_record lib settings env t s).1
  unfolding refresh_record
  refresh_record-Aged env t s = elim (Bool-cases (leb t.expires_at env.env.own_now)) [
    | inl past ↦ rw (past, refresh_record) (revoke_session-Aged env.env.own_now t s)
    | inr live ↦
        rw (live, refresh_record)
          (commit_ok-Aged s (rotate_session lib settings env t s) (λ a s' e.
            Aged-trans (revoke_session-Aged env.env.own_now t s) (rotate_session-Aged env t s e)))
  ]

  pub refresh_user_session-Aged :
      (env : AuthEnv) (token : String) (s : Store)
      → Aged s (refresh_user_session lib settings env token s).1
  unfolding refresh_user_session
  refresh_user_session-Aged env token s = elim (Option-cases (find_session lib settings token s)) [
    | inl absent ↦ rw (absent, refresh_user_session) (Aged-refl s)
    | inr (t, found) ↦ rw (found, refresh_user_session) (refresh_record-Aged env t s)
  ]

  pub logout_user_session-Aged :
      (env : AuthEnv) (token : String) (s : Store) {s' : Store}
      → logout_user_session lib settings env token s ≡ ok s'
      → Aged s s'
  unfolding logout_user_session
  logout_user_session-Aged env token s e0 =
      let (t, found, e1) = or_raise-eq-ok (find_session lib settings token s) _ _ e0 in
      let (live, e2) = raise_if-eq-ok (leb t.expires_at env.env.own_now) _ _ e1 in
      subst (Aged s) (ok-injective e2) (revoke_session-Aged env.env.own_now t s)
