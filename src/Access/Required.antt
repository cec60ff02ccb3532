-- ===== src/Access/Required.antt =====
-- app/api/dependencies/auth.py: whom `require_permissions` and `get_current_user` let pass.
use desmobapp_backend.Prelude.{
  ◌≡◌, ◌↔◌, refl, sym, ap, subst, true, inl, inr, Option, none, some, String, List, [], ◌∷◌, In,
  here, there, filter_by, Bool-cases,
}
use desmobapp_backend.Access.Texts.{
  text_eq, text_eq_refl, text_eq→eq, contains, contains-true, contains-In,
}
use desmobapp_backend.Access.Roles.{User, Accounts, role_rows, get_user_permissions_context}
use desmobapp_backend.Access.Tokens.{
  AccessTokenPayload, Detail, and_then, Guarded, granted, denied, Decoder, build_access_token,
  read_token, missing, demand, require_permissions,
}
use desmobapp_backend.Access.Granted.{Grants, permissions-Grants}

-- Every permission that is asked for is in the token.
pub record Covers (required : List String) (payload : AccessTokenPayload) : Type 0 where
  pub each : (p : String) → In p required → In p payload.permissions

missing-nil :
    (required : List String) (payload : AccessTokenPayload)
    → missing required payload ≡ []
    → Covers required payload
unfolding missing filter_by
missing-nil [] payload e = record { each = λ p m. elim m [ ] }
missing-nil (p ∷ ps) payload e = elim (Bool-cases (contains payload.permissions p)) [
  | inl t ↦
      let rest = missing-nil ps payload (rw t at e) in
      record {
        each = λ q m. elim m [
          | here e' ↦
              subst (λ x. In x payload.permissions) (sym e') (contains-In payload.permissions t)
          | there k ↦ rest.each q k
        ];
      }
  | inr f ↦ absurd (cons≢nil (rw f at e))
]
  where
    cons≢nil : {x : String} {xs : List String} → x ∷ xs ≡ [] → ⊥
    cons≢nil h = cc

Covers-missing :
    (required : List String) (payload : AccessTokenPayload)
    → Covers required payload
    → missing required payload ≡ []
unfolding missing filter_by
Covers-missing [] payload c = refl
Covers-missing (p ∷ ps) payload c =
    rw (contains-true payload.permissions (c.each p (here refl)))
      (Covers-missing ps payload (record { each = λ q m. c.each q (there m) }))

-- What a token has to be.
pub record IsAdmitted (decode : Decoder) (required : List String) (token : String)
    (payload : AccessTokenPayload) : Type 0 where
  pub decoded : decode token ≡ some payload
  pub is_access : payload.type ≡ "access"
  pub covers : Covers required payload

pub granted-injective : {A : Type 0} {a b : A} → granted a ≡ granted b → a ≡ b
granted-injective h = cc

demand-granted :
    (ms : List String) (a payload : AccessTokenPayload)
    → demand ms a ≡ granted payload
    → (ms ≡ []) × (a ≡ payload)
demand-granted [] a payload h = (refl, granted-injective h)
demand-granted (m ∷ ms) a payload h = cc

pub and_then-granted :
    {A B : Type 0} (m : Guarded A) (f : A → Guarded B) {b : B}
    → and_then m f ≡ granted b
    → (a : A) × (m ≡ granted a) × (f a ≡ granted b)
and_then-granted (granted a) f h = (a, refl, h)
and_then-granted (denied d) f h = cc

pub denied≢granted :
    {A : Type 0} {d : Detail} {a : A} → ◌≡◌ {A = Guarded A} (denied d) (granted a) → ⊥
denied≢granted h = cc

pub read_token-eq-granted :
    (o : Option AccessTokenPayload) {payload : AccessTokenPayload}
    → read_token o ≡ granted payload
    → (o ≡ some payload) × (payload.type ≡ "access")
unfolding read_token
read_token-eq-granted none h = absurd (denied≢granted h)
read_token-eq-granted (some a) {payload} h = elim (Bool-cases (text_eq a.type "access")) [
  | inl t ↦
      let same : a ≡ payload = granted-injective (rw (t, read_token) at h) in
      (
        ap some same,
        subst (λ (x : AccessTokenPayload). x.type ≡ "access") same (text_eq→eq a.type "access" t),
      )
  | inr f ↦ absurd (denied≢granted (rw (f, read_token) at h))
]

pub read_token-access :
    (payload : AccessTokenPayload)
    → payload.type ≡ "access"
    → read_token (some payload) ≡ granted payload
unfolding read_token
read_token-access payload e =
    rw (subst (λ s. text_eq s "access" ≡ true) (sym e) (text_eq_refl "access"), read_token) refl

require_permissions-IsAdmitted :
    (decode : Decoder) (required : List String) (token : String) (payload : AccessTokenPayload)
    → require_permissions decode required token ≡ granted payload
    → IsAdmitted decode required token payload
unfolding require_permissions
require_permissions-IsAdmitted decode required token payload h =
    let (a, e, k) = and_then-granted (read_token (decode token)) _ h in
    let (decoded, is_access) = read_token-eq-granted (decode token) e in
    let (nothing, same) = demand-granted (missing required a) a payload k in
    subst (IsAdmitted decode required token) same
      (record { decoded = decoded; is_access = is_access; covers = missing-nil required a nothing })

IsAdmitted-require_permissions :
    (decode : Decoder) (required : List String) (token : String) (payload : AccessTokenPayload)
    → IsAdmitted decode required token payload
    → require_permissions decode required token ≡ granted payload
unfolding require_permissions
IsAdmitted-require_permissions decode required token payload c =
    rw (c.decoded, read_token-access payload c.is_access, Covers-missing required payload c.covers)
      refl

-- A route behind `require_permissions` lets a token pass if and only if the token can be read, is an
-- access token and lists every permission that is asked for.
pub require_permissions-granted :
    (decode : Decoder) (required : List String) (token : String) (payload : AccessTokenPayload)
    → (require_permissions decode required token ≡ granted payload)
      ↔ IsAdmitted decode required token payload
require_permissions-granted decode required token payload = (
  require_permissions-IsAdmitted decode required token payload,
  IsAdmitted-require_permissions decode required token payload,
)

-- The token that a user was issued with passes for a permission if and only if some role assigned to
-- the user has it, for every venue or for one, whichever that is: the routes ask about no venue.
pub issued_token-admitted :
    (decode : Decoder) (accounts : Accounts) (user : User) (token p : String)
    → decode token ≡ some (build_access_token user (get_user_permissions_context accounts user.id))
    → (require_permissions decode (p ∷ []) token
        ≡ granted (build_access_token user (get_user_permissions_context accounts user.id)))
      ↔ Grants p (role_rows accounts user.id)
unfolding build_access_token
issued_token-admitted decode accounts user token p e = (has_role, passes)
  where
    issued : AccessTokenPayload
    issued = build_access_token user (get_user_permissions_context accounts user.id)

    has_role :
        require_permissions decode (p ∷ []) token ≡ granted issued
        → Grants p (role_rows accounts user.id)
    has_role h =
        (permissions-Grants accounts user.id p).0 (
          ((require_permissions-granted decode (p ∷ []) token issued).0 h).covers.each p
            (here refl))

    passes :
        Grants p (role_rows accounts user.id)
        → require_permissions decode (p ∷ []) token ≡ granted issued
    passes g = (require_permissions-granted decode (p ∷ []) token issued).1 (record {
      decoded = e;
      is_access = refl;
      covers = record {
        each = λ q m. elim m [
          | here e' ↦
              subst (λ x. In x issued.permissions) (sym e')
                ((permissions-Grants accounts user.id p).1 g)
          | there k ↦ elim k [ ]
        ];
      };
    })
