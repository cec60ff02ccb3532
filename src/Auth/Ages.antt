-- ===== src/Auth/Ages.antt =====
-- app/db/models/access.py, `RefreshToken` and `PasswordResetToken`: what time may do to a table of
-- tokens, written without the services. Rows are added under a hash that is not in use, and ended;
-- no row is removed, brought back to life or given another hash.
use mathlib.Core.Path.{ap₂}
use desmobapp_backend.Prelude.{
  ◌≡◌, sym, ap, subst, ◌∙◌, Bool, true, false, ◌&&◌, ◌||◌, ◌==◌, ==_refl, String, List, [], ◌∷◌,
  ◌++◌, In, any, any-In, any-true, any-narrow, any-snoc_false, any-snoc_true, any-update_where,
  any-update_where-false, find_first, find_first-none, none, update_where, update_where-In,
  In-update_where, &&-true, ||-false, Bool-cases, inl, inr, true_and_false, arith, IsUnique,
  IsUnique-snoc, IsUnique-update_where, eq_of_clash,
}
use desmobapp_backend.Db.{Uuid}
use desmobapp_backend.Access.Texts.{text_eq, text_eq_refl, text_eq→eq}

-- What the two tables have in common.
pub record TokenTable (A : Type 0) : Type 0 where
  pub id : A → Uuid
  pub token_hash : A → String
  pub is_live : A → Bool

module _ {A : Type 0} (T : TokenTable A) where
  -- The unique columns of both.
  abbrev pub clash : A → A → Bool
  clash r t = T.id r == T.id t || text_eq (T.token_hash r) (T.token_hash t)

  -- A write that ends a row.
  pub record Ends (f : A → A) : Type 0 where
    pub keeps_id : (x : A) → T.id (f x) ≡ T.id x
    pub keeps_hash : (x : A) → T.token_hash (f x) ≡ T.token_hash x
    pub ends : (x : A) → T.is_live (f x) ≡ false

pub data Ages {A : Type 0} (T : TokenTable A) : List A → List A → Type 0 where
  unchanged : {ts us : List A} → us ≡ ts → Ages T ts us
  ended :
      {ts us : List A} (test : A → Bool) (f : A → A)
      → Ends T f
      → us ≡ update_where test f ts
      → Ages T ts us
  issued :
      {ts us : List A} (t : A)
      → any (λ r. clash T r t) ts ≡ false
      → us ≡ ts ++ t ∷ []
      → Ages T ts us
  and_then : {ts us vs : List A} → Ages T ts us → Ages T us vs → Ages T ts vs

module _ {A : Type 0} (T : TokenTable A) where
  abbrev pub has_hash : String → A → Bool
  has_hash hash t = text_eq (T.token_hash t) hash

  abbrev pub is_usable : String → A → Bool
  is_usable hash t = text_eq (T.token_hash t) hash && T.is_live t

  -- The table has the hash, and in no row that is live.
  pub record IsSpent (hash : String) (ts : List A) : Type 0 where
    pub known : any (has_hash hash) ts ≡ true
    pub unusable : any (is_usable hash) ts ≡ false

  pub IsSpent-refused :
      (hash : String) (ts : List A) → IsSpent hash ts → find_first (is_usable hash) ts ≡ none
  IsSpent-refused hash ts h = find_first-none (is_usable hash) ts h.unusable

  ended-IsSpent :
      (hash : String) (test : A → Bool) (f : A → A) (ts : List A)
      → Ends T f
      → IsSpent hash ts
      → IsSpent hash (update_where test f ts)
  ended-IsSpent hash test f ts e h = record {
    known =
        any-update_where (has_hash hash) test f (λ x. ap (λ k. text_eq k hash) (e.keeps_hash x)) ts
        ∙ h.known;
    unusable =
        any-update_where-false (is_usable hash) test f (λ x t. ground (arith, e.ends x)) ts
          h.unusable;
  }

  -- A fresh hash is not the one in use.
  fresh_hash :
      (hash : String) (t : A) (ts : List A)
      → any (λ r. clash T r t) ts ≡ false
      → any (has_hash hash) ts ≡ true
      → is_usable hash t ≡ false
  fresh_hash hash t ts unused known = elim (Bool-cases (text_eq (T.token_hash t) hash)) [
    | inl same ↦ absurd (
        true_and_false known (
          subst (λ k. any (λ r. text_eq (T.token_hash r) k) ts ≡ false)
            (text_eq→eq (T.token_hash t) hash same)
            (any-narrow (λ r. clash T r t) (λ r. text_eq (T.token_hash r) (T.token_hash t))
              (λ r c. (||-false (T.id r == T.id t) (text_eq (T.token_hash r) (T.token_hash t)) c).1)
              ts unused)))
    | inr other ↦ ground arith
  ]

  pub Ages-IsSpent :
      {ts us : List A} (hash : String) → Ages T ts us → IsSpent hash ts → IsSpent hash us
  Ages-IsSpent hash (unchanged e) h = subst (IsSpent hash) (sym e) h
  Ages-IsSpent {ts} hash (ended test f ends e) h =
      subst (IsSpent hash) (sym e) (ended-IsSpent hash test f ts ends h)
  Ages-IsSpent {ts} hash (issued t unused e) h = subst (IsSpent hash) (sym e) (record {
    known = any-snoc_true (has_hash hash) ts t h.known;
    unusable =
        any-snoc_false (is_usable hash) ts t h.unusable (fresh_hash hash t ts unused h.known);
  })
  Ages-IsSpent hash (and_then a b) h = Ages-IsSpent hash b (Ages-IsSpent hash a h)

  all_unusable :
      (hash : String) (ts : List A)
      → ((u : A) → In u ts → T.token_hash u ≡ hash → T.is_live u ≡ false)
      → any (is_usable hash) ts ≡ false
  all_unusable hash ts k = elim (Bool-cases (any (is_usable hash) ts)) [
    | inl t ↦
        let (u, m, e) = any-In (is_usable hash) ts t in
        let (a, b) = &&-true (text_eq (T.token_hash u) hash) (T.is_live u) e in
        absurd (true_and_false b (k u m (text_eq→eq (T.token_hash u) hash a)))
    | inr f ↦ f
  ]

  -- A hash is spent when some row has it and every row that has it is dead.
  pub dead-IsSpent :
      (hash : String) (ts : List A) {t : A}
      → In t ts
      → T.token_hash t ≡ hash
      → ((u : A) → In u ts → T.token_hash u ≡ hash → T.is_live u ≡ false)
      → IsSpent hash ts
  dead-IsSpent hash ts {t} m e k = record {
    known =
        any-true (has_hash hash) ts m
          (subst (λ h. text_eq (T.token_hash t) h ≡ true) e (text_eq_refl (T.token_hash t)));
    unusable = all_unusable hash ts k;
  }

  -- The unique columns stay unique.
  pub Ages-IsUnique :
      {ts us : List A} → Ages T ts us → IsUnique (clash T) ts → IsUnique (clash T) us
  Ages-IsUnique (unchanged e) u = subst (IsUnique (clash T)) (sym e) u
  Ages-IsUnique {ts} (ended test f ends e) u = subst (IsUnique (clash T)) (sym e) (
      IsUnique-update_where (clash T) test f
        (λ x y.
          ap₂ (λ i h. i == T.id y || text_eq h (T.token_hash y)) (ends.keeps_id x)
            (ends.keeps_hash x))
        (λ x y.
          ap₂ (λ i h. T.id x == i || text_eq (T.token_hash x) h) (ends.keeps_id y)
            (ends.keeps_hash y))
        ts u)
  Ages-IsUnique {ts} (issued t unused e) u =
      subst (IsUnique (clash T)) (sym e) (IsUnique-snoc (clash T) ts t u unused)
  Ages-IsUnique (and_then a b) u = Ages-IsUnique b (Ages-IsUnique a u)

  -- Two rows of one hash are one row.
  pub eq_of_hash :
      (ts : List A) {t u : A}
      → IsUnique (clash T) ts
      → In t ts
      → In u ts
      → T.token_hash t ≡ T.token_hash u
      → t ≡ u
  eq_of_hash ts {t} {u} unique m k e =
      eq_of_clash (clash T) ts unique m k (clashes t u e) (clashes u t (sym e))
    where
      clashes : (x y : A) → T.token_hash x ≡ T.token_hash y → clash T x y ≡ true
      clashes x y h =
          let same : text_eq (T.token_hash x) (T.token_hash y) ≡ true =
            subst (λ k. text_eq (T.token_hash x) k ≡ true) h (text_eq_refl (T.token_hash x)) in
          ground arith

  -- Once the row with an identifier is ended, the hash of that row is spent.
  pub end_row-IsSpent :
      (ts : List A) {t : A} (f : A → A) (hash : String)
      → Ends T f
      → IsUnique (clash T) ts
      → In t ts
      → T.token_hash t ≡ hash
      → IsSpent hash (update_where (λ r. T.id r == T.id t) f ts)
  end_row-IsSpent ts {t} f hash ends unique m e =
      dead-IsSpent hash (update_where (λ r. T.id r == T.id t) f ts)
        (In-update_where (λ r. T.id r == T.id t) f ts m (==_refl (T.id t))) (ends.keeps_hash t ∙ e)
        (λ u k h.
          let (x, i, c) = update_where-In (λ r. T.id r == T.id t) f ts k in
          elim c [
            | inl (hit, y) ↦ subst (λ z. T.is_live z ≡ false) (sym y) (ends.ends x)
            | inr (miss, y) ↦
                let same : x ≡ t = eq_of_hash ts unique i m (ap T.token_hash (sym y) ∙ h ∙ sym e) in
                absurd (
                  true_and_false (==_refl (T.id t))
                    (subst (λ z. (T.id z == T.id t) ≡ false) same miss))
          ])
