-- ===== src/Prelude/Unique.antt =====
-- Reads of a table after a write, and a unique constraint: no row clashes with one before it.
use mathlib.Core.Path.{◌≡◌, refl, sym, ◌∙◌, subst}
use mathlib.Core.Logic.{inl, inr}
use mathlib.Core.Bool.{Bool, true, false, false≢true}
use mathlib.Core.List.{List, [], ◌∷◌, ◌++◌}
use mathlib.Core.Option
use mathlib.Core.Option.{Option, none, some}
use native.Mathlib.Omega.{arith}
use desmobapp_backend.Prelude.Tests.{if◌then◌else◌, Bool-cases, ||-false}
use desmobapp_backend.Prelude.Lists.{any, find_first, update_where}
use desmobapp_backend.Prelude.Members.{In, here, there, any-true}

some≢none {ℓ} : {A : Type ℓ} {a : A} → ◌≡◌ {A = Option A} (some a) none → ⊥
some≢none h = cc

module _ {ℓ} {A : Type ℓ} (test : A → Bool) where
  pub any-snoc_false :
      (xs : List A) (x : A) → any test xs ≡ false → test x ≡ false → any test (xs ++ x ∷ []) ≡ false
  unfolding any
  any-snoc_false [] x h e = ground arith
  any-snoc_false (y ∷ xs) x h e = ground (arith, any-snoc_false xs x)

  pub any-snoc_true : (xs : List A) (x : A) → any test xs ≡ true → any test (xs ++ x ∷ []) ≡ true
  unfolding any
  any-snoc_true [] x h = ground arith
  any-snoc_true (y ∷ xs) x h = ground (arith, any-snoc_true xs x)

  pub find_first-none : (xs : List A) → any test xs ≡ false → find_first test xs ≡ none
  unfolding any find_first
  find_first-none [] h = refl
  find_first-none (x ∷ xs) h = ground (arith, find_first-none xs)

  pub find_first-any : (xs : List A) → any test xs ≡ true → (x : A) × (find_first test xs ≡ some x)
  unfolding any find_first
  find_first-any [] h = cc
  find_first-any (x ∷ xs) h = elim (Bool-cases (test x)) [
    | inl t ↦ (x, rw t refl)
    | inr n ↦ rw n (find_first-any xs (ground arith))
  ]

  pub find_first-absent : (xs : List A) → find_first test xs ≡ none → any test xs ≡ false
  unfolding any find_first
  find_first-absent [] h = refl
  find_first-absent (x ∷ xs) h = elim (Bool-cases (test x)) [
    | inl t ↦ absurd (some≢none (rw t at h))
    | inr n ↦ rw n (find_first-absent xs (rw n at h))
  ]

  pub find_first-snoc_other :
      (xs : List A) (x : A) → test x ≡ false → find_first test (xs ++ x ∷ []) ≡ find_first test xs
  unfolding find_first
  find_first-snoc_other [] x e = rw e refl
  find_first-snoc_other (y ∷ xs) x e = elim (Bool-cases (test y)) [
    | inl t ↦ rw t refl
    | inr n ↦ rw n (find_first-snoc_other xs x e)
  ]

  pub find_first-snoc :
      (xs : List A) (x : A)
      → any test xs ≡ false
      → test x ≡ true
      → find_first test (xs ++ x ∷ []) ≡ some x
  unfolding any find_first
  find_first-snoc [] x h e = ground arith
  find_first-snoc (y ∷ xs) x h e = ground (arith, find_first-snoc xs x)

  module _ (sel : A → Bool) (f : A → A) where
    pub any-update_where-false :
        ((x : A) → test (f x) ≡ true → test x ≡ true)
        → (xs : List A) → any test xs ≡ false
        → any test (update_where sel f xs) ≡ false
    unfolding any update_where
    any-update_where-false k [] h = refl
    any-update_where-false k (x ∷ xs) h =
        ground (arith, k x, any-update_where-false k xs, Bool-cases (sel x))

    pub any-update_where :
        ((x : A) → test (f x) ≡ test x)
        → (xs : List A) → any test (update_where sel f xs) ≡ any test xs
    unfolding any update_where
    any-update_where k [] = refl
    any-update_where k (x ∷ xs) = ground (arith, k x, any-update_where k xs, Bool-cases (sel x))

    -- What an UPDATE that the test does not see changes of a search.
    pub find_first-update_where-map :
        ((x : A) → test (f x) ≡ test x)
        → (xs : List A)
        → find_first test (update_where sel f xs)
          ≡ Option.map (λ x. if sel x then f x else x) (find_first test xs)
    unfolding find_first update_where
    find_first-update_where-map k [] = refl
    find_first-update_where-map k (y ∷ xs) = elim (Bool-cases (test y)) [
      | inl t ↦
          rw t (elim (Bool-cases (sel y)) [ inl a ↦ rw (a, k y ∙ t) refl | inr b ↦ rw (b, t) refl ])
      | inr n ↦ rw n (elim (Bool-cases (sel y)) [
        | inl a ↦ rw (a, k y ∙ n) (find_first-update_where-map k xs)
        | inr b ↦ rw (b, n) (find_first-update_where-map k xs)
      ])
    ]

    -- An UPDATE of rows that the test does not select, before or after.
    pub find_first-update_where_other :
        ((x : A) → sel x ≡ true → (test x ≡ false) × (test (f x) ≡ false))
        → (xs : List A) → find_first test (update_where sel f xs) ≡ find_first test xs
    unfolding find_first update_where
    find_first-update_where_other k [] = refl
    find_first-update_where_other k (y ∷ xs) = elim (Bool-cases (sel y)) [
      | inl a ↦ rw (a, (k y a).0, (k y a).1) (find_first-update_where_other k xs)
      | inr b ↦ rw (b, find_first-update_where_other k xs) refl
    ]

    -- A row that is found is found again after the UPDATE, with its new values.
    pub find_first-update_where :
        ((x : A) → test (f x) ≡ test x)
        → (xs : List A) {x : A} → find_first test xs ≡ some x
        → find_first test (update_where sel f xs) ≡ some (if sel x then f x else x)
    unfolding find_first update_where
    find_first-update_where k [] h = cc
    find_first-update_where k (y ∷ xs) {x} h = elim (Bool-cases (test y)) [
      | inl t ↦
          let same : y ≡ x = ground arith in
          subst
            (λ z.
              (if test (if sel y then f y else y)
                then some (if sel y then f y else y)
                else find_first test (update_where sel f xs))
              ≡ some (if sel z then f z else z))
            same (ground (arith, k y, Bool-cases (sel y)))
      | inr n ↦
          let rest = find_first-update_where k xs {x = x} (ground arith) in
          ground (arith, k y, Bool-cases (sel y))
    ]

pub any-same {ℓ} :
    {A : Type ℓ} (p q : A → Bool) → ((x : A) → p x ≡ q x) → (xs : List A) → any p xs ≡ any q xs
unfolding any
any-same p q k [] = refl
any-same p q k (x ∷ xs) = ground (arith, k x, any-same p q k xs)

pub any-narrow {ℓ} :
    {A : Type ℓ} (p q : A → Bool)
    → ((x : A) → p x ≡ false → q x ≡ false)
    → (xs : List A) → any p xs ≡ false
    → any q xs ≡ false
unfolding any
any-narrow p q k [] h = refl
any-narrow p q k (x ∷ xs) h =
    let (a, b) = ||-false (p x) (any p xs) h in ground (arith, k x a, any-narrow p q k xs b)

module _ {ℓ} {A : Type ℓ} (clash : A → A → Bool) where
  -- The rows in the order of their insertion.
  abbrev pub IsUnique : List A → Type 0
  IsUnique [] = Unit
  IsUnique (x ∷ xs) = (any (clash x) xs ≡ false) × IsUnique xs

  pub IsUnique-snoc :
      (xs : List A) (x : A)
      → IsUnique xs
      → any (λ r. clash r x) xs ≡ false
      → IsUnique (xs ++ x ∷ [])
  unfolding any
  IsUnique-snoc [] x u h = (refl, tt)
  IsUnique-snoc (y ∷ xs) x u h =
      let (a, b) = ||-false (clash y x) (any (λ r. clash r x) xs) h in
      (any-snoc_false (clash y) xs x u.0 a, IsUnique-snoc xs x u.1 b)

  -- An UPDATE that keeps the columns of the constraint.
  pub IsUnique-update_where :
      (sel : A → Bool) (f : A → A)
      → ((x y : A) → clash (f x) y ≡ clash x y)
      → ((x y : A) → clash x (f y) ≡ clash x y)
      → (xs : List A) → IsUnique xs
      → IsUnique (update_where sel f xs)
  unfolding update_where
  IsUnique-update_where sel f kl kr [] u = tt
  IsUnique-update_where sel f kl kr (x ∷ xs) u =
      let rest = IsUnique-update_where sel f kl kr xs u.1 in
      let same = any-update_where (clash x) sel f (kr x) xs ∙ u.0 in
      elim (Bool-cases (sel x)) [
        | inl t ↦ rw t (
            (
              any-update_where (clash (f x)) sel f (kr (f x)) xs
                  ∙ any-same (clash (f x)) (clash x) (kl x) xs
                  ∙ u.0,
              rest,
            ))
        | inr n ↦ rw n (same, rest)
      ]

  -- Two rows that clash both ways are one.
  pub eq_of_clash :
      (xs : List A) {x y : A}
      → IsUnique xs
      → In x xs
      → In y xs
      → clash x y ≡ true
      → clash y x ≡ true
      → x ≡ y
  eq_of_clash [] u m k e e' = elim m [ ]
  eq_of_clash (z ∷ xs) u (here a) (here b) e e' = a ∙ sym b
  eq_of_clash (z ∷ xs) {x} {y} u (here a) (there k) e e' =
      absurd (false≢true (sym u.0 ∙ any-true (clash z) xs k (subst (λ w. clash w y ≡ true) a e)))
  eq_of_clash (z ∷ xs) {x} {y} u (there m) (here b) e e' =
      absurd (false≢true (sym u.0 ∙ any-true (clash z) xs m (subst (λ w. clash w x ≡ true) b e')))
  eq_of_clash (z ∷ xs) u (there m) (there k) e e' = eq_of_clash xs u.1 m k e e'
