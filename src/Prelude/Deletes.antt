-- ===== src/Prelude/Deletes.antt =====
-- A DELETE of rows, and what it leaves to a search and of a unique constraint.
use mathlib.Core.Path.{◌≡◌, refl, ap, subst, sym}
use mathlib.Core.Logic.{inl, inr}
use mathlib.Core.Bool.{Bool, true, false}
use mathlib.Core.List.{List, [], ◌∷◌}
use mathlib.Core.Option.{none, some}
use native.Mathlib.Omega.{arith}
use desmobapp_backend.Prelude.Tests.{Bool-cases}
use desmobapp_backend.Prelude.Lists.{any, find_first, filter_by}
use desmobapp_backend.Prelude.Members.{In, here, there}
use desmobapp_backend.Prelude.Unique.{IsUnique}

module _ {ℓ} {A : Type ℓ} where
  pub any-filter_by-false :
      (test keep : A → Bool) (xs : List A)
      → any test xs ≡ false
      → any test (filter_by keep xs) ≡ false
  unfolding any filter_by
  any-filter_by-false test keep [] h = refl
  any-filter_by-false test keep (x ∷ xs) h = elim (Bool-cases (keep x)) [
    | inl t ↦ rw t (ground (arith, any-filter_by-false test keep xs))
    | inr n ↦ rw n (any-filter_by-false test keep xs (ground arith))
  ]

  pub IsUnique-filter_by :
      (clash : A → A → Bool) (keep : A → Bool) (xs : List A)
      → IsUnique clash xs
      → IsUnique clash (filter_by keep xs)
  unfolding filter_by
  IsUnique-filter_by clash keep [] u = tt
  IsUnique-filter_by clash keep (x ∷ xs) u = elim (Bool-cases (keep x)) [
    | inl t ↦
        rw t ((any-filter_by-false (clash x) keep xs u.0, IsUnique-filter_by clash keep xs u.1))
    | inr n ↦ rw n (IsUnique-filter_by clash keep xs u.1)
  ]

  -- The row that is found is found again if it is kept.
  pub find_first-filter_by :
      (test keep : A → Bool) (xs : List A) {x : A}
      → find_first test xs ≡ some x
      → keep x ≡ true
      → find_first test (filter_by keep xs) ≡ some x
  unfolding find_first filter_by
  find_first-filter_by test keep [] h k = cc
  find_first-filter_by test keep (y ∷ xs) {x} h k = elim (Bool-cases (test y)) [
    | inl t ↦
        let same : y ≡ x = ground arith in
        rw (subst (λ z. keep z ≡ true) (sym same) k, t) (ap some same)
    | inr n ↦
        let rest = find_first-filter_by test keep xs {x = x} (ground arith) k in
        elim (Bool-cases (keep y)) [ inl a ↦ rw (a, n) rest | inr b ↦ rw b rest ]
  ]

  -- Nothing is found if no row that is kept passes the test.
  pub find_first-filter_by-none :
      (test keep : A → Bool) (xs : List A)
      → ((x : A) → In x xs → keep x ≡ true → test x ≡ false)
      → find_first test (filter_by keep xs) ≡ none
  unfolding find_first filter_by
  find_first-filter_by-none test keep [] k = refl
  find_first-filter_by-none test keep (y ∷ xs) k =
      let rest = find_first-filter_by-none test keep xs (λ x m. k x (there m)) in
      elim (Bool-cases (keep y)) [ inl a ↦ rw (a, k y (here refl) a) rest | inr b ↦ rw b rest ]
