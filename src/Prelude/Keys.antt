-- ===== src/Prelude/Keys.antt =====
-- Tables row by row: distinct identifiers, and a relation between the rows before and after a write.
use Prim.Native.Nat.{ℕ}
use mathlib.Core.Path.{◌≡◌, refl, sym, ◌∙◌, ap, ap₂, subst}
use mathlib.Core.Logic.{inl, inr}
use mathlib.Core.Bool.{Bool, true, false, false≢true}
use mathlib.Core.List.{List, [], ◌∷◌, ◌++◌, map, Forall₂}
use native.Mathlib.Omega.{arith}
use desmobapp_backend.Prelude.Tests.{◌==◌, ==_refl, ==→eq, Bool-cases}
use mathlib.Core.Option.{some}
use desmobapp_backend.Prelude.Lists.{any, update_where, find_first}
use desmobapp_backend.Prelude.Members.{In, here, there, any-true, find_first-In}

-- No identifier is in use twice.
abbrev pub Distinct : List ℕ → Type 0
Distinct [] = Unit
Distinct (i ∷ is) = (any (λ j. j == i) is ≡ false) × Distinct is

any-snoc :
    (i j : ℕ) (is : List ℕ)
    → any (λ k. k == i) is ≡ false
    → (j == i) ≡ false
    → any (λ k. k == i) (is ++ j ∷ []) ≡ false
unfolding any
any-snoc i j [] h e = ground arith
any-snoc i j (k ∷ is) h e = ground (arith, any-snoc i j is)

pub Distinct-snoc :
    (is : List ℕ) (j : ℕ) → Distinct is → any (λ k. k == j) is ≡ false → Distinct (is ++ j ∷ [])
unfolding any
Distinct-snoc [] j d h = (refl, tt)
Distinct-snoc (i ∷ is) j d h =
    (any-snoc i j is d.0 (ground arith), Distinct-snoc is j d.1 (ground arith))

module _ {ℓ} {A : Type ℓ} (key : A → ℕ) where
  pub any-map : (i : ℕ) (xs : List A) → any (λ k. k == i) (map key xs) ≡ any (λ x. key x == i) xs
  unfolding any
  any-map i [] = refl
  any-map i (x ∷ xs) = ground (arith, any-map i xs)

  any-map-In :
      (i : ℕ) (xs : List A) {x : A} → In x xs → i ≡ key x → any (λ k. k == i) (map key xs) ≡ true
  any-map-In i xs {x} m e =
      any-map i xs
      ∙ any-true (λ x. key x == i) xs m (subst (λ k. (key x == k) ≡ true) (sym e) (==_refl (key x)))

  -- Where identifiers are distinct, a row is known by its identifier.
  pub eq_of_key :
      (xs : List A) {x y : A} → Distinct (map key xs) → In x xs → In y xs → key x ≡ key y → x ≡ y
  eq_of_key [] d m k e = elim m [ ]
  eq_of_key (z ∷ xs) d (here e) (here e') h = e ∙ sym e'
  eq_of_key (z ∷ xs) d (here e) (there m) h =
      absurd (false≢true (sym d.0 ∙ any-map-In (key z) xs m (sym (ap key e) ∙ h)))
  eq_of_key (z ∷ xs) d (there m) (here e) h =
      absurd (false≢true (sym d.0 ∙ any-map-In (key z) xs m (sym (ap key e) ∙ sym h)))
  eq_of_key (z ∷ xs) d (there m) (there m') h = eq_of_key xs d.1 m m' h

module _ {ℓ κ} {A : Type ℓ} (R : A → A → Type κ) where
  pub Forall₂-same : ((x : A) → R x x) → (xs : List A) → Forall₂ R xs xs
  Forall₂-same r [] = Forall₂.nil
  Forall₂-same r (x ∷ xs) = Forall₂.cons (r x) (Forall₂-same r xs)

  pub Forall₂-self : (xs : List A) → ((x : A) → In x xs → R x x) → Forall₂ R xs xs
  Forall₂-self [] r = Forall₂.nil
  Forall₂-self (x ∷ xs) r = Forall₂.cons (r x (here refl)) (Forall₂-self xs (λ y m. r y (there m)))

  pub Forall₂-weaken {μ} :
      (S : A → A → Type μ) {xs ys : List A}
      → ((x y : A) → R x y → S x y)
      → Forall₂ R xs ys
      → Forall₂ S xs ys
  Forall₂-weaken S k Forall₂.nil = Forall₂.nil
  Forall₂-weaken S k (Forall₂.cons {a = x} {b = y} h t) =
      Forall₂.cons (k x y h) (Forall₂-weaken S k t)

  -- An UPDATE relates each row to itself or, where it is selected, to its update.
  pub Forall₂-update_where :
      (test : A → Bool) (f : A → A) (xs : List A)
      → ((x : A) → In x xs → test x ≡ true → R x (f x))
      → ((x : A) → In x xs → test x ≡ false → R x x)
      → Forall₂ R xs (update_where test f xs)
  unfolding update_where
  Forall₂-update_where test f [] hit miss = Forall₂.nil
  Forall₂-update_where test f (x ∷ xs) hit miss =
      Forall₂.cons
        (elim (Bool-cases (test x)) [
          | inl t ↦ rw t (hit x (here refl) t)
          | inr t ↦ rw t (miss x (here refl) t)
        ])
        (Forall₂-update_where test f xs (λ y m. hit y (there m)) (λ y m. miss y (there m)))

  pub Forall₂-In : {xs ys : List A} {y : A} → Forall₂ R xs ys → In y ys → (x : A) × In x xs × R x y
  Forall₂-In Forall₂.nil m = elim m [ ]
  Forall₂-In (Forall₂.cons {a = x} h t) (here e) = (x, here refl, subst (R x) (sym e) h)
  Forall₂-In (Forall₂.cons h t) (there m) = let (x, i, r) = Forall₂-In t m in (x, there i, r)

  pub Forall₂-In_left :
      {xs ys : List A} {x : A} → Forall₂ R xs ys → In x xs → (y : A) × In y ys × R x y
  Forall₂-In_left Forall₂.nil m = elim m [ ]
  Forall₂-In_left (Forall₂.cons {b = y} h t) (here e) = (y, here refl, subst (λ z. R z y) (sym e) h)
  Forall₂-In_left (Forall₂.cons h t) (there m) =
      let (y, i, r) = Forall₂-In_left t m in (y, there i, r)

  pub Forall₂-map {μ} :
      {B : Type μ} (f : A → B) {xs ys : List A}
      → ((x y : A) → R x y → f y ≡ f x)
      → Forall₂ R xs ys
      → map f ys ≡ map f xs
  Forall₂-map f keep Forall₂.nil = refl
  Forall₂-map f keep (Forall₂.cons {a = x} {b = y} h t) =
      ap₂ ◌∷◌ (keep x y h) (Forall₂-map f keep t)

-- The row that an identifier finds is found by its own.
pub find_first_self {ℓ} :
    {A : Type ℓ} (key : A → ℕ) (i : ℕ) (xs : List A) {x : A}
    → find_first (λ r. key r == i) xs ≡ some x
    → find_first (λ r. key r == key x) xs ≡ some x
find_first_self key i xs {x} h =
    let (m, e) = find_first-In (λ r. key r == i) xs h in
    subst (λ k. find_first (λ r. key r == k) xs ≡ some x) (sym (==→eq (key x) i e)) h
