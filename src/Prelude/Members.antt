-- ===== src/Prelude/Members.antt =====
-- Membership in a table, and what each read and write of a table does to it.
use mathlib.Core.Path.{◌≡◌, refl, sym, subst, ap}
use mathlib.Core.Logic.{◌⊎◌, inl, inr}
use mathlib.Core.Bool.{Bool, true, false}
use mathlib.Core.List.{List, [], ◌∷◌, ◌++◌, map}
use mathlib.Core.Option.{some}
use native.Mathlib.Omega.{arith}
use desmobapp_backend.Prelude.Tests.{Bool-cases}
use desmobapp_backend.Prelude.Lists.{any, filter_by, find_first, update_where}

pub data In {ℓ} {A : Type ℓ} (x : A) : List A → Type ℓ where
  here : {y : A} {ys : List A} → x ≡ y → In x (y ∷ ys)
  there : {y : A} {ys : List A} → In x ys → In x (y ∷ ys)

module _ {ℓ} {A : Type ℓ} where
  pub In-nil : {x : A} → In x [] → ⊥
  In-nil m = elim m [ ]

  pub In-snoc : {x : A} (xs : List A) (y : A) → In x (xs ++ y ∷ []) → In x xs ⊎ (x ≡ y)
  In-snoc [] y (here e) = inr e
  In-snoc [] y (there m) = elim m [ ]
  In-snoc (z ∷ xs) y (here e) = inl (here e)
  In-snoc (z ∷ xs) y (there m) = elim (In-snoc xs y m) [ inl k ↦ inl (there k) | inr e ↦ inr e ]

  pub In-append_left : {x : A} {xs : List A} (ys : List A) → In x xs → In x (xs ++ ys)
  In-append_left ys (here e) = here e
  In-append_left ys (there m) = there (In-append_left ys m)

  pub In-append_right : {x : A} (xs : List A) {ys : List A} → In x ys → In x (xs ++ ys)
  In-append_right [] m = m
  In-append_right (y ∷ xs) m = there (In-append_right xs m)

  pub append-In : {x : A} (xs : List A) {ys : List A} → In x (xs ++ ys) → In x xs ⊎ In x ys
  append-In [] m = inr m
  append-In (y ∷ xs) (here e) = inl (here e)
  append-In (y ∷ xs) (there m) = elim (append-In xs m) [ inl k ↦ inl (there k) | inr k ↦ inr k ]

  pub any-false :
      (test : A → Bool) (xs : List A) {x : A} → any test xs ≡ false → In x xs → test x ≡ false
  unfolding any
  any-false test [] h m = elim m [ ]
  any-false test (y ∷ xs) h (here e) = subst (λ z. test z ≡ false) (sym e) (ground arith)
  any-false test (y ∷ xs) h (there m) = any-false test xs (ground arith) m

  pub any-true :
      (test : A → Bool) (xs : List A) {x : A} → In x xs → test x ≡ true → any test xs ≡ true
  unfolding any
  any-true test [] m t = elim m [ ]
  any-true test (y ∷ xs) (here e) t =
      let t' : test y ≡ true = subst (λ z. test z ≡ true) e t in ground arith
  any-true test (y ∷ xs) (there m) t = ground (arith, any-true test xs m t)

  -- An `any` that holds has a row to show for it.
  pub any-In :
      (test : A → Bool) (xs : List A) → any test xs ≡ true → (x : A) × In x xs × (test x ≡ true)
  unfolding any
  any-In test [] h = cc
  any-In test (y ∷ xs) h = elim (Bool-cases (test y)) [
    | inl t ↦ (y, here refl, t)
    | inr f ↦ let (x, m, t) = any-In test xs (ground arith) in (x, there m, t)
  ]

  pub In-filter_by :
      (test : A → Bool) (xs : List A) {x : A} → In x xs → test x ≡ true → In x (filter_by test xs)
  unfolding filter_by
  In-filter_by test [] m t = elim m [ ]
  In-filter_by test (y ∷ xs) (here e) t = rw (subst (λ z. test z ≡ true) e t) (here e)
  In-filter_by test (y ∷ xs) (there m) t = elim (Bool-cases (test y)) [
    | inl a ↦ rw a (there (In-filter_by test xs m t))
    | inr b ↦ rw b (In-filter_by test xs m t)
  ]

  filter_by-In_cons :
      (test : A → Bool) (y : A) (kept : List A) {x : A}
      → test y ≡ true
      → In x (y ∷ kept)
      → ((x ≡ y) × (test x ≡ true)) ⊎ In x kept
  filter_by-In_cons test y kept a (here e) = inl (e, subst (λ z. test z ≡ true) (sym e) a)
  filter_by-In_cons test y kept a (there k) = inr k

  pub filter_by-In :
      (test : A → Bool) (xs : List A) {x : A} → In x (filter_by test xs) → In x xs × (test x ≡ true)
  unfolding filter_by
  filter_by-In test [] m = elim m [ ]
  filter_by-In test (y ∷ xs) {x} m = elim (Bool-cases (test y)) [
    | inl a ↦ elim (filter_by-In_cons test y (filter_by test xs) a (rw a at m)) [
      | inl (e, t) ↦ (here e, t)
      | inr k ↦ let (i, t) = filter_by-In test xs k in (there i, t)
    ]
    | inr b ↦ let (i, t) = filter_by-In test xs (rw b at m) in (there i, t)
  ]

  pub find_first-In :
      (test : A → Bool) (xs : List A) {x : A}
      → find_first test xs ≡ some x
      → In x xs × (test x ≡ true)
  unfolding find_first
  find_first-In test [] h = cc
  find_first-In test (y ∷ xs) {x} h = elim (Bool-cases (test y)) [
    | inl a ↦ let e : x ≡ y = ground arith in (here e, subst (λ z. test z ≡ true) (sym e) a)
    | inr b ↦ let (i, t) = find_first-In test xs (ground arith) in (there i, t)
  ]

  -- A row after an UPDATE is the update of a row that was selected, or a row that was not.
  pub update_where-In :
      (test : A → Bool) (f : A → A) (xs : List A) {y : A}
      → In y (update_where test f xs)
      → (x : A) × In x xs × (((test x ≡ true) × (y ≡ f x)) ⊎ ((test x ≡ false) × (y ≡ x)))
  unfolding update_where
  update_where-In test f [] m = elim m [ ]
  update_where-In test f (z ∷ xs) (here e) = elim (Bool-cases (test z)) [
    | inl a ↦ (z, here refl, inl (a, rw a at e))
    | inr b ↦ (z, here refl, inr (b, rw b at e))
  ]
  update_where-In test f (z ∷ xs) (there m) =
      let (x, i, c) = update_where-In test f xs m in (x, there i, c)

  pub In-update_where :
      (test : A → Bool) (f : A → A) (xs : List A) {x : A}
      → In x xs
      → test x ≡ true
      → In (f x) (update_where test f xs)
  unfolding update_where
  In-update_where test f [] m t = elim m [ ]
  In-update_where test f (y ∷ xs) {x} (here e) t =
      here (rw (subst (λ z. test z ≡ true) e t) (ap f e))
  In-update_where test f (y ∷ xs) (there m) t = there (In-update_where test f xs m t)

  pub In-update_where_miss :
      (test : A → Bool) (f : A → A) (xs : List A) {x : A}
      → In x xs
      → test x ≡ false
      → In x (update_where test f xs)
  unfolding update_where
  In-update_where_miss test f [] m t = elim m [ ]
  In-update_where_miss test f (y ∷ xs) {x} (here e) t =
      here (rw (subst (λ z. test z ≡ false) e t) e)
  In-update_where_miss test f (y ∷ xs) (there m) t = there (In-update_where_miss test f xs m t)

module _ {ℓ κ} {A : Type ℓ} {B : Type κ} (f : A → B) where
  pub In-map : (xs : List A) {x : A} → In x xs → In (f x) (map f xs)
  In-map [] m = elim m [ ]
  In-map (y ∷ xs) (here e) = here (ap f e)
  In-map (y ∷ xs) (there m) = there (In-map xs m)

  pub map-In : (xs : List A) {y : B} → In y (map f xs) → (x : A) × In x xs × (y ≡ f x)
  map-In [] m = elim m [ ]
  map-In (z ∷ xs) (here e) = (z, here refl, e)
  map-In (z ∷ xs) (there m) = let (x, i, e) = map-In xs m in (x, there i, e)
