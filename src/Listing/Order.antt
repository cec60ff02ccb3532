-- ===== src/Listing/Order.antt =====
-- `order_by`: a stable order of the rows by a test that says which of two may go first.
use desmobapp_backend.Prelude.{
  ℕ, zero, suc, ◌≤◌, ◌≡◌, sym, subst, Bool, true, false, ◌⊎◌, inl, inr, List, [], ◌∷◌, length, take,
  drop, In, here, there, Bool-cases, arith, if◌then◌else◌,
}

module _ {A : Type 0} (before : A → A → Bool) where
  -- A row goes before the first that it may precede.
  unfoldable pub insert_by : A → List A → List A
  insert_by b [] = b ∷ []
  insert_by b (x ∷ xs) = let rest = insert_by b xs in if before b x then b ∷ x ∷ xs else x ∷ rest

  unfoldable pub order_by : List A → List A
  unfolding insert_by
  order_by [] = []
  order_by (b ∷ bs) = insert_by b (order_by bs)

  -- Each row may precede all that follow it.
  pub data IsOrdered : List A → Type 0 where
    none_left : IsOrdered []
    first :
        {b : A} {bs : List A}
        → ((x : A) → In x bs → before b x ≡ true)
        → IsOrdered bs
        → IsOrdered (b ∷ bs)

  insert_by-In : (b : A) (bs : List A) {x : A} → In x (insert_by b bs) → (x ≡ b) ⊎ In x bs
  unfolding insert_by
  insert_by-In b [] (here e) = inl e
  insert_by-In b [] (there m) = elim m [ ]
  insert_by-In b (y ∷ ys) {x} m = elim (Bool-cases (before b y)) [
    | inl t ↦ at_front (rw t at m)
    | inr f ↦ further (insert_by-In b ys) (rw f at m)
  ]
    where
      at_front : In x (b ∷ y ∷ ys) → (x ≡ b) ⊎ In x (y ∷ ys)
      at_front (here e) = inl e
      at_front (there k) = inr k

      further :
          (In x (insert_by b ys) → (x ≡ b) ⊎ In x ys)
          → In x (y ∷ insert_by b ys)
          → (x ≡ b) ⊎ In x (y ∷ ys)
      further k (here e) = inr (here e)
      further k (there j) = elim (k j) [ inl e ↦ inl e | inr i ↦ inr (there i) ]

  In-insert_by : (b : A) (bs : List A) {x : A} → (x ≡ b) ⊎ In x bs → In x (insert_by b bs)
  unfolding insert_by
  In-insert_by b [] (inl e) = here e
  In-insert_by b [] (inr m) = elim m [ ]
  In-insert_by b (y ∷ ys) {x} m = elim (Bool-cases (before b y)) [
    | inl t ↦ rw t (at_front m)
    | inr f ↦ rw f (further (In-insert_by b ys) m)
  ]
    where
      at_front : (x ≡ b) ⊎ In x (y ∷ ys) → In x (b ∷ y ∷ ys)
      at_front (inl e) = here e
      at_front (inr k) = there k

      further :
          ((x ≡ b) ⊎ In x ys → In x (insert_by b ys))
          → (x ≡ b) ⊎ In x (y ∷ ys)
          → In x (y ∷ insert_by b ys)
      further k (inl e) = there (k (inl e))
      further k (inr (here e)) = here e
      further k (inr (there j)) = there (k (inr j))

  pub order_by-In : (bs : List A) {x : A} → In x (order_by bs) → In x bs
  unfolding order_by
  order_by-In [] m = m
  order_by-In (b ∷ bs) m = elim (insert_by-In b (order_by bs) m) [
    | inl e ↦ here e
    | inr k ↦ there (order_by-In bs k)
  ]

  pub In-order_by : (bs : List A) {x : A} → In x bs → In x (order_by bs)
  unfolding order_by
  In-order_by [] m = m
  In-order_by (b ∷ bs) (here e) = In-insert_by b (order_by bs) (inl e)
  In-order_by (b ∷ bs) (there m) = In-insert_by b (order_by bs) (inr (In-order_by bs m))

  -- One of two rows may precede the other, and what may precede a row may precede all that follow.
  pub record OrdersAll : Type 0 where
    pub total : (x y : A) → before x y ≡ false → before y x ≡ true
    pub transitive : (x y z : A) → before x y ≡ true → before y z ≡ true → before x z ≡ true

  insert_by-IsOrdered :
      OrdersAll → (b : A) (bs : List A) → IsOrdered bs → IsOrdered (insert_by b bs)
  unfolding insert_by
  insert_by-IsOrdered laws b [] none_left = first (λ x m. elim m [ ]) none_left
  insert_by-IsOrdered laws b (y ∷ ys) (first below rest) = elim (Bool-cases (before b y)) [
    | inl t ↦ rw t (first (ahead t) (first below rest))
    | inr f ↦ rw f (first (behind (laws.total b y f)) (insert_by-IsOrdered laws b ys rest))
  ]
    where
      ahead : before b y ≡ true → (x : A) → In x (y ∷ ys) → before b x ≡ true
      ahead t x (here e) = subst (λ z. before b z ≡ true) (sym e) t
      ahead t x (there m) = laws.transitive b y x t (below x m)

      behind : before y b ≡ true → (x : A) → In x (insert_by b ys) → before y x ≡ true
      behind t x m = elim (insert_by-In b ys m) [
        | inl e ↦ subst (λ z. before y z ≡ true) (sym e) t
        | inr k ↦ below x k
      ]

  pub order_by-IsOrdered : OrdersAll → (bs : List A) → IsOrdered (order_by bs)
  unfolding order_by
  order_by-IsOrdered laws [] = none_left
  order_by-IsOrdered laws (b ∷ bs) =
      insert_by-IsOrdered laws b (order_by bs) (order_by-IsOrdered laws bs)

module _ {A : Type 0} where
  pub take-In : (n : ℕ) (xs : List A) {x : A} → In x (take n xs) → In x xs
  take-In zero xs m = elim m [ ]
  take-In (suc n) [] m = m
  take-In (suc n) (y ∷ xs) (here e) = here e
  take-In (suc n) (y ∷ xs) (there m) = there (take-In n xs m)

  pub drop-In : (n : ℕ) (xs : List A) {x : A} → In x (drop n xs) → In x xs
  drop-In zero xs m = m
  drop-In (suc n) [] m = m
  drop-In (suc n) (y ∷ xs) m = there (drop-In n xs m)

  pub length-take : (n : ℕ) (xs : List A) → length (take n xs) ≤ n
  length-take zero xs = omega arith
  length-take (suc n) [] = omega arith
  length-take (suc n) (x ∷ xs) = let h = length-take n xs in omega arith

  pub take-IsOrdered :
      (before : A → A → Bool) (n : ℕ) (bs : List A)
      → IsOrdered before bs
      → IsOrdered before (take n bs)
  take-IsOrdered before zero bs d = none_left
  take-IsOrdered before (suc n) [] d = d
  take-IsOrdered before (suc n) (b ∷ bs) (first below d) =
      first (λ x m. below x (take-In n bs m)) (take-IsOrdered before n bs d)

  pub drop-IsOrdered :
      (before : A → A → Bool) (n : ℕ) (bs : List A)
      → IsOrdered before bs
      → IsOrdered before (drop n bs)
  drop-IsOrdered before zero bs d = d
  drop-IsOrdered before (suc n) [] d = d
  drop-IsOrdered before (suc n) (b ∷ bs) (first below d) = drop-IsOrdered before n bs d
