-- ===== src/Listing/Pages.antt =====
-- `offset((page - 1) * limit).limit(limit)` with the count of all rows, and what a page shows.
use desmobapp_backend.Prelude.{
  ℕ, zero, suc, ◌+◌, ◌-◌, ◌*◌, ◌<◌, ◌≤◌, ◌≡◌, refl, sym, ◌∙◌, ap, subst, Bool, true, ◌⊎◌, inl, inr,
  List, [], ◌∷◌, length, take, drop, filter_by, In, here, there, filter_by-In, arith,
}
use desmobapp_backend.Listing.Order.{
  order_by, IsOrdered, OrdersAll, order_by-In, In-order_by, order_by-IsOrdered, take-In, drop-In,
  length-take, take-IsOrdered, drop-IsOrdered,
}

-- The routes ask for `page >= 1`.
abbrev pub paginate {ℓ} : {A : Type ℓ} → ℕ → ℕ → List A → List A
paginate page limit rows = take limit (drop ((page - 1) * limit) rows)

pub record ListResponse (A : Type 0) : Type 0 where
  pub items : List A
  pub page : ℕ
  pub limit : ℕ
  pub total : ℕ

-- The pages of a list, from 0.
module _ {A : Type 0} where
  take_or_drop : (n : ℕ) (xs : List A) {x : A} → In x xs → In x (take n xs) ⊎ In x (drop n xs)
  take_or_drop zero xs m = inr m
  take_or_drop (suc n) [] m = elim m [ ]
  take_or_drop (suc n) (y ∷ xs) (here e) = inl (here e)
  take_or_drop (suc n) (y ∷ xs) (there m) = elim (take_or_drop n xs m) [
    | inl k ↦ inl (there k)
    | inr k ↦ inr k
  ]

  drop-nil : (n : ℕ) → drop {A = A} n [] ≡ []
  drop-nil zero = refl
  drop-nil (suc n) = refl

  drop-drop : (m n : ℕ) (xs : List A) → drop m (drop n xs) ≡ drop (n + m) xs
  drop-drop m zero xs = let e : m ≡ zero + m = omega arith in ap (λ j. drop j xs) e
  drop-drop m (suc n) [] = drop-nil m ∙ sym (drop-nil (suc n + m))
  drop-drop m (suc n) (x ∷ xs) =
      let e : suc (n + m) ≡ suc n + m = omega arith in
      drop-drop m n xs ∙ ap (λ j. drop j (x ∷ xs)) e

  length-drop : (n : ℕ) (xs : List A) → length (drop n xs) ≡ length xs - n
  length-drop zero xs = omega arith
  length-drop (suc n) [] = omega arith
  length-drop (suc n) (x ∷ xs) = let h = length-drop n xs in omega arith

  -- Pages numbered from 0 reach every row of a list of at most `n`.
  pub page_of :
      (limit n : ℕ) (xs : List A) {x : A}
      → 0 < limit
      → length xs ≤ n
      → In x xs
      → (k : ℕ) × In x (take limit (drop (k * limit) xs))
  page_of limit zero [] positive le m = elim m [ ]
  page_of limit zero (y ∷ xs) positive le m = absurd (omega arith)
  page_of limit (suc n) xs {x} positive le m = elim (take_or_drop limit xs m) [
    | inl k ↦
        let e : 0 ≡ 0 * limit = omega arith in (0, subst (λ j. In x (take limit (drop j xs))) e k)
    | inr k ↦
        let h = length-drop limit xs in
        let (page, j) = page_of limit n (drop limit xs) positive (omega arith) k in
        let e : limit + page * limit ≡ suc page * limit = omega arith in
        (
          suc page,
          subst (λ ys. In x (take limit ys))
              (drop-drop (page * limit) limit xs ∙ ap (λ i. drop i xs) e) j,
        )
  ]

module _ {A : Type 0} (before : A → A → Bool) where
  unfoldable pub list_response : ℕ → ℕ → List A → ListResponse A
  list_response page limit rows = record {
    items = paginate page limit (order_by before rows);
    page = page;
    limit = limit;
    total = length rows;
  }

  -- The page shows rows of the table that are wanted, in order, and counts all that are wanted.
  pub record IsPage (wanted : A → Bool) (table : List A) (page limit : ℕ)
      (response : ListResponse A) : Type 0 where
    pub selected : (b : A) → In b response.items → In b table × (wanted b ≡ true)
    pub ordered : IsOrdered before response.items
    pub at_most : length response.items ≤ limit
    pub counted : response.total ≡ length (filter_by wanted table)
    pub same_page : (response.page ≡ page) × (response.limit ≡ limit)

  pub list_response-IsPage :
      OrdersAll before
      → (wanted : A → Bool) (table : List A) (page limit : ℕ)
      → IsPage wanted table page limit (list_response page limit (filter_by wanted table))
  unfolding list_response
  list_response-IsPage laws wanted table page limit =
      let rows = filter_by wanted table in
      let skipped = (page - 1) * limit in
      let all = order_by before rows in
      record {
        selected = λ b m.
            filter_by-In wanted table
              (order_by-In before rows (drop-In skipped all (take-In limit (drop skipped all) m)));
        ordered =
            take-IsOrdered before limit (drop skipped all)
              (drop-IsOrdered before skipped all (order_by-IsOrdered before laws rows));
        at_most = length-take limit (drop skipped all);
        counted = refl;
        same_page = (refl, refl);
      }

  -- Every row is on some page, if the pages are not empty by their limit.
  pub list_response_complete :
      (limit : ℕ) (rows : List A) {x : A}
      → 0 < limit
      → In x rows
      → (page : ℕ) × (1 ≤ page) × In x (list_response page limit rows).items
  unfolding list_response
  list_response_complete limit rows {x} positive m =
      let all = order_by before rows in
      let (k, j) =
        page_of limit (length all) all positive (omega arith) (In-order_by before rows m) in
      let e : k ≡ suc k - 1 = omega arith in
      (suc k, omega arith, subst (λ i. In x (take limit (drop (i * limit) all))) e j)
