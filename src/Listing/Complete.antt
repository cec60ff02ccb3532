-- ===== src/Listing/Complete.antt =====
-- What all the pages of a list show together.
use mathlib.Core.List.Perm
use mathlib.Core.List.{Perm}
use desmobapp_backend.Prelude.{
  ℕ, zero, suc, ◌+◌, ◌-◌, ◌*◌, ◌≡◌, ◌↔◌, refl, sym, ◌∙◌, ap, Bool, true, inl, inr, List, [], ◌∷◌,
  ◌++◌, length, take, drop, filter_by, Bool-cases, arith,
}
use desmobapp_backend.Listing.Order.{insert_by, order_by, IsOrdered, OrdersAll, order_by-IsOrdered}
use desmobapp_backend.Listing.Pages.{ListResponse, list_response}

-- The items of the pages from 1 to `n`, one after the other.
unfoldable pub first_pages : {A : Type 0} → (ℕ → ListResponse A) → ℕ → List A
first_pages pages zero = []
first_pages pages (suc n) = first_pages pages n ++ (pages (suc n)).items

module _ {A : Type 0} (before : A → A → Bool) where
  -- The pages cut one list into pieces of `limit` rows: the wanted rows of the table, each as often as
  -- there, in order.
  pub record Lists (Wanted : A → Type 0) (table : List A) (limit : ℕ) (pages : ℕ → ListResponse A)
      : Type 0 where
    pub all : List A
    pub ordered : IsOrdered before all
    pub test : A → Bool
    pub decides : (x : A) → (test x ≡ true) ↔ Wanted x
    pub rows : Perm all (filter_by test table)
    pub cut : (n : ℕ) → first_pages pages n ≡ take (n * limit) all
    pub counted : (n : ℕ) → (pages n).total ≡ length all
    pub labelled : (n : ℕ) → ((pages n).page ≡ n) × ((pages n).limit ≡ limit)

  insert_by-Perm : (b : A) (bs : List A) → Perm (insert_by before b bs) (b ∷ bs)
  unfolding insert_by
  insert_by-Perm b [] = Perm.refl (b ∷ [])
  insert_by-Perm b (x ∷ xs) = elim (Bool-cases (before b x)) [
    | inl t ↦ rw t (Perm.refl (b ∷ x ∷ xs))
    | inr f ↦ rw f (Perm.trans (Perm.cons x (insert_by-Perm b xs)) (Perm.swap b x xs))
  ]

  order_by-Perm : (bs : List A) → Perm (order_by before bs) bs
  unfolding order_by
  order_by-Perm [] = Perm.refl []
  order_by-Perm (b ∷ bs) =
      Perm.trans (insert_by-Perm b (order_by before bs)) (Perm.cons b (order_by-Perm bs))

  length-insert_by : (b : A) (bs : List A) → length (insert_by before b bs) ≡ suc (length bs)
  unfolding insert_by
  length-insert_by b [] = refl
  length-insert_by b (x ∷ xs) = elim (Bool-cases (before b x)) [
    | inl t ↦ rw t refl
    | inr f ↦ rw f (ap suc (length-insert_by b xs))
  ]

  length-order_by : (bs : List A) → length (order_by before bs) ≡ length bs
  unfolding order_by
  length-order_by [] = refl
  length-order_by (b ∷ bs) = length-insert_by b (order_by before bs) ∙ ap suc (length-order_by bs)

  take-nil : (k : ℕ) → take {A = A} k [] ≡ []
  take-nil zero = refl
  take-nil (suc k) = refl

  take-add : (m k : ℕ) (xs : List A) → take m xs ++ take k (drop m xs) ≡ take (m + k) xs
  take-add zero k xs = let e : k ≡ zero + k = omega arith in ap (λ j. take j xs) e
  take-add (suc m) k [] =
      let e : suc (m + k) ≡ suc m + k = omega arith in take-nil k ∙ ap (λ j. take j []) e
  take-add (suc m) k (x ∷ xs) =
      let e : suc (m + k) ≡ suc m + k = omega arith in
      ap (λ ys. x ∷ ys) (take-add m k xs) ∙ ap (λ j. take j (x ∷ xs)) e

  first_pages-take :
      (limit : ℕ) (rows : List A) (n : ℕ)
      → first_pages (λ page. list_response before page limit rows) n
        ≡ take (n * limit) (order_by before rows)
  unfolding first_pages list_response
  first_pages-take limit rows zero =
      let e : 0 ≡ 0 * limit = omega arith in ap (λ j. take j (order_by before rows)) e
  first_pages-take limit rows (suc n) =
      let all = order_by before rows in
      let e : suc n - 1 ≡ n = omega arith in
      let k : n * limit + limit ≡ suc n * limit = omega arith in
      ap (λ ys. ys ++ take limit (drop ((suc n - 1) * limit) all)) (first_pages-take limit rows n)
      ∙ ap (λ i. take (n * limit) all ++ take limit (drop (i * limit) all)) e
      ∙ take-add (n * limit) limit all
      ∙ ap (λ j. take j all) k

  pub list_response-Lists :
      OrdersAll before
      → (Wanted : A → Type 0) (test : A → Bool) (table : List A) (limit : ℕ)
      → ((x : A) → (test x ≡ true) ↔ Wanted x)
      → Lists Wanted table limit (λ page. list_response before page limit (filter_by test table))
  unfolding list_response
  list_response-Lists laws Wanted test table limit decides =
      let rows = filter_by test table in
      record {
        all = order_by before rows;
        ordered = order_by-IsOrdered before laws rows;
        test = test;
        decides = decides;
        rows = order_by-Perm rows;
        cut = first_pages-take limit rows;
        counted = λ n. sym (length-order_by rows);
        labelled = λ n. (refl, refl);
      }
