-- ===== src/Access/Texts.antt =====
-- Python's comparison of texts and `sorted` of a set of them, for app/core/permissions.py and
-- app/services/rbac.py.
use Prim.Native.Nat.{Ordering}
use Prim.Native.String.{compare}
use text.Mathlib.TextPositions.{compare_refl}
use text.Mathlib.TextEquality.{path_by_compare}
use desmobapp_backend.Prelude.{
  ◌≡◌, refl, ◌∙◌, ap, subst, Bool, true, false, ◌⊎◌, inl, inr, String, List, [], ◌∷◌, In, here,
  there, any, any-true, any-In,
}

abbrev pub is_equal : Ordering → Bool
is_equal Ordering.eq = true
is_equal Ordering.lt = false
is_equal Ordering.gt = false

unfoldable pub text_eq : String → String → Bool
text_eq s t = is_equal (compare s t)

pub text_eq_refl : (s : String) → text_eq s s ≡ true
unfolding text_eq
text_eq_refl s = ap is_equal (compare_refl s)

is_equal→eq : (o : Ordering) → is_equal o ≡ true → o ≡ Ordering.eq
is_equal→eq Ordering.eq h = refl
is_equal→eq Ordering.lt h = cc
is_equal→eq Ordering.gt h = cc

pub text_eq→eq : (s t : String) → text_eq s t ≡ true → s ≡ t
unfolding text_eq
text_eq→eq s t h = path_by_compare s t (is_equal→eq (compare s t) h)

-- Before `t`, in its stead or in the `rest` after it.
place : Ordering → String → String → List String → List String → List String
place Ordering.lt s t ts rest = s ∷ t ∷ ts
place Ordering.eq s t ts rest = t ∷ ts
place Ordering.gt s t ts rest = t ∷ rest

-- Puts a text in its place in a sorted list without repetitions.
unfoldable pub insert_text : String → List String → List String
unfolding place
insert_text s [] = s ∷ []
insert_text s (t ∷ ts) = place (compare s t) s t ts (insert_text s ts)

-- `sorted(set(texts))`
unfoldable pub sorted_set : List String → List String
sorted_set [] = []
sorted_set (s ∷ ts) = insert_text s (sorted_set ts)

-- `text in texts`
unfoldable pub contains : List String → String → Bool
contains ts s = any (λ t. text_eq t s) ts

pub contains-true : (ts : List String) {s : String} → In s ts → contains ts s ≡ true
unfolding contains
contains-true ts {s} m = any-true (λ t. text_eq t s) ts m (text_eq_refl s)

pub contains-In : (ts : List String) {s : String} → contains ts s ≡ true → In s ts
unfolding contains
contains-In ts {s} h =
    let (t, m, e) = any-In (λ t. text_eq t s) ts h in subst (λ x. In x ts) (text_eq→eq t s e) m

In-place :
    {x : String} (o : Ordering) (s t : String) (ts rest : List String)
    → compare s t ≡ o
    → ((x ≡ s) ⊎ In x ts → In x rest)
    → (x ≡ s) ⊎ In x (t ∷ ts)
    → In x (place o s t ts rest)
unfolding place
In-place Ordering.lt s t ts rest h k (inl e) = here e
In-place Ordering.lt s t ts rest h k (inr m) = there m
In-place Ordering.eq s t ts rest h k (inl e) = here (e ∙ path_by_compare s t h)
In-place Ordering.eq s t ts rest h k (inr m) = m
In-place Ordering.gt s t ts rest h k (inl e) = there (k (inl e))
In-place Ordering.gt s t ts rest h k (inr (here e)) = here e
In-place Ordering.gt s t ts rest h k (inr (there m)) = there (k (inr m))

place-In :
    {x : String} (o : Ordering) (s t : String) (ts rest : List String)
    → (In x rest → (x ≡ s) ⊎ In x ts)
    → In x (place o s t ts rest)
    → (x ≡ s) ⊎ In x (t ∷ ts)
unfolding place
place-In Ordering.lt s t ts rest k (here e) = inl e
place-In Ordering.lt s t ts rest k (there m) = inr m
place-In Ordering.eq s t ts rest k m = inr m
place-In Ordering.gt s t ts rest k (here e) = inr (here e)
place-In Ordering.gt s t ts rest k (there m) = elim (k m) [ inl e ↦ inl e | inr j ↦ inr (there j) ]

-- What is inserted, or was there, is there.
In-insert_text :
    {x : String} (s : String) (ts : List String) → (x ≡ s) ⊎ In x ts → In x (insert_text s ts)
unfolding insert_text
In-insert_text s [] (inl e) = here e
In-insert_text s [] (inr m) = elim m [ ]
In-insert_text s (t ∷ ts) m =
    In-place (compare s t) s t ts (insert_text s ts) refl (In-insert_text s ts) m

insert_text-In :
    {x : String} (s : String) (ts : List String) → In x (insert_text s ts) → (x ≡ s) ⊎ In x ts
unfolding insert_text
insert_text-In s [] (here e) = inl e
insert_text-In s [] (there m) = elim m [ ]
insert_text-In s (t ∷ ts) m =
    place-In (compare s t) s t ts (insert_text s ts) (insert_text-In s ts) m

pub In-sorted_set : {x : String} (ts : List String) → In x ts → In x (sorted_set ts)
unfolding sorted_set
In-sorted_set [] m = m
In-sorted_set (t ∷ ts) (here e) = In-insert_text t (sorted_set ts) (inl e)
In-sorted_set (t ∷ ts) (there m) = In-insert_text t (sorted_set ts) (inr (In-sorted_set ts m))

pub sorted_set-In : {x : String} (ts : List String) → In x (sorted_set ts) → In x ts
unfolding sorted_set
sorted_set-In [] m = m
sorted_set-In (t ∷ ts) m = elim (insert_text-In t (sorted_set ts) m) [
  | inl e ↦ here e
  | inr k ↦ there (sorted_set-In ts k)
]
