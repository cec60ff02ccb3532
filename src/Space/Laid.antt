-- ===== src/Space/Laid.antt =====
-- app/services/space.py, `update_room_layout`: what it does to the seats.
use desmobapp_backend.Prelude.{
  ℕ, ◌≡◌, refl, sym, ◌∙◌, ap, subst, Bool, true, false, ◌||◌, ◌⊎◌, inl, inr, List, [], ◌∷◌, ◌++◌,
  In, In-snoc, In-append_left, In-update_where, In-update_where_miss, update_where-In, any,
  any-narrow, update_where, IsUnique, IsUnique-snoc, IsUnique-update_where, eq_of_clash, Bool-cases,
  ||-false, true_and_false, ◌==◌, ==→eq, ==_refl,
}
use desmobapp_backend.Db.{Uuid, Seat}
use desmobapp_backend.Space.{RoomLayoutSeatInput, changed_seat, new_seat, has_label}

abbrev pub seat_clash : Seat → Seat → Bool
seat_clash r s = r.id == s.id

same_seat :
    (ss : List Seat) {x y : Seat} → IsUnique seat_clash ss → In x ss → In y ss → x.id ≡ y.id → x ≡ y
same_seat ss {x} {y} unique m k e =
    eq_of_clash seat_clash ss unique m k (subst (λ i. (x.id == i) ≡ true) e (==_refl x.id))
      (subst (λ i. (y.id == i) ≡ true) (sym e) (==_refl y.id))

module _ (room_id : Uuid) where
  -- A seat that the writes leave alone: of another room, or named by none of them.
  abbrev pub IsSpared : (Uuid → Type 0) → Seat → Type 0
  IsSpared Named s = ((s.room_id == room_id) ≡ false) ⊎ (Named s.id → ⊥)

  -- What the writes do to the seats.
  pub record Laid (Named : Uuid → Type 0) (xs ys : List Seat) : Type 0 where
    pub unique : IsUnique seat_clash ys
    pub spared : (s : Seat) → In s xs → IsSpared Named s → In s ys
    pub no_other : (s : Seat) → In s ys → (s.room_id == room_id) ≡ false → In s xs
    pub kept : (s : Seat) → In s xs → (t : Seat) × In t ys × (t.id ≡ s.id) × (t.room_id ≡ s.room_id)

  -- The row to change is one of the room.
  pub record IsAimed (Named : Uuid → Type 0) (xs : List Seat) (i : Uuid) : Type 0 where
    pub named : Named i
    pub target : Seat
    pub present : In target xs
    pub same_id : target.id ≡ i
    pub in_room : target.room_id ≡ room_id

  pub Laid-refl :
      {Named : Uuid → Type 0} {xs : List Seat} → IsUnique seat_clash xs → Laid Named xs xs
  Laid-refl u = record {
    unique = u;
    spared = λ s m h. m;
    no_other = λ s m h. m;
    kept = λ s m. (s, m, refl, refl);
  }

  pub Laid-trans :
      {Named : Uuid → Type 0} {xs ys zs : List Seat}
      → Laid Named xs ys
      → Laid Named ys zs
      → Laid Named xs zs
  Laid-trans a b = record {
    unique = b.unique;
    spared = λ s m h. b.spared s (a.spared s m h) h;
    no_other = λ s m h. a.no_other s (b.no_other s m h) h;
    kept = λ s m.
        let (t, i, e, r) = a.kept s m in let (u, j, e', r') = b.kept t i in (u, j, e' ∙ e, r' ∙ r);
  }

  pub changed-Laid :
      {Named : Uuid → Type 0} (xs : List Seat) (i : Uuid) (input : RoomLayoutSeatInput)
      → IsUnique seat_clash xs
      → IsAimed Named xs i
      → Laid Named xs (update_where (λ s. s.id == i) (changed_seat input) xs)
  changed-Laid {Named} xs i input u aim = record {
    unique =
        IsUnique-update_where seat_clash (λ s. s.id == i) (changed_seat input) (λ x y. refl)
          (λ x y. refl) xs u;
    spared =
        λ s m h. In-update_where_miss (λ s. s.id == i) (changed_seat input) xs m (missed s m h);
    no_other = λ s m h.
        let (x, k, c) = update_where-In (λ s. s.id == i) (changed_seat input) xs m in
        elim c [
          | inl (hit, e) ↦ absurd (
              true_and_false (in_room x k (==→eq x.id i hit))
                (subst (λ (z : Seat). (z.room_id == room_id) ≡ false) e h))
          | inr (miss, e) ↦ subst (λ z. In z xs) (sym e) k
        ];
    kept = λ s m. elim (Bool-cases (s.id == i)) [
      | inl hit ↦ (
        changed_seat input s,
        In-update_where (λ s. s.id == i) (changed_seat input) xs m hit,
        refl,
        refl,
      )
      | inr miss ↦
          (s, In-update_where_miss (λ s. s.id == i) (changed_seat input) xs m miss, refl, refl)
    ];
  }
    where
      in_room : (x : Seat) → In x xs → x.id ≡ i → (x.room_id == room_id) ≡ true
      in_room x k e =
          let same : x ≡ aim.target = same_seat xs u k aim.present (e ∙ sym aim.same_id) in
          subst (λ j. (x.room_id == j) ≡ true) (ap (λ (z : Seat). z.room_id) same ∙ aim.in_room)
            (==_refl x.room_id)

      missed : (s : Seat) → In s xs → IsSpared Named s → (s.id == i) ≡ false
      missed s m h = elim (Bool-cases (s.id == i)) [
        | inr n ↦ n
        | inl t ↦ elim h [
          | inl other ↦ absurd (true_and_false (in_room s m (==→eq s.id i t)) other)
          | inr unnamed ↦ absurd (unnamed (subst Named (sym (==→eq s.id i t)) aim.named))
        ]
      ]

  module _ (seat_ids : ℕ → Uuid) where
    pub added-Laid :
        {Named : Uuid → Type 0} (xs : List Seat) (n : ℕ) (input : RoomLayoutSeatInput)
        → IsUnique seat_clash xs
        → any (λ s. s.id == seat_ids n || has_label seat_ids room_id input.label s) xs ≡ false
        → Laid Named xs (xs ++ new_seat seat_ids room_id n input ∷ [])
    added-Laid xs n input u fresh =
        let row = new_seat seat_ids room_id n input in
        record {
          unique = IsUnique-snoc seat_clash xs row u (
              any-narrow (λ s. s.id == seat_ids n || has_label seat_ids room_id input.label s)
                (λ s. s.id == seat_ids n)
                (λ s c.
                  (||-false (s.id == seat_ids n) (has_label seat_ids room_id input.label s) c).0)
                xs fresh);
          spared = λ s m h. In-append_left (row ∷ []) m;
          no_other = λ s m h. elim (In-snoc xs row m) [
            | inl k ↦ k
            | inr e ↦ absurd (
                true_and_false (==_refl room_id)
                  (subst (λ (z : Seat). (z.room_id == room_id) ≡ false) e h))
          ];
          kept = λ s m. (s, In-append_left (row ∷ []) m, refl, refl);
        }
