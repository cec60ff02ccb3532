-- ===== src/Space/Taken.antt =====
-- app/services/space.py, `update_room_layout`: the seats that the request names take its values.
use desmobapp_backend.Prelude.{
  ℕ, suc, ◌≡◌, refl, sym, ◌∙◌, subst, Bool, true, false, not, ◌&&◌, ◌||◌, inl, inr, Option, none,
  some, List, [], ◌∷◌, ok, In, here, there, find_first-In, In-append_left, In-update_where,
  In-update_where_miss, any, any-false, ||-false, find_first, IsUnique, >>=-eq-ok, ok-injective,
  Option-cases, Bool-cases, true_and_false, raise_if-eq-ok, ◌==◌, ==→eq, ==_refl, arith,
}
use desmobapp_backend.Db.{Db, Uuid, Seat}
use desmobapp_backend.Space.{
  RoomLayoutSeatInput, LayoutWrite, change, add, layout_write, layout_writes, changed_seat,
  new_seat, has_label, send_write, send_writes,
}

-- Two places of the request that name one seat.
abbrev pub same_id : Option Uuid → Option Uuid → Bool
same_id (some i) (some j) = i == j
same_id (some i) none = false
same_id none o = false

abbrev pub named_alike : RoomLayoutSeatInput → RoomLayoutSeatInput → Bool
named_alike a b = same_id a.id b.id

abbrev pub changes : Uuid → LayoutWrite → Bool
changes i (change j input) = i == j
changes i (add n input) = false

-- Two changes to one row.
abbrev pub same_row : LayoutWrite → LayoutWrite → Bool
same_row (change i input) w = changes i w
same_row (add n input) w = false

-- The session sends every write that it was asked for and no other, and changes no row twice that
-- it was not asked to change twice.
pub record IsFlush (flush : List LayoutWrite → List LayoutWrite) : Type 0 where
  pub only : (ws : List LayoutWrite) (w : LayoutWrite) → In w (flush ws) → In w ws
  pub every : (ws : List LayoutWrite) (w : LayoutWrite) → In w ws → In w (flush ws)
  pub once : (ws : List LayoutWrite) → IsUnique same_row ws → IsUnique same_row (flush ws)

different_sym : (i j : ℕ) → (i == j) ≡ false → (j == i) ≡ false
different_sym i j h = ground arith

module _ (seat_ids : ℕ → Uuid) (room_id : Uuid) where
  send_write-keeps :
      (s : Seat) (w : LayoutWrite) (db : Db) {db' : Db}
      → changes s.id w ≡ false
      → In s db.seats
      → send_write seat_ids room_id w db ≡ ok db'
      → In s db'.seats
  unfolding send_write
  send_write-keeps s (change i input) db miss m e =
      let (free, k) =
        raise_if-eq-ok
          (any (λ s. not (s.id == i) && has_label seat_ids room_id input.label s) db.seats) _ _ e in
      subst (λ (x : Db). In s x.seats) (ok-injective k)
        (In-update_where_miss (λ s. s.id == i) (changed_seat input) db.seats m miss)
  send_write-keeps s (add n input) db miss m e =
      let (free, k) =
        raise_if-eq-ok
          (any (λ s. s.id == seat_ids n || has_label seat_ids room_id input.label s) db.seats) _ _
          e in
      subst (λ (x : Db). In s x.seats) (ok-injective k)
        (In-append_left (new_seat seat_ids room_id n input ∷ []) m)

  send_writes-keeps :
      (s : Seat) (ws : List LayoutWrite) (db : Db) {db' : Db}
      → any (changes s.id) ws ≡ false
      → In s db.seats
      → send_writes seat_ids room_id ws db ≡ ok db'
      → In s db'.seats
  unfolding send_writes any
  send_writes-keeps s [] db miss m e = subst (λ (x : Db). In s x.seats) (ok-injective e) m
  send_writes-keeps s (w ∷ ws) db miss m e =
      let (sent, e1, e2) = >>=-eq-ok (send_write seat_ids room_id w db) _ e in
      let (a, b) = ||-false (changes s.id w) (any (changes s.id) ws) miss in
      send_writes-keeps s ws sent b (send_write-keeps s w db a m e1) e2

  send_write-takes :
      (s : Seat) (input : RoomLayoutSeatInput) (db : Db) {db' : Db}
      → In s db.seats
      → send_write seat_ids room_id (change s.id input) db ≡ ok db'
      → In (changed_seat input s) db'.seats
  unfolding send_write
  send_write-takes s input db m e =
      let (free, k) =
        raise_if-eq-ok
          (any (λ r. not (r.id == s.id) && has_label seat_ids room_id input.label r) db.seats) _ _
          e in
      subst (λ (x : Db). In (changed_seat input s) x.seats) (ok-injective k)
        (In-update_where (λ r. r.id == s.id) (changed_seat input) db.seats m (==_refl s.id))

  apart :
      (i : Uuid) (input : RoomLayoutSeatInput) (w : LayoutWrite)
      → same_row w (change i input) ≡ false
      → changes i w ≡ false
  apart i input (change j values) h = different_sym j i h
  apart i input (add n values) h = refl

  pub send_writes-takes :
      (s : Seat) (input : RoomLayoutSeatInput) (ws : List LayoutWrite) (db : Db) {db' : Db}
      → IsUnique same_row ws
      → In s db.seats
      → In (change s.id input) ws
      → send_writes seat_ids room_id ws db ≡ ok db'
      → In (changed_seat input s) db'.seats
  unfolding send_writes
  send_writes-takes s input [] db u m k e = elim k [ ]
  send_writes-takes s input (w ∷ ws) db u m (here same) e =
      let (sent, e1, e2) = >>=-eq-ok (send_write seat_ids room_id w db) _ e in
      send_writes-keeps (changed_seat input s) ws sent
        (subst (λ v. any (same_row v) ws ≡ false) (sym same) u.0)
        (send_write-takes s input db m
          (subst (λ v. send_write seat_ids room_id v db ≡ ok sent) (sym same) e1))
        e2
  send_writes-takes s input (w ∷ ws) db u m (there k) e =
      let (sent, e1, e2) = >>=-eq-ok (send_write seat_ids room_id w db) _ e in
      send_writes-takes s input ws sent u.1
        (send_write-keeps s w db (apart s.id input w (any-false (same_row w) ws u.0 k)) m e1) k e2

-- The change that the loop asks for.
module _ (existing : List Seat) where
  layout_write-found :
      (n : ℕ) (input : RoomLayoutSeatInput) (o : Option Uuid) (i : Uuid) (s : Seat)
      → o ≡ some i
      → find_first (λ s. s.id == i) existing ≡ some s
      → change s.id input ≡ layout_write existing n input o
  layout_write-found n input o i s named found =
      subst (λ p. change s.id input ≡ layout_write existing n input p) (sym named)
        (rw (found, layout_write) refl)

  pub In-layout_writes :
      (n : ℕ) (inputs : List RoomLayoutSeatInput) {input : RoomLayoutSeatInput} {i : Uuid}
      {s : Seat}
      → In input inputs
      → input.id ≡ some i
      → find_first (λ s. s.id == i) existing ≡ some s
      → In (change s.id input) (layout_writes existing n inputs)
  unfolding layout_writes
  In-layout_writes n [] m named found = elim m [ ]
  In-layout_writes n (x ∷ inputs) {input} {i} {s} (here e) named found = here (
      subst (λ z. change s.id input ≡ layout_write existing n z z.id) e
        (layout_write-found n input input.id i s named found))
  In-layout_writes n (x ∷ inputs) (there m) named found =
      there (In-layout_writes (suc n) inputs m named found)

  layout_write-same :
      (n k : ℕ) (a b : RoomLayoutSeatInput) (o p : Option Uuid)
      → same_row (layout_write existing n a o) (layout_write existing k b p) ≡ true
      → same_id o p ≡ true
  layout_write-same n k a b none p h = absurd (true_and_false h refl)
  layout_write-same n k a b (some i) none h =
      elim (Option-cases (find_first (λ s. s.id == i) existing)) [
        | inl absent ↦ absurd (true_and_false (rw (absent, layout_write, same_row) at h) refl)
        | inr (s, found) ↦ absurd (true_and_false (rw (found, layout_write, same_row) at h) refl)
      ]
  layout_write-same n k a b (some i) (some j) h =
      elim (Option-cases (find_first (λ s. s.id == i) existing)) [
        | inl absent ↦ absurd (true_and_false (rw (absent, layout_write, same_row) at h) refl)
        | inr (s, found) ↦ elim (Option-cases (find_first (λ s. s.id == j) existing)) [
          | inl absent ↦
              absurd (true_and_false (rw (found, absent, layout_write, same_row) at h) refl)
          | inr (t, other) ↦
              let one : s.id ≡ t.id =
                ==→eq s.id t.id (rw (found, other, layout_write, same_row) at h) in
              let (m, hit) = find_first-In (λ s. s.id == i) existing found in
              let (m', hit') = find_first-In (λ s. s.id == j) existing other in
              subst (λ z. (i == z) ≡ true) (sym (==→eq s.id i hit) ∙ one ∙ ==→eq t.id j hit')
                (==_refl i)
        ]
      ]

  any-layout_writes :
      (n k : ℕ) (input : RoomLayoutSeatInput) (inputs : List RoomLayoutSeatInput)
      → any (named_alike input) inputs ≡ false
      → any (same_row (layout_write existing n input input.id)) (layout_writes existing k inputs)
        ≡ false
  unfolding any layout_writes
  any-layout_writes n k input [] h = refl
  any-layout_writes n k input (x ∷ inputs) h =
      let (a, b) = ||-false (named_alike input x) (any (named_alike input) inputs) h in
      let rest = any-layout_writes n (suc k) input inputs b in
      elim (Bool-cases
        (same_row (layout_write existing n input input.id) (layout_write existing k x x.id))) [
          | inl t ↦ absurd (true_and_false (layout_write-same n k input x input.id x.id t) a)
          | inr f ↦ ground (arith, f, rest)
        ]

  pub layout_writes-IsUnique :
      (n : ℕ) (inputs : List RoomLayoutSeatInput)
      → IsUnique named_alike inputs
      → IsUnique same_row (layout_writes existing n inputs)
  unfolding layout_writes
  layout_writes-IsUnique n [] u = tt
  layout_writes-IsUnique n (x ∷ inputs) u =
      (any-layout_writes n (suc n) x inputs u.0, layout_writes-IsUnique (suc n) inputs u.1)
