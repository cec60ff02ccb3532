-- ===== src/Booking/Spec/Safe.antt =====
-- The invariant of the table of bookings, and the steps of the specification.
use mathlib.Core.List.{map-append}
use desmobapp_backend.Prelude.{
  ℕ, ◌<◌, ◌≡◌, sym, ◌∙◌, subst, ◌≢◌, inl, inr, Bool, true, false, List, [], ◌∷◌, ◌++◌, map, Forall₂,
  In, In-nil, In-snoc, Distinct, Distinct-snoc, any-map, eq_of_key, Forall₂-In, Forall₂-map, any,
  ◌==◌, arith, ap,
}
use desmobapp_backend.Db.{Uuid, BookingStatus, no_show, completed, Booking}
use desmobapp_backend.Availability.{is_blocking, overlaps}
use desmobapp_backend.Booking.Spec.{
  Clear, is_fresh, StatusMove, stay, confirm, cancel, check_in, SamePlace, Settles, Moves, other,
  moved, IsFree, Step, add, move, settle,
}

-- The statuses that the services write.
abbrev pub is_live : BookingStatus → Bool
is_live BookingStatus.expired = false
is_live no_show = false
is_live completed = false
is_live _ = true

abbrev booking_id : Booking → Uuid
booking_id b = b.id

pub record Safe (bs : List Booking) : Type 0 where
  -- Identifiers are distinct.
  pub keys : Distinct (map booking_id bs)
  -- No booking is expired, completed or a no-show.
  pub live : (b : Booking) → In b bs → is_live b.status ≡ true
  -- A booking starts before it ends.
  pub ordered : (b : Booking) → In b bs → b.start_time < b.end_time
  -- Two bookings that block in one venue have no instant in common.
  pub exclusive : (a b : Booking) → In a bs → In b bs → a.id ≢ b.id → Clear a b

-- What blocks after a change of status did so before.
StatusMove-blocking :
    (s t : BookingStatus)
    → is_live s ≡ true
    → StatusMove s t
    → is_blocking t ≡ true
    → is_blocking s ≡ true
StatusMove-blocking s t l (stay e) h = subst (λ r. is_blocking r ≡ true) e h
StatusMove-blocking s t l (confirm e f) h = ground arith
StatusMove-blocking s t l (cancel e f) h = ground arith
StatusMove-blocking s t l (check_in e f g) h = ground arith

StatusMove-live : (s t : BookingStatus) → is_live s ≡ true → StatusMove s t → is_live t ≡ true
StatusMove-live s t l (stay e) = ground arith
StatusMove-live s t l (confirm e f) = ground arith
StatusMove-live s t l (cancel e f) = ground arith
StatusMove-live s t l (check_in e f g) = ground arith

overlaps_comm : (a b c d : ℕ) → overlaps a b c d ≡ false → overlaps c d a b ≡ false
overlaps_comm a b c d h = ground arith

Clear-symm : (a b : Booking) → Clear a b → Clear b a
Clear-symm a b c hb ha v =
    overlaps_comm a.start_time a.end_time b.start_time b.end_time (c ha hb (sym v))

Settles-Clear :
    (x z a b : Booking)
    → Settles x a
    → Settles z b
    → is_live x.status ≡ true
    → is_live z.status ≡ true
    → Clear x z
    → Clear a b
Settles-Clear x z a b r q lx lz c ha hb v =
    rw (r.same_start, r.same_end, q.same_start, q.same_end)
      (c (StatusMove-blocking x.status a.status lx r.status_move ha)
        (StatusMove-blocking z.status b.status lz q.status_move hb)
        (sym r.place.same_venue ∙ v ∙ q.place.same_venue))

settle-Safe : (bs bs' : List Booking) → Forall₂ Settles bs bs' → Safe bs → Safe bs'
settle-Safe bs bs' f s = record {
  keys = subst Distinct (sym (Forall₂-map Settles booking_id (λ x y r. r.place.same_id) f)) s.keys;
  live = λ y m.
      let (x, i, r) = Forall₂-In Settles f m in
      StatusMove-live x.status y.status (s.live x i) r.status_move;
  ordered = λ y m.
      let (x, i, r) = Forall₂-In Settles f m in
      omega (arith, s.ordered x i, r.same_start, r.same_end);
  exclusive = λ a b ma mb ne.
      let (x, i, r) = Forall₂-In Settles f ma in
      let (z, j, q) = Forall₂-In Settles f mb in
      Settles-Clear x z a b r q (s.live x i) (s.live z j)
        (s.exclusive x z i j (λ e. ne (r.place.same_id ∙ e ∙ sym q.place.same_id)));
}

is_fresh-live : (t : BookingStatus) → is_fresh t ≡ true → is_live t ≡ true
is_fresh-live t h = ground arith

module _ (bs : List Booking) (b : Booking) (fresh : is_fresh b.status ≡ true)
    (free : IsFree b.id b.start_time b.end_time b.venue_id bs) (s : Safe bs) where
  new-Clear : (a : Booking) → In a bs → a.id ≢ b.id → Clear b a
  new-Clear a m ne hb ha v = free a m ne ha (sym v)

  add-exclusive :
      (a c : Booking) → In a (bs ++ b ∷ []) → In c (bs ++ b ∷ []) → a.id ≢ c.id → Clear a c
  add-exclusive a c ma mc ne = elim (In-snoc bs b ma) [
    | inl ia ↦ elim (In-snoc bs b mc) [
      | inl ic ↦ s.exclusive a c ia ic ne
      | inr ec ↦
          subst (Clear a) (sym ec)
            (Clear-symm b a (new-Clear a ia (λ e. ne (e ∙ ap booking_id (sym ec)))))
    ]
    | inr ea ↦ elim (In-snoc bs b mc) [
      | inl ic ↦
          subst (λ x. Clear x c) (sym ea) (new-Clear c ic (λ e. ne (ap booking_id ea ∙ sym e)))
      | inr ec ↦ absurd (ne (ap booking_id (ea ∙ sym ec)))
    ]
  ]

  add-Safe : b.start_time < b.end_time → any (λ r. r.id == b.id) bs ≡ false → Safe (bs ++ b ∷ [])
  add-Safe before unused = record {
    keys =
        subst Distinct (sym (map-append booking_id bs (b ∷ [])))
          (Distinct-snoc (map booking_id bs) b.id s.keys (any-map booking_id b.id bs ∙ unused));
    live = λ y m. elim (In-snoc bs b m) [
      | inl i ↦ s.live y i
      | inr e ↦ subst (λ x. is_live x.status ≡ true) (sym e) (is_fresh-live b.status fresh)
    ];
    ordered = λ y m. elim (In-snoc bs b m) [
      | inl i ↦ s.ordered y i
      | inr e ↦ subst (λ x. x.start_time < x.end_time) (sym e) before
    ];
    exclusive = add-exclusive;
  }

module _ (bs bs' : List Booking) (i start_time end_time : ℕ) (x : Booking) (present : In x bs)
    (named : x.id ≡ i) (free : IsFree i start_time end_time x.venue_id bs) (s : Safe bs) where
  Moves-same_id : (y z : Booking) → Moves i start_time end_time y z → z.id ≡ y.id
  Moves-same_id y z (other ne e) = ap booking_id e
  Moves-same_id y z (moved ei fx fy p st en) = p.same_id

  Moves-live : (y z : Booking) → In y bs → Moves i start_time end_time y z → is_live z.status ≡ true
  Moves-live y z m (other ne e) = subst (λ r. is_live r.status ≡ true) (sym e) (s.live y m)
  Moves-live y z m (moved ei fx fy p st en) = is_fresh-live z.status fy

  Moves-ordered :
      (y z : Booking)
      → start_time < end_time
      → In y bs
      → Moves i start_time end_time y z
      → z.start_time < z.end_time
  Moves-ordered y z h m (other ne e) =
      subst (λ r. r.start_time < r.end_time) (sym e) (s.ordered y m)
  Moves-ordered y z h m (moved ei fx fy p st en) = omega arith

  -- The moved row against one that stays.
  moved-Clear :
      (y z r : Booking)
      → In y bs
      → y.id ≡ i
      → SamePlace y z
      → z.start_time ≡ start_time
      → z.end_time ≡ end_time
      → In r bs
      → r.id ≢ i
      → Clear z r
  moved-Clear y z r m ei p st en mr ne hz hr v =
      rw (st, en) (free r mr ne hr (sym v ∙ p.same_venue ∙ ap (λ (b : Booking). b.venue_id) same))
    where
      same : y ≡ x
      same = eq_of_key booking_id bs s.keys m present (ei ∙ sym named)

  Moves-Clear :
      (y z a b : Booking)
      → In y bs
      → In z bs
      → Moves i start_time end_time y a
      → Moves i start_time end_time z b
      → a.id ≢ b.id
      → Clear a b
  Moves-Clear y z a b my mz (other ny ey) (other nz ez) ne =
      subst (λ r. Clear r b) (sym ey)
        (subst (Clear y) (sym ez)
          (s.exclusive y z my mz (λ e. ne (ap booking_id ey ∙ e ∙ sym (ap booking_id ez)))))
  Moves-Clear y z a b my mz (moved ei fx fy p st en) (other nz ez) ne =
      subst (Clear a) (sym ez) (moved-Clear y a z my ei p st en mz nz)
  Moves-Clear y z a b my mz (other ny ey) (moved ei fx fy p st en) ne =
      Clear-symm b a (subst (Clear b) (sym ey) (moved-Clear z b y mz ei p st en my ny))
  Moves-Clear y z a b my mz (moved ei fx fy p st en) (moved ei' fx' fy' p' st' en') ne =
      absurd (ne (p.same_id ∙ ei ∙ sym ei' ∙ sym p'.same_id))

  move-Safe : start_time < end_time → Forall₂ (Moves i start_time end_time) bs bs' → Safe bs'
  move-Safe before f = record {
    keys =
        subst Distinct (sym (Forall₂-map (Moves i start_time end_time) booking_id Moves-same_id f))
          s.keys;
    live =
        λ y m. let (z, j, r) = Forall₂-In (Moves i start_time end_time) f m in Moves-live z y j r;
    ordered = λ y m.
        let (z, j, r) = Forall₂-In (Moves i start_time end_time) f m in
        Moves-ordered z y before j r;
    exclusive = λ a b ma mb ne.
        let (y, j, r) = Forall₂-In (Moves i start_time end_time) f ma in
        let (z, k, q) = Forall₂-In (Moves i start_time end_time) f mb in
        Moves-Clear y z a b j k r q ne;
  }

-- Every step of the specification keeps the invariant.
pub Step-Safe : (bs bs' : List Booking) → Step bs bs' → Safe bs → Safe bs'
Step-Safe bs bs' (add b e unused fresh before free) s =
    subst Safe (sym e) (add-Safe bs b fresh free s before unused)
Step-Safe bs bs' (move i st en x m ei before free f) s =
    move-Safe bs bs' i st en x m ei free s before f
Step-Safe bs bs' (settle f) s = settle-Safe bs bs' f s

pub Safe-nil : Safe []
Safe-nil = record {
  keys = tt;
  live = λ b m. absurd (In-nil m);
  ordered = λ b m. absurd (In-nil m);
  exclusive = λ a b m k. absurd (In-nil m);
}
