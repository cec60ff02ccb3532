-- ===== src/Api/Ledgers.antt =====
-- The invariant of the database and the functions of app/services/payment.py, checkin.py and
-- hold.py.
use desmobapp_backend.Prelude.{
  ℕ, ◌≡◌, ◌<◌, ◌≤◌, ◌+◌, refl, sym, ◌∙◌, ap, subst, inl, inr, List, [], ◌∷◌, ◌++◌, ok, In, In-snoc,
  arith, update_where, update_where-In, ◌==◌, find_first, or_raise-eq-ok, ok-injective, Bool-cases,
  ◌&&◌, ◌≢◌, ==→eq,
}
use desmobapp_backend.Db.{Db, Uuid, Hold, hold_is_pending, Checkin, Transaction, captured, refunded}
use desmobapp_backend.Time.{ZoneInfo, Env}
use desmobapp_backend.Booking.Spec.{Settles, settle}
use desmobapp_backend.Booking.Spec.Safe.{Step-Safe}
use desmobapp_backend.Booking.Settled.{Settled, same_rows-Settled}
use desmobapp_backend.Hold.{HoldCreateRequest, create_hold, cancel_hold}
use desmobapp_backend.Hold.Effect.{create_hold-Held}
use desmobapp_backend.Payment.{
  PaymentCreateRequest, PaymentRefundRequest, create_payment, capture_payment, refund_payment,
}
use desmobapp_backend.Payment.Effect.{IsMade, Confirms-Settled, create_payment-Paid}
use desmobapp_backend.Payment.Change.{Captured, already, taken, IsTaken, capture_payment-Captured}
use desmobapp_backend.Payment.Refund.{IsGivenBack, refund_payment-Refunded}
use desmobapp_backend.CheckIn.{CheckinRequest, create_checkin}
use desmobapp_backend.CheckIn.Effect.{
  create_checkin-CheckedIn, CheckedIn-admitted, CheckedIn-Settled,
}
use desmobapp_backend.Api.Invariant.{
  Inv, IsChecked, IsBalanced, Settles-Keeps, rows-IsHomed, rows-IsChecked,
}

captured≢refunded : captured ≢ refunded
captured≢refunded e = cc

-- A change that settles the bookings keeps all but what is said of the two other tables.
Settled-Inv :
    (db db' : Db)
    → Inv db
    → Settled db db'
    → ((c : Checkin) → In c db'.checkins → IsChecked db'.bookings c)
    → ((t : Transaction) → In t db'.transactions → IsBalanced t)
    → Inv db'
Settled-Inv db db' v s checked balanced = record {
  safe = Step-Safe db.bookings db'.bookings (settle s.rows) v.safe;
  homed = rows-IsHomed db db' Settles Settles-Keeps s.rows s.space v.homed;
  checked = checked;
  balanced = balanced;
}

same-IsChecked :
    (db db' : Db)
    → Inv db
    → Settled db db'
    → db'.checkins ≡ db.checkins
    → (c : Checkin) → In c db'.checkins
    → IsChecked db'.bookings c
same-IsChecked db db' v s e c m =
    rows-IsChecked db db' Settles Settles-Keeps s.rows c (v.checked c (subst (In c) e m))

IsMade-IsBalanced :
    (env : Env) (user_id : Uuid) (payload : PaymentCreateRequest) (t : Transaction)
    → IsMade env user_id payload t
    → t.amount_cents ≤ 2_147_483_647
    → IsBalanced t
IsMade-IsBalanced env user_id payload t made h = record {
  within = omega (arith, made.none_back);
  used_up = λ e. absurd (captured≢refunded (sym made.is_captured ∙ e));
  fits = h;
}

pub create_payment-Inv :
    (env : Env) (user_id : Uuid) (payload : PaymentCreateRequest) (db : Db) {t : Transaction}
    {db' : Db}
    → Inv db
    → create_payment env user_id payload db ≡ ok (t, db')
    → Inv db'
create_payment-Inv env user_id payload db {t} {db'} v e =
    let p = create_payment-Paid env user_id payload db e in
    let s = Confirms-Settled payload.booking_id db db' p.rows p.space in
    Settled-Inv db db' v s (same-IsChecked db db' v s p.checkins_after) (λ x m.
      elim (In-snoc db.transactions t (subst (In x) p.transactions_after m)) [
        | inl i ↦ v.balanced x i
        | inr same ↦
            subst IsBalanced (sym same) (IsMade-IsBalanced env user_id payload t p.made p.fits)
      ])

IsTaken-IsBalanced : (now : ℕ) (x y : Transaction) → IsTaken now x y → IsBalanced x → IsBalanced y
IsTaken-IsBalanced now x y p h = record {
  within = omega (arith, h.within, p.same_back, p.payment.same_amount);
  used_up = λ e. absurd (captured≢refunded (sym p.is_captured ∙ e));
  fits = omega (arith, h.fits, p.payment.same_amount);
}

-- A table in which one row was replaced by a balanced one.
saved-IsBalanced :
    (db db' : Db) (i : Uuid) (t : Transaction)
    → Inv db
    → db'.transactions ≡ update_where (λ r. r.id == i) (λ r. t) db.transactions
    → IsBalanced t
    → (x : Transaction) → In x db'.transactions
    → IsBalanced x
saved-IsBalanced db db' i t v e h x m =
    let (y, j, c) = update_where-In (λ r. r.id == i) (λ r. t) db.transactions (subst (In x) e m) in
    elim c [
      | inl (hit, same) ↦ subst IsBalanced (sym same) h
      | inr (miss, same) ↦ subst IsBalanced (sym same) (v.balanced y j)
    ]

Captured-Inv :
    (env : Env) (payment_id user_id : Uuid) (db db' : Db) (t : Transaction)
    → Inv db
    → Captured env payment_id user_id db t db'
    → Inv db'
Captured-Inv env payment_id user_id db db' t v (already m i u c e) = subst Inv (sym e) v
Captured-Inv env payment_id user_id db db' t v (taken x m i u o made after rows same holds space) =
    let s = Confirms-Settled t.booking_id db db' rows space in
    Settled-Inv db db' v s (same-IsChecked db db' v s same) (
      saved-IsBalanced db db' payment_id t v after
        (IsTaken-IsBalanced env.own_now x t made (v.balanced x m)))

pub capture_payment-Inv :
    (env : Env) (payment_id user_id : Uuid) (db : Db) {t : Transaction} {db' : Db}
    → Inv db
    → capture_payment env payment_id user_id db ≡ ok (t, db')
    → Inv db'
capture_payment-Inv env payment_id user_id db {t} {db'} v e =
    Captured-Inv env payment_id user_id db db' t v
      (capture_payment-Captured env payment_id user_id db e)

IsGivenBack-IsBalanced :
    (now amount : ℕ) (x y : Transaction)
    → IsGivenBack now amount x y
    → y.refunded_cents ≤ y.amount_cents
    → 0 < amount
    → IsBalanced x
    → IsBalanced y
IsGivenBack-IsBalanced now amount x y back within positive h = record {
  within = within;
  used_up = λ e. elim (Bool-cases (x.refunded_cents + amount == x.amount_cents)) [
    | inl t ↦
        let full = ==→eq (x.refunded_cents + amount) x.amount_cents t in
        omega (arith, full, back.sum, back.payment.same_amount)
    | inr f ↦
        let was = h.used_up (sym (back.in_part (λ e. ground arith)) ∙ e) in
        omega (arith, was, within, positive, back.sum, back.payment.same_amount)
  ];
  fits = omega (arith, h.fits, back.payment.same_amount);
}

pub refund_payment-Inv :
    (env : Env) (payment_id user_id : Uuid) (payload : PaymentRefundRequest) (db : Db)
    {t : Transaction} {db' : Db}
    → Inv db
    → refund_payment env payment_id user_id payload db ≡ ok (t, db')
    → Inv db'
refund_payment-Inv env payment_id user_id payload db {t} {db'} v e =
    let p = refund_payment-Refunded env payment_id user_id payload db e in
    let s : Settled db db' = same_rows-Settled db db' p.bookings_after p.space in
    Settled-Inv db db' v s (same-IsChecked db db' v s p.checkins_after) (
      saved-IsBalanced db db' payment_id t v p.transactions_after (
        IsGivenBack-IsBalanced env.own_now p.amount p.before t p.given_back p.within p.positive
          (v.balanced p.before p.present)))

pub create_checkin-Inv :
    (env : Env) (booking_id user_id : Uuid) (payload : CheckinRequest) (db : Db) {c : Checkin}
    {db' : Db}
    → Inv db
    → create_checkin env booking_id user_id payload db ≡ ok (c, db')
    → Inv db'
create_checkin-Inv env booking_id user_id payload db {c} {db'} v e =
    let p = create_checkin-CheckedIn env booking_id user_id payload db v.safe e in
    let s = CheckedIn-Settled p in
    let (y, i, named, admitted) = CheckedIn-admitted p in
    Settled-Inv db db' v s
      (λ x m. elim (In-snoc db.checkins c (subst (In x) p.checkins_after m)) [
        | inl i ↦ rows-IsChecked db db' Settles Settles-Keeps s.rows x (v.checked x i)
        | inr same ↦ (
          y,
          i,
          named ∙ sym (ap (λ (k : Checkin). k.booking_id) same ∙ p.recorded.same_booking),
          rw admitted refl,
        )
      ])
      (λ t m. v.balanced t (subst (In t) p.transactions_after m))

-- Where only holds change.
holds-Inv : (db : Db) (holds : List Hold) → Inv db → Inv (record db { holds = holds })
holds-Inv db holds v =
    let db' : Db = record db { holds = holds } in
    let s : Settled db db' =
      same_rows-Settled db db' refl
        (record { same_seats = refl; same_rooms = refl; same_venues = refl }) in
    Settled-Inv db db' v s (same-IsChecked db db' v s refl) v.balanced

pub create_hold-Inv :
    (zones : ZoneInfo) (env : Env) (user_id : Uuid) (payload : HoldCreateRequest) (db : Db)
    {h : Hold} {db' : Db}
    → Inv db
    → create_hold zones env user_id payload db ≡ ok (h, db')
    → Inv db'
create_hold-Inv zones env user_id payload db {h} v e =
    let p = create_hold-Held zones env user_id payload db e in
    subst Inv (sym p.after) (holds-Inv db (db.holds ++ h ∷ []) v)

pub cancel_hold-Inv :
    (hold_id user_id : Uuid) (db : Db) {db' : Db}
    → Inv db
    → cancel_hold hold_id user_id db ≡ ok db'
    → Inv db'
unfolding cancel_hold
cancel_hold-Inv hold_id user_id db v e0 =
    let (h, found, e1) =
      or_raise-eq-ok (find_first (λ x. x.id == hold_id && x.user_id == user_id) db.holds) _ _ e0 in
    subst Inv (ok-injective e1) (elim (Bool-cases (hold_is_pending h.status)) [
      | inl p ↦ rw p (holds-Inv db _ v)
      | inr n ↦ rw n v
    ])
