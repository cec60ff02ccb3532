-- ===== src/Booking/Converted.antt =====
-- app/services/booking.py, `_validate_hold` and the hold that `create_booking` converts.
use desmobapp_backend.Prelude.{
  ||-false, ℕ, ◌<◌, ◌≡◌, sym, ◌∙◌, ap, subst, Bool, true, false, not, ◌||◌, ◌&&◌, some, ok,
  >>=-eq-ok, ok-injective, raise_if-eq-ok, or_raise-eq-ok, In, find_first, find_first-In,
  update_where-In, &&-true, ◌==◌, ==→eq, not-not, leb, leb→lt, opt_eq, opt_eq→eq, arith, inl, inr,
}
use desmobapp_backend.Db.{
  Db, Uuid, Hold, Booking, converted, hold_is_pending, level_eq, level_eq→eq,
}
use desmobapp_backend.Time.{ZoneInfo, Env}
use desmobapp_backend.Availability.{ResourceContext}
use desmobapp_backend.Booking.HoldCheck.{validate_hold}
use desmobapp_backend.Booking.Create.{
  BookingCreateRequest, create_booking, named_hold, booking_row, convert_hold,
}
use desmobapp_backend.Booking.Created.{Placed, create_booking-Placed}

-- The hold is the user's own, still active, and for this place and window.
pub record IsUsable (now : ℕ) (db : Db) (hold_id user_id : Uuid) (st en : ℕ) (c : ResourceContext)
    (h : Hold) : Type 0 where
  pub present : In h db.holds
  pub named : h.id ≡ hold_id
  pub own : h.user_id ≡ user_id
  pub pending : hold_is_pending h.status ≡ true
  pub unexpired : now < h.expires_at
  pub same_level : h.level ≡ c.level
  pub same_venue : h.venue_id ≡ some c.venue_id
  pub same_room : h.room_id ≡ c.room_id
  pub same_seat : h.seat_id ≡ c.seat_id
  pub same_start : h.start_time ≡ st
  pub same_end : h.end_time ≡ en

all_false :
    (v r s a b : Bool)
    → (v || r || s || a || b) ≡ false
    → (v ≡ false) × (r ≡ false) × (s ≡ false) × (a ≡ false) × (b ≡ false)
all_false v r s a b h = ground arith

pub validate_hold-IsUsable :
    (now : ℕ) (db : Db) (hold_id user_id : Uuid) (st en : ℕ) (c : ResourceContext) {h : Hold}
    → validate_hold now db hold_id user_id st en c ≡ ok h
    → IsUsable now db hold_id user_id st en c h
unfolding validate_hold
validate_hold-IsUsable now db hold_id user_id st en c e0 =
    let (h, found, e1) =
      or_raise-eq-ok (find_first (λ x. x.id == hold_id && x.user_id == user_id) db.holds) _ _ e0 in
    let (m, mine) = find_first-In (λ x. x.id == hold_id && x.user_id == user_id) db.holds found in
    let (i, u) = &&-true (h.id == hold_id) (h.user_id == user_id) mine in
    let (fresh, e2) =
      raise_if-eq-ok (not (hold_is_pending h.status) || leb h.expires_at now) _ _ e1 in
    let (p, x) = ||-false (not (hold_is_pending h.status)) (leb h.expires_at now) fresh in
    let (level, e3) = raise_if-eq-ok (not (level_eq h.level c.level)) _ _ e2 in
    let (place, e4) = raise_if-eq-ok _ _ _ e3 in
    let (v, r, s, a, b) =
      all_false (not (opt_eq h.venue_id (some c.venue_id))) (not (opt_eq h.room_id c.room_id))
        (not (opt_eq h.seat_id c.seat_id)) (not (h.start_time == st)) (not (h.end_time == en))
        place in
    subst (IsUsable now db hold_id user_id st en c) (ok-injective e4) (record {
      present = m;
      named = ==→eq h.id hold_id i;
      own = ==→eq h.user_id user_id u;
      pending = not-not (hold_is_pending h.status) p;
      unexpired = leb→lt h.expires_at now x;
      same_level = level_eq→eq h.level c.level (not-not _ level);
      same_venue = opt_eq→eq h.venue_id (some c.venue_id) (not-not _ v);
      same_room = opt_eq→eq h.room_id c.room_id (not-not _ r);
      same_seat = opt_eq→eq h.seat_id c.seat_id (not-not _ s);
      same_start = ==→eq h.start_time st (not-not (h.start_time == st) a);
      same_end = ==→eq h.end_time en (not-not (h.end_time == en) b);
    })

-- The booking takes the place and the window of the hold, and the hold is used up.
pub record Converts (env : Env) (user_id hold_id : Uuid) (db : Db) (b : Booking) (db' : Db)
    : Type 0 where
  pub hold : Hold
  pub context : ResourceContext
  pub usable : IsUsable env.hold_now db hold_id user_id b.start_time b.end_time context hold
  pub same_level : b.level ≡ hold.level
  pub same_venue : b.venue_id ≡ hold.venue_id
  pub same_room : b.room_id ≡ hold.room_id
  pub same_seat : b.seat_id ≡ hold.seat_id
  pub refers : b.hold_id ≡ some hold_id
  pub used_up : (h : Hold) → In h db'.holds → h.id ≡ hold_id → h.status ≡ converted

converted_rows :
    (used h : Hold) (db : Db)
    → In h (convert_hold (some used) db).holds
    → h.id ≡ used.id
    → h.status ≡ converted
unfolding convert_hold
converted_rows used h db m e =
    let (x, i, k) =
      update_where-In (λ (r : Hold). r.id == used.id) (λ r. record r { status = converted })
        db.holds m in
    elim k [
      | inl (t, e') ↦ ap (λ (r : Hold). r.status) e'
      | inr (f, e') ↦ absurd (differs x.id used.id f (ap (λ (r : Hold). r.id) (sym e') ∙ e))
    ]
  where
    differs : (a b : ℕ) → (a == b) ≡ false → a ≡ b → ⊥
    differs a b f e = ground arith

Placed-Converts :
    (zones : ZoneInfo) (env : Env) (user_id hold_id : Uuid) (st en : ℕ) (c : ResourceContext)
    (db : Db) {b : Booking} {db' : Db}
    → Placed zones env user_id (some hold_id) st en c db b db'
    → Converts env user_id hold_id db b db'
unfolding named_hold booking_row
Placed-Converts zones env user_id hold_id st en c db {b} {db'} p =
    let (h, valid, e) =
      >>=-eq-ok (validate_hold env.hold_now db hold_id user_id st en c) _ p.held in
    let usable = validate_hold-IsUsable env.hold_now db hold_id user_id st en c valid in
    let row : b ≡ booking_row env user_id (some h) c st en p.window.1 p.window.2 =
      p.row
      ∙ ap (λ o. booking_row env user_id o c st en p.window.1 p.window.2) (sym (ok-injective e)) in
    subst (λ x. Converts env user_id hold_id db x db') (sym row)
      (record {
        hold = h;
        context = c;
        usable = usable;
        same_level = sym usable.same_level;
        same_venue = sym usable.same_venue;
        same_room = sym usable.same_room;
        same_seat = sym usable.same_seat;
        refers = ap some usable.named;
        used_up = λ x m i.
            converted_rows h x db
              (subst (In x)
                (p.committed.holds_after
                  ∙ ap (λ o. (convert_hold o db).holds) (sym (ok-injective e)))
                m)
              (i ∙ sym usable.named);
      })

-- A `create_booking` from a hold that returns used the caller's own hold, which was pending and
-- unexpired and for the very place and window of the booking; no hold of that identifier is pending
-- any more, so none is used twice.
pub create_booking-Converts :
    (zones : ZoneInfo) (env : Env) (user_id hold_id : Uuid) (payload : BookingCreateRequest)
    (db : Db) {b : Booking} {db' : Db}
    → payload.hold_id ≡ some hold_id
    → create_booking zones env user_id payload db ≡ ok (b, db')
    → Converts env user_id hold_id db b db'
create_booking-Converts zones env user_id hold_id payload db {b} {db'} named e =
    let (st, en, c, starts, ends, resolved, p) =
      create_booking-Placed zones env user_id payload db e in
    Placed-Converts zones env user_id hold_id st en c db
      (subst (λ o. Placed zones env user_id o st en c db b db') named p)
