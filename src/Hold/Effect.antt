-- ===== src/Hold/Effect.antt =====
-- app/services/hold.py: what a hold must and does.
use desmobapp_backend.Prelude.{
  ℕ, ◌≡◌, ◌<◌, ◌≤◌, refl, sym, ◌∙◌, subst, true, false, List, [], ◌∷◌, ◌++◌, ok, >>=-eq-ok, ok-pair,
  In, arith, raise_if-eq-ok, any, any-false, leb, leb→lt, Bool-cases, inl, inr, true_and_false,
}
use desmobapp_backend.Db.{Db, Uuid, Hold, Booking, hold_is_pending, insert_hold, insert_hold-eq-ok}
use desmobapp_backend.Time.{ZoneInfo, Env, ensure_utc, load_zone}
use desmobapp_backend.Availability.{
  ResourceContext, resolve_resource, resolve_booking_rule, load_conflicts, overlaps, is_blocking,
}
use desmobapp_backend.Availability.Complete.{load_conflicts-bookings, load_conflicts-holds}
use desmobapp_backend.Booking.{check_order, check_rule, check_hours}
use desmobapp_backend.Hold.{
  HoldCreateRequest, hold_row, hold_ttl_seconds, check_hold_conflicts, place_hold, create_hold,
}

-- What a hold may not meet: a blocking booking of its venue, or a hold that is active at `now`.
pub record IsOpen (now : ℕ) (db : Db) (h : Hold) : Type 0 where
  pub no_booking :
      (b : Booking)
      → In b db.bookings
      → is_blocking b.status ≡ true
      → b.venue_id ≡ h.venue_id
      → overlaps h.start_time h.end_time b.start_time b.end_time ≡ false
  pub no_hold :
      (k : Hold)
      → In k db.holds
      → hold_is_pending k.status ≡ true
      → now < k.expires_at
      → k.venue_id ≡ h.venue_id
      → overlaps h.start_time h.end_time k.start_time k.end_time ≡ false

pub record Held (env : Env) (user_id : Uuid) (db : Db) (h : Hold) (db' : Db) : Type 0 where
  pub own : h.user_id ≡ user_id
  pub pending : hold_is_pending h.status ≡ true
  pub starts_before_end : h.start_time < h.end_time
  pub in_future : env.own_now < h.start_time
  pub ends_by_start : h.expires_at ≤ h.start_time
  pub is_open : IsOpen env.conflicts_now db h
  pub after : db' ≡ record db { holds = db.holds ++ h ∷ [] }

check_hold_conflicts-eq-ok :
    (bookings : List Booking) (holds : List Hold) (st en : ℕ)
    → check_hold_conflicts bookings holds st en ≡ ok tt
    → (any (λ b. overlaps st en b.start_time b.end_time) bookings ≡ false)
      × (any (λ h. overlaps st en h.start_time h.end_time) holds ≡ false)
unfolding check_hold_conflicts
check_hold_conflicts-eq-ok bookings holds st en e0 =
    let (a, e1) =
      raise_if-eq-ok (any (λ b. overlaps st en b.start_time b.end_time) bookings) _ _ e0 in
    let (b, e2) = raise_if-eq-ok (any (λ h. overlaps st en h.start_time h.end_time) holds) _ _ e1 in
    (a, b)

loaded-IsOpen :
    (env : Env) (user_id : Uuid) (ttl : ℕ) (db : Db) (c : ResourceContext) (st en : ℕ)
    (bookings : List Booking) (holds : List Hold)
    → load_conflicts env.conflicts_now db c st en ≡ ok (bookings, holds)
    → check_hold_conflicts bookings holds st en ≡ ok tt
    → IsOpen env.conflicts_now db (hold_row env user_id c st en ttl)
unfolding hold_row
loaded-IsOpen env user_id ttl db c st en bookings holds loaded clear =
    let (a, b) = check_hold_conflicts-eq-ok bookings holds st en clear in
    record {
      no_booking = λ x m blocks v. elim (Bool-cases (overlaps st en x.start_time x.end_time)) [
        | inl hit ↦ absurd (
            true_and_false hit (
              any-false _ bookings a (
                load_conflicts-bookings env.conflicts_now db c st en bookings holds x loaded m
                  blocks v hit)))
        | inr miss ↦ miss
      ];
      no_hold = λ x m p active v. elim (Bool-cases (overlaps st en x.start_time x.end_time)) [
        | inl hit ↦ absurd (
            true_and_false hit (
              any-false _ holds b (
                load_conflicts-holds env.conflicts_now db c st en bookings holds x loaded m p active
                  v hit)))
        | inr miss ↦ miss
      ];
    }

hold_row-facts :
    (env : Env) (user_id : Uuid) (c : ResourceContext) (st en ttl : ℕ)
    → let h = hold_row env user_id c st en ttl in
      (h.user_id ≡ user_id)
      × (hold_is_pending h.status ≡ true)
      × (h.start_time ≡ st)
      × (h.end_time ≡ en)
      × (h.expires_at ≤ st)
unfolding hold_row
hold_row-facts env user_id c st en ttl = (refl, refl, refl, refl, omega arith)

place_hold-Held :
    (env : Env) (user_id : Uuid) (c : ResourceContext) (st en ttl : ℕ) (db : Db) {h : Hold}
    {db' : Db}
    → st < en
    → env.own_now < st
    → place_hold env user_id c st en ttl db ≡ ok (h, db')
    → Held env user_id db h db'
unfolding place_hold
place_hold-Held env user_id c st en ttl db {h} {db'} before future e0 =
    let (conflicts, loaded, e1) = >>=-eq-ok (load_conflicts env.conflicts_now db c st en) _ e0 in
    let (u, clear, e2) = >>=-eq-ok (check_hold_conflicts conflicts.0 conflicts.1 st en) _ e1 in
    let made : Hold = hold_row env user_id c st en ttl in
    let (added, inserted, e3) = >>=-eq-ok (insert_hold made db) _ e2 in
    let (unused, after) = insert_hold-eq-ok made db inserted in
    let (row, last) = ok-pair e3 in
    let (own, pending, same_start, same_end, expires) = hold_row-facts env user_id c st en ttl in
    subst (λ x. Held env user_id db x db') (sym row)
      (record {
        own = own;
        pending = pending;
        starts_before_end = rw (same_start, same_end) before;
        in_future = rw same_start future;
        ends_by_start = rw same_start expires;
        is_open = loaded-IsOpen env user_id ttl db c st en conflicts.0 conflicts.1 loaded clear;
        after = last ∙ after;
      })

check_order-eq-ok : (now st en : ℕ) → check_order now st en ≡ ok tt → (st < en) × (now < st)
unfolding check_order
check_order-eq-ok now st en e0 =
    let (a, e1) = raise_if-eq-ok (leb en st) _ _ e0 in
    let (b, e2) = raise_if-eq-ok (leb st now) _ _ e1 in (leb→lt en st a, leb→lt st now b)

-- A `create_hold` that returns adds one pending hold of the caller, which starts in the future, ends
-- after that, expires by its start and meets no blocking booking and no active hold of its venue.
pub create_hold-Held :
    (zones : ZoneInfo) (env : Env) (user_id : Uuid) (payload : HoldCreateRequest) (db : Db)
    {h : Hold} {db' : Db}
    → create_hold zones env user_id payload db ≡ ok (h, db')
    → Held env user_id db h db'
unfolding create_hold
create_hold-Held zones env user_id payload db e0 =
    let (st, starts, e1) = >>=-eq-ok (ensure_utc payload.start_time) _ e0 in
    let (en, ends, e2) = >>=-eq-ok (ensure_utc payload.end_time) _ e1 in
    let (u1, order, e3) = >>=-eq-ok (check_order env.own_now st en) _ e2 in
    let (before, future) = check_order-eq-ok env.own_now st en order in
    let (c, resolved, e4) =
      >>=-eq-ok (resolve_resource db payload.level payload.seat_id payload.room_id payload.venue_id)
        _ e3 in
    let (u2, ruled, e5) =
      >>=-eq-ok (check_rule env.own_now st en (resolve_booking_rule db c)) _ e4 in
    let (zone, known, e6) = >>=-eq-ok (load_zone zones c.timezone) _ e5 in
    let (u3, within, e7) = >>=-eq-ok (check_hours db c zone st en) _ e6 in
    place_hold-Held env user_id c st en (hold_ttl_seconds (resolve_booking_rule db c)) db before
      future e7
