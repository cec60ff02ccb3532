-- ===== src/Booking/Allowed.antt =====
-- app/services/booking.py, `_validate_booking_window`, against a description of the windows that a
-- resource allows.
use desmobapp_backend.Prelude.{
  ||-false, le→ltb, ℕ, ◌+◌, ◌*◌, ◌<◌, ◌≤◌, ◌≡◌, ◌↔◌, refl, subst, Bool, true, false, not, ◌||◌,
  Option, none, some, ok, >>=-eq-ok, raise_if-eq-ok, or_raise-eq-ok, leb, ltb, leb→lt, ltb→le, ◌==◌,
  ==→eq, ==_refl, not-not, arith,
}
use desmobapp_backend.Db.{Db, BookingRule}
use desmobapp_backend.Time.{ZoneInfo, Zone, day, date_of, combine, duration_minutes}
use desmobapp_backend.Availability.{ResourceContext, resolve_booking_rule, resolve_operating_hours}
use desmobapp_backend.Booking.Window.{
  check_order, check_rule, check_hours, validate_booking_window, rule_requires_payment,
}

-- The length of the window and its distance, against a rule, where there is one.
pub data RuleAllows (now start_time end_time : ℕ) : Option BookingRule → Type 0 where
  no_rule : RuleAllows now start_time end_time none
  within_rule :
      {rule : BookingRule}
      → rule.min_duration_minutes ≤ duration_minutes start_time end_time
      → duration_minutes start_time end_time ≤ rule.max_duration_minutes
      → start_time ≤ now + rule.max_advance_days * day
      → RuleAllows now start_time end_time (some rule)

-- On one local day, and between the opening and the closing of that day.
pub record IsOpenFor (db : Db) (c : ResourceContext) (zone : Zone) (start_time end_time : ℕ)
    : Type 0 where
  pub one_day : date_of (zone.from_utc start_time) ≡ date_of (zone.from_utc end_time)
  pub hours : ℕ × ℕ
  pub open_on : resolve_operating_hours db c (date_of (zone.from_utc start_time)) ≡ some hours
  pub opens : combine (date_of (zone.from_utc start_time)) hours.0 ≤ zone.from_utc start_time
  pub closes : zone.from_utc end_time ≤ combine (date_of (zone.from_utc start_time)) hours.1

pub record IsAllowed (zones : ZoneInfo) (now : ℕ) (db : Db) (c : ResourceContext)
    (start_time end_time : ℕ) : Type 0 where
  pub before : start_time < end_time
  pub future : now < start_time
  pub by_rule : RuleAllows now start_time end_time (resolve_booking_rule db c)
  pub zone : Zone
  pub known : zones c.timezone ≡ some zone
  pub is_open : IsOpenFor db c zone start_time end_time

check_order-lt : (now st en : ℕ) → check_order now st en ≡ ok tt → (st < en) × (now < st)
unfolding check_order
check_order-lt now st en e0 =
    let (a, e1) = raise_if-eq-ok (leb en st) _ _ e0 in
    let (b, e2) = raise_if-eq-ok (leb st now) _ _ e1 in (leb→lt en st a, leb→lt st now b)

lt-check_order : (now st en : ℕ) → st < en → now < st → check_order now st en ≡ ok tt
unfolding check_order
lt-check_order now st en a b =
    let not_a : leb en st ≡ false = ground arith in
    let not_b : leb st now ≡ false = ground arith in rw (not_a, not_b) refl

check_rule-RuleAllows :
    (now st en : ℕ) (rule : Option BookingRule)
    → check_rule now st en rule ≡ ok tt
    → RuleAllows now st en rule
unfolding check_rule
check_rule-RuleAllows now st en none e = no_rule
check_rule-RuleAllows now st en (some rule) e0 =
    let (a, e1) = raise_if-eq-ok (ltb (duration_minutes st en) rule.min_duration_minutes) _ _ e0 in
    let (b, e2) = raise_if-eq-ok (ltb rule.max_duration_minutes (duration_minutes st en)) _ _ e1 in
    let (d, e3) = raise_if-eq-ok (ltb (now + rule.max_advance_days * day) st) _ _ e2 in
    within_rule (ltb→le _ _ a) (ltb→le _ _ b) (ltb→le _ _ d)

RuleAllows-check_rule :
    (now st en : ℕ) (rule : Option BookingRule)
    → RuleAllows now st en rule
    → check_rule now st en rule ≡ ok tt
unfolding check_rule
RuleAllows-check_rule now st en none no_rule = refl
RuleAllows-check_rule now st en (some rule) (within_rule a b d) =
    rw (le→ltb a, le→ltb b, le→ltb d) refl

check_hours-IsOpenFor :
    (db : Db) (c : ResourceContext) (zone : Zone) (st en : ℕ)
    → check_hours db c zone st en ≡ ok tt
    → IsOpenFor db c zone st en
unfolding check_hours
check_hours-IsOpenFor db c zone st en e0 =
    let ls : ℕ = zone.from_utc st in
    let le : ℕ = zone.from_utc en in
    let (same, e1) = raise_if-eq-ok (not (date_of ls == date_of le)) _ _ e0 in
    let (hours, open_on, e2) = or_raise-eq-ok (resolve_operating_hours db c (date_of ls)) _ _ e1 in
    let (within, e3) =
      raise_if-eq-ok
        (ltb ls (combine (date_of ls) hours.0) || ltb (combine (date_of ls) hours.1) le) _ _ e2 in
    let (opens, closes) =
      ||-false (ltb ls (combine (date_of ls) hours.0)) (ltb (combine (date_of ls) hours.1) le)
        within in
    record {
      one_day = ==→eq (date_of ls) (date_of le) (not-not _ same);
      hours = hours;
      open_on = open_on;
      opens = ltb→le ls (combine (date_of ls) hours.0) opens;
      closes = ltb→le (combine (date_of ls) hours.1) le closes;
    }

IsOpenFor-check_hours :
    (db : Db) (c : ResourceContext) (zone : Zone) (st en : ℕ)
    → IsOpenFor db c zone st en
    → check_hours db c zone st en ≡ ok tt
unfolding check_hours
IsOpenFor-check_hours db c zone st en h =
    let ls : ℕ = zone.from_utc st in
    let le : ℕ = zone.from_utc en in
    let same : (date_of ls == date_of le) ≡ true =
      subst (λ d. (date_of ls == d) ≡ true) h.one_day (==_refl (date_of ls)) in
    let opens : ltb ls (combine (date_of ls) h.hours.0) ≡ false = le→ltb h.opens in
    let closes : ltb (combine (date_of ls) h.hours.1) le ≡ false = le→ltb h.closes in
    rw (same, h.open_on, opens, closes) refl

-- What `_validate_booking_window` answers for a window that passes.
abbrev pub window_answer : Db → ResourceContext → ℕ → ℕ → ℕ × ℕ × Bool
window_answer db c start_time end_time =
    (duration_minutes start_time end_time, 0, rule_requires_payment (resolve_booking_rule db c))

pub validate-IsAllowed :
    (zones : ZoneInfo) (now : ℕ) (db : Db) (c : ResourceContext) (st en : ℕ) {w : ℕ × ℕ × Bool}
    → validate_booking_window zones now db c st en ≡ ok w
    → IsAllowed zones now db c st en
unfolding validate_booking_window
validate-IsAllowed zones now db c st en e0 =
    let (u1, order, e1) = >>=-eq-ok (check_order now st en) _ e0 in
    let (u2, ruled, e2) = >>=-eq-ok (check_rule now st en (resolve_booking_rule db c)) _ e1 in
    let (zone, known, e3) = or_raise-eq-ok (zones c.timezone) _ _ e2 in
    let (u3, within, e4) = >>=-eq-ok (check_hours db c zone st en) _ e3 in
    let (before, future) = check_order-lt now st en order in
    record {
      before = before;
      future = future;
      by_rule = check_rule-RuleAllows now st en (resolve_booking_rule db c) ruled;
      zone = zone;
      known = known;
      is_open = check_hours-IsOpenFor db c zone st en within;
    }

pub IsAllowed-validate :
    (zones : ZoneInfo) (now : ℕ) (db : Db) (c : ResourceContext) (st en : ℕ)
    → IsAllowed zones now db c st en
    → validate_booking_window zones now db c st en ≡ ok (window_answer db c st en)
unfolding validate_booking_window
IsAllowed-validate zones now db c st en h =
    rw
      (
        lt-check_order now st en h.before h.future,
        RuleAllows-check_rule now st en (resolve_booking_rule db c) h.by_rule,
        h.known,
        IsOpenFor-check_hours db c h.zone st en h.is_open,
      )
      refl

-- `validate_booking_window` accepts a window, and then with its length, the price 0 and the rule's
-- wish for a payment, if and only if it lies in the future, ends after it starts, obeys the rule
-- where there is one, and falls on one local day between its opening and its closing.
pub validate_booking_window-IsAllowed :
    (zones : ZoneInfo) (now : ℕ) (db : Db) (c : ResourceContext) (start_time end_time : ℕ)
    → (validate_booking_window zones now db c start_time end_time
        ≡ ok (window_answer db c start_time end_time))
      ↔ IsAllowed zones now db c start_time end_time
validate_booking_window-IsAllowed zones now db c st en =
    (validate-IsAllowed zones now db c st en, IsAllowed-validate zones now db c st en)
