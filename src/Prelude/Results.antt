-- ===== src/Prelude/Results.antt =====
-- Exceptions as values: what a service function raises, and chains of fallible steps.
use mathlib.Core.Path.{◌≡◌, refl, subst, sym, ap}
use mathlib.Core.Bool.{Bool, true, false}
use mathlib.Core.Option.{Option, none, some}

-- The texts of the exceptions, one constructor for each.
pub data Reason : Type 0 where
  tz_missing : Reason
  end_not_after_start start_not_in_future : Reason
  below_min_duration above_max_duration beyond_max_advance : Reason
  not_one_day closed_on_date outside_hours : Reason
  hold_required hold_inactive hold_level_mismatch hold_mismatch : Reason
  only_seat_id only_room_id only_venue_id duration_below_15 : Reason
  not_reschedulable : Reason
  cancelled_not_paid not_capturable not_refundable invalid_refund : Reason
  cancelled_no_checkin already_checked_in geo_needs_position qr_needs_code : Reason
  seat_missing seat_broken room_missing room_broken venue_missing : Reason
  not_available on_hold : Reason
  booking_missing hold_missing payment_missing : Reason
  email_taken bad_credentials inactive_user : Reason
  dates_swapped bad_scope venue_id_required room_id_required rule_missing : Reason
  bad_refresh_token refresh_token_expired bad_reset_token : Reason

-- The exception classes of the services. The last four are raised below them: a failed `assert`, an
-- unknown time zone, a violated unique constraint, a number that the column cannot store.
pub data Error : Type 0 where
  availability_validation availability_not_found : Reason → Error
  booking_conflict booking_not_found : Reason → Error
  hold_conflict hold_not_found : Reason → Error
  payment_validation payment_not_found : Reason → Error
  checkin_validation checkin_not_found : Reason → Error
  auth_conflict auth_credentials auth_token auth_forbidden : Reason → Error
  space_not_found favorite_not_found value_error : Reason → Error
  assertion_error zone_not_found integrity_error data_error : Error

pub data Result {κ} (R : Type κ) : Type κ where
  err : Error → Result R
  ok : R → Result R

-- `if row is None: raise e`
abbrev pub or_raise {ℓ} : {A : Type ℓ} → Option A → Error → Result A
or_raise none e = err e
or_raise (some a) e = ok a

-- `if test: raise e`
abbrev pub raise_if : Bool → Error → Result (Unit {0})
raise_if true e = err e
raise_if false e = ok tt

-- What holds of the result, if there is one.
abbrev pub OnOk {ℓ} : {A : Type ℓ} → (A → Type 0) → Result A → Type 0
OnOk P (ok a) = P a
OnOk P (err e) = Unit

pub OnOk-apply {ℓ} :
    {A : Type ℓ} (P : A → Type 0) {r : Result A} {a : A} → OnOk P r → r ≡ ok a → P a
OnOk-apply P h e = subst (OnOk P) e h

infixl 5 ◌>>=◌ ◌>>◌
abbrev pub ◌>>=◌ {ℓ κ} : {R : Type ℓ} {S : Type κ} (m : Result R) → (R → Result S) → Result S
err e >>= next = err e
ok r >>= next = next r

pub ok-injective {ℓ} : {A : Type ℓ} {a b : A} → ok a ≡ ok b → a ≡ b
ok-injective h = cc

-- A step that is run for its refusals.
abbrev pub ◌>>◌ {κ} : {S : Type κ} (m : Result (Unit {0})) → Result S → Result S
m >> rest = m >>= λ done. rest

-- A chain that returns has returned at its first step.
pub >>=-eq-ok {ℓ κ} :
    {R : Type ℓ} {S : Type κ} (m : Result R) (next : R → Result S) {s : S}
    → (m >>= next) ≡ ok s
    → (r : R) × (m ≡ ok r) × (next r ≡ ok s)
>>=-eq-ok (err e) next h = cc
>>=-eq-ok (ok r) next h = (r, refl, h)

pub raise_if-eq-ok {ℓ} :
    {B : Type ℓ} (test : Bool) (e : Error) (k : Result B) {b : B}
    → (raise_if test e >> k) ≡ ok b
    → (test ≡ false) × (k ≡ ok b)
raise_if-eq-ok true e k h = cc
raise_if-eq-ok false e k h = (refl, h)

pub or_raise-eq-ok {ℓ κ} :
    {A : Type ℓ} {B : Type κ} (o : Option A) (e : Error) (f : A → Result B) {b : B}
    → (or_raise o e >>= f) ≡ ok b
    → (a : A) × (o ≡ some a) × (f a ≡ ok b)
or_raise-eq-ok none e f h = cc
or_raise-eq-ok (some a) e f h = (a, refl, h)

pub ok-pair {ℓ κ} :
    {A : Type ℓ} {B : Type κ} {a a' : A} {b b' : B}
    → ◌≡◌ {A = Result (A × B)} (ok (a, b)) (ok (a', b'))
    → (a' ≡ a) × (b' ≡ b)
ok-pair {A} {B} h =
    (sym (ap (λ (p : A × B). p.0) (ok-injective h)), sym (ap (λ (p : A × B). p.1) (ok-injective h)))

pub or_raise-some {ℓ} :
    {A : Type ℓ} (o : Option A) (e : Error) {a : A} → or_raise o e ≡ ok a → o ≡ some a
or_raise-some none e h = cc
or_raise-some (some a) e h = cc
