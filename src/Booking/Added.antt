-- ===== src/Booking/Added.antt =====
-- app/services/booking.py, `create_booking`: the row that it adds, told from the request.
use desmobapp_backend.Prelude.{
  ℕ, ◌≡◌, refl, sym, ◌∙◌, ap, subst, Bool, true, false, Option, none, some, [], ◌∷◌, ◌++◌, ok, any,
  ◌==◌, >>=-eq-ok, ok-injective, any-false,
}
use desmobapp_backend.Db.{Db, Uuid, Hold, Booking, BookingRule, BookingStatus, confirmed}
use desmobapp_backend.Time.{ZoneInfo, Env, ensure_utc}
use desmobapp_backend.Availability.{ResourceContext, resolve_resource, resolve_booking_rule}
use desmobapp_backend.Booking.Window.{rule_requires_payment}
use desmobapp_backend.Booking.Allowed.{
  IsAllowed, validate-IsAllowed, IsAllowed-validate, window_answer,
}
use desmobapp_backend.Booking.HoldCheck.{validate_hold}
use desmobapp_backend.Booking.Create.{
  BookingCreateRequest, create_booking, named_hold, hold_id_of, initial_status, booking_row,
}
use desmobapp_backend.Booking.Created.{Committed, create_booking-Placed}
use desmobapp_backend.Booking.Converted.{validate_hold-IsUsable}
use desmobapp_backend.Booking.Homed.{SameSpace, SameLedgers}
use desmobapp_backend.Booking.Refines.{loaded-IsFree, check_conflicts-bookings}
use desmobapp_backend.Booking.Spec.{IsFree}

-- The status a booking has under a rule, where there is one: pending as long as the rule asks for a
-- payment.
pub data StatusByRule (rule : Option BookingRule) (s : BookingStatus) : Type 0 where
  without_rule : rule ≡ none → s ≡ confirmed → StatusByRule rule s
  to_pay :
      (r : BookingRule)
      → rule ≡ some r
      → r.requires_payment ≡ true
      → s ≡ BookingStatus.pending
      → StatusByRule rule s
  nothing_to_pay :
      (r : BookingRule)
      → rule ≡ some r
      → r.requires_payment ≡ false
      → s ≡ confirmed
      → StatusByRule rule s

status_of_payment :
    (r : BookingRule) (pays : Bool)
    → r.requires_payment ≡ pays
    → StatusByRule (some r) (initial_status pays)
status_of_payment r true e = to_pay r refl e refl
status_of_payment r false e = nothing_to_pay r refl e refl

pub initial_status-ByRule :
    (rule : Option BookingRule) → StatusByRule rule (initial_status (rule_requires_payment rule))
initial_status-ByRule none = without_rule refl refl
initial_status-ByRule (some r) = status_of_payment r r.requires_payment refl

pub record Added (zones : ZoneInfo) (env : Env) (user_id : Uuid) (payload : BookingCreateRequest)
    (db : Db) (b : Booking) (db' : Db) : Type 0 where
  -- The row is for the caller, and for the place and the window of the request.
  pub context : ResourceContext
  pub resolved :
      resolve_resource db payload.level payload.seat_id payload.room_id payload.venue_id
      ≡ ok context
  pub same_user : b.user_id ≡ user_id
  pub same_level : b.level ≡ context.level
  pub same_venue : b.venue_id ≡ some context.venue_id
  pub same_room : b.room_id ≡ context.room_id
  pub same_seat : b.seat_id ≡ context.seat_id
  pub starts : ensure_utc payload.start_time ≡ ok b.start_time
  pub ends : ensure_utc payload.end_time ≡ ok b.end_time
  pub same_hold : b.hold_id ≡ payload.hold_id
  pub allowed : IsAllowed zones env.window_now db context b.start_time b.end_time
  -- It begins its life as the rule has it.
  pub status : StatusByRule (resolve_booking_rule db context) b.status
  pub free_of_charge : b.price_amount_cents ≡ 0
  pub not_cancelled : b.cancelled_at ≡ none
  -- It is the one new row, and shares no instant with a blocking booking of its venue.
  pub unused : any (λ r. r.id == b.id) db.bookings ≡ false
  pub free : IsFree b.id b.start_time b.end_time b.venue_id db.bookings
  pub bookings_after : db'.bookings ≡ db.bookings ++ b ∷ []
  pub space : SameSpace db db'
  pub ledgers : SameLedgers db db'

named_hold-id :
    (now : ℕ) (db : Db) (o : Option Uuid) (user_id : Uuid) (st en : ℕ) (c : ResourceContext)
    {hold : Option Hold}
    → named_hold now db o user_id st en c ≡ ok hold
    → hold_id_of hold ≡ o
unfolding named_hold
named_hold-id now db none user_id st en c e = ap hold_id_of (sym (ok-injective e))
named_hold-id now db (some i) user_id st en c e0 =
    let (h, valid, e1) = >>=-eq-ok (validate_hold now db i user_id st en c) _ e0 in
    ap hold_id_of (sym (ok-injective e1))
    ∙ ap some (validate_hold-IsUsable now db i user_id st en c valid).named

-- A `create_booking` that returns adds one row and no other, with an unused identifier, for the caller
-- and for the place, the hold and the window of the request, which the place allows; no blocking booking
-- of its venue shares an instant with it. It is pending if the rule of the place asks for a payment,
-- otherwise confirmed. Places, check-ins and transactions stay as they were.
pub create_booking-Added :
    (zones : ZoneInfo) (env : Env) (user_id : Uuid) (payload : BookingCreateRequest) (db : Db)
    {b : Booking} {db' : Db}
    → create_booking zones env user_id payload db ≡ ok (b, db')
    → Added zones env user_id payload db b db'
unfolding booking_row
create_booking-Added zones env user_id payload db {b} {db'} e =
    let (st, en, c, starts, ends, resolved, p) =
      create_booking-Placed zones env user_id payload db e in
    let made = booking_row env user_id p.hold c st en p.window.1 p.window.2 in
    let allowed = validate-IsAllowed zones env.window_now db c st en p.validated in
    let answer : p.window ≡ window_answer db c st en =
      ok-injective (sym p.validated ∙ IsAllowed-validate zones env.window_now db c st en allowed) in
    let k = subst (λ x. Committed p.hold db x db') p.row p.committed in
    subst (λ x. Added zones env user_id payload db x db') (sym p.row)
      (record {
        context = c;
        resolved = resolved;
        same_user = refl;
        same_level = refl;
        same_venue = refl;
        same_room = refl;
        same_seat = refl;
        starts = starts;
        ends = ends;
        same_hold = named_hold-id env.hold_now db payload.hold_id user_id st en c p.held;
        allowed = allowed;
        status =
            subst (λ pays. StatusByRule (resolve_booking_rule db c) (initial_status pays))
              (sym (ap (λ (w : ℕ × ℕ × Bool). w.2) answer))
              (initial_status-ByRule (resolve_booking_rule db c));
        free_of_charge = ap (λ (w : ℕ × ℕ × Bool). w.1) answer;
        not_cancelled = refl;
        unused = k.unused;
        free =
            loaded-IsFree env.conflicts_now env.new_id db c st en p.bookings p.holds p.loaded
              (λ x m ne.
                any-false _ p.bookings (check_conflicts-bookings p.bookings _ st en p.clear) m);
        bookings_after = k.bookings_after;
        space = k.space;
        ledgers = k.ledgers;
      })
