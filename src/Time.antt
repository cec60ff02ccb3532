-- ===== src/Time.antt =====
-- Dates and times, and what a request takes from its surroundings.
-- An instant and a wall-clock time are microseconds since 0001-01-01T00:00, the first in UTC. What
-- Python refuses at the ends of its range (years below 1 and above 9999) is outside the model.
use desmobapp_backend.Prelude.{
  ℕ, ◌+◌, ◌-◌, ◌*◌, ◌/◌, ◌%◌, String, Option, Result, ok, err, availability_validation, tz_missing,
  zone_not_found, or_raise,
}
use desmobapp_backend.Db.{Uuid}

abbrev pub minute : ℕ
minute = 60_000_000

abbrev pub second : ℕ
second = 1_000_000

abbrev pub day : ℕ
day = 86_400_000_000

-- `datetime.date()`, as days since 0001-01-01.
abbrev pub date_of : ℕ → ℕ
date_of wall = wall / day

-- `date.weekday()`: 0001-01-01 was a Monday.
abbrev pub weekday : ℕ → ℕ
weekday date = date % 7

-- `datetime.combine(date, time)`
abbrev pub combine : ℕ → ℕ → ℕ
combine date time = date * day + time

pub data Utcoffset : Type 0 where
  ahead behind : ℕ → Utcoffset

-- A `datetime` of a request body, with or without an offset.
pub data Datetime : Type 0 where
  naive : ℕ → Datetime
  aware : ℕ → Utcoffset → Datetime

-- `_ensure_utc`, of booking.py and hold.py alike.
unfoldable pub ensure_utc : Datetime → Result ℕ
ensure_utc (naive wall) = err (availability_validation tz_missing)
ensure_utc (aware wall (ahead offset)) = ok (wall - offset)
ensure_utc (aware wall (behind offset)) = ok (wall + offset)

-- `int((end - start).total_seconds() // 60)`, where `start` is before `end`.
abbrev pub duration_minutes : ℕ → ℕ → ℕ
duration_minutes start_time end_time = (end_time - start_time) / minute

-- A time zone of the tz database: an instant's wall clock, and a wall clock's instant (fold 0).
pub record Zone : Type 0 where
  pub from_utc : ℕ → ℕ
  pub to_utc : ℕ → ℕ

-- `ZoneInfo(key)`: the zones come with the system, and a key may be unknown.
abbrev pub ZoneInfo : Type 0
ZoneInfo = String → Option Zone

abbrev pub load_zone : ZoneInfo → String → Result Zone
load_zone zones key = or_raise (zones key) zone_not_found

-- What a request reads while it runs. The handlers read the clock several times, `datetime.now(UTC)`
-- at each place: the checks of the window and of the hold, the query for conflicts, the handler's
-- own `now`, the notification. `db_now` is the time of the database's transaction, the last two are
-- the identifiers that `uuid4()` gives the new row and its notification.
pub record Env : Type 0 where
  pub window_now : ℕ
  pub hold_now : ℕ
  pub conflicts_now : ℕ
  pub own_now : ℕ
  pub notify_now : ℕ
  pub db_now : ℕ
  pub new_id : Uuid
  pub external_id : Uuid
  pub notification_id : Uuid
