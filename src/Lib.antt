-- ===== src/Lib.antt =====
-- The booking backend for coworking spaces (app/, Python with FastAPI and SQLAlchemy): what its
-- services compute and write, and what they keep true of the database.
--
-- The parts of the program and the files that model them:
--   app/db/enums.py, app/db/models/   Db: Db/Enums, Db/Space, Db/Rows hold the enumerations and the
--     rows, Db/Store the tables together and the INSERTs with the unique constraints they meet, and
--     Db/Inserts the lemmas about them.
--   app/services/availability.py      Availability: Availability/Resource (`_resolve_resource`,
--     `_resolve_booking_rule`, `_resolve_operating_hours`), Availability/Conflicts (`_overlaps`,
--     `_load_conflicts`), Availability/Slots (`get_availability`). Availability/Complete,
--     Availability/Total and Availability/Elsewhere are about `_load_conflicts`, Availability/Sliced and
--     Availability/Free about the slots.
--   app/services/booking.py           Booking: Booking/Window (`_validate_booking_window`),
--     Booking/HoldCheck (`_validate_hold`), Booking/Create (`create_booking`), Booking/Query
--     (`get_booking`, `list_bookings`, `list_booking_history`, over Listing: the order of rows and the
--     cut of a page), Booking/Change (`reschedule_booking`,
--     `repeat_booking`, `cancel_booking`). Booking/Spec is a specification of the table of bookings
--     as a step relation, written without the code, and Booking/Spec/Safe its invariant;
--     Booking/Created, Booking/Refines, Booking/Changed, Booking/Settled and Booking/Homed relate the
--     code to it. Booking/Added, Booking/Rescheduled and Booking/Cancelled say what each request does to
--     the table, field by field. Booking/Allowed is about the window of a request, Booking/Converted
--     about holds, Booking/Pages about the lists, Booking/Accepted and Booking/Refused about the
--     requests that are granted and turned down.
--   app/services/hold.py              Hold, Hold/Effect.
--   app/services/payment.py           Payment, Payment/Effect, Payment/Change, Payment/Refund.
--   app/services/checkin.py           CheckIn, CheckIn/Effect.
--   app/services/notification.py, app/api/routes/notifications.py
--     Notification: `create_notification_record`, Notification/Preferences, Notification/Devices,
--     Notification/Inbox and Notification/Routes; Notification/Kept is about preferences and the
--     inbox, Notification/Owners and Notification/Tokens about whose device a push token is.
--   app/services/auth.py, app/api/routes/auth.py, app/api/routes/profile.py
--     Auth: Auth/Tables (the tables of users, sessions and resets), Auth/Sessions (`login_user`,
--     `refresh_user_session`, `logout_user_session`), Auth/Users (`register_user` and the profile),
--     Auth/Reset (`request_password_reset`, `reset_password`), Auth/Routes with `run_auth`, a history
--     of requests. Auth/Ages says what time may do to a table of tokens, without the services;
--     Auth/Inserted, Auth/Aged and Auth/Served relate the code to it. Auth/Once, Auth/Replaced,
--     Auth/Login, Auth/Reentry and Auth/Answers are about tokens, logins and answers.
--   app/services/space.py, app/services/favorite.py, app/api/routes/space.py and favorites.py
--     Space: Space/Codes (`_feature_code`), Space/Features (`_get_feature_map`), Space/Search
--     (`list_venues`), Space/Views (the other reads), Space/Admin (`create_venue`), Space/Layout
--     (`update_room_layout`; in which order a flush sends its writes is a parameter), Space/Favorites,
--     Space/Routes; Space/Linked and Space/Matches are about the search, Space/Marked about favorites,
--     Space/Laid, Space/Seated, Space/Taken and Space/Updated about layouts.
--   app/services/analytics.py, app/api/routes/analytics.py  Analytics, Analytics/Bounded.
--   app/api/routes/, app/api/errors.py  Api: the routes of bookings, holds, payments and availability
--     with their statuses, and `run`, a history of served requests. Api/Invariant states the invariant
--     of the whole database; Api/Preserve, Api/Ledgers and Api/Run are about its preservation,
--     Api/Seats about what it says of a seat.
--   app/core/permissions.py, app/services/rbac.py, app/core/security.py, app/api/dependencies/auth.py
--     Access: Access/Permissions has the table of roles, Access/Roles `get_user_permissions_context`,
--     Access/Seed `seed_roles_and_permissions` (Access/Seeded is about it), Access/Tokens `build_access_token`, `get_current_user` and `require_permissions`, Access/Texts the
--     comparison of texts and sorted sets; Access/Granted, Access/Required, Access/Current and
--     Access/Owner are about them. To read a token, `jwt.decode` with the validation of its claims, is
--     a parameter: a function from texts, about which nothing is assumed but, where a theorem is about
--     an issued token, that this token is read back.
--
--   Prelude holds what they share: Boolean tests on numbers, lists, membership, and `Result`, an
--   exception as a value. Tests holds sample data, runs and examples.
--
-- How the code is read:
--   - A service function takes the tables and returns its answer and the new tables, or the exception
--     that it raises. It writes once it can no longer raise but by the database; a request that fails
--     leaves the tables as they were, since its session is closed without a commit, but for
--     `refresh_user_session`, which commits the end of an expired session before it raises. A response is
--     represented by the row that it shows.
--   - Requests are served one after the other. What two sessions do to each other between a query and
--     a commit is not modelled.
--   - A UUID is a number that is only compared. An instant or a wall-clock time is the number of
--     microseconds since 0001-01-01T00:00, and a date the number of days; the ends of Python's range of
--     dates are not modelled. A coordinate is opaque, a currency a list of code points with the
--     capitals of ASCII.
--   - The clock is read several times within a request, so `Env` has one reading for each place, and
--     the identifiers that the request draws. Nothing relates them.
--   - The tz database is not part of the program: `ZoneInfo` is a parameter, a function from keys to
--     pairs of conversions, about which nothing is assumed.
--   - What the program asks of others is a parameter: the salted hash of a password and its check, the
--     hash of a token, the signing of an access token (`Platform`), the letters of Python and the
--     database (`Letters`). Nothing is assumed of them but, where a theorem says so, that the check
--     of a password accepts what the hash was made of.
--   - Where a query leaves the order of its rows open, they come in the order of the table.
--   - A number that exceeds an `Integer` column and a violated unique constraint are exceptions. The
--     foreign keys are not modelled: but for `create_venue` and `update_room_layout` no row of a place
--     is written.
--   - The loop of `get_availability` runs on fuel, one more than the number of slots that fit between
--     opening and closing; the length of a slot is at least 15 minutes.
--
-- Not modelled: the scripts that seed tariffs and demonstration data, migrations, configuration and the
-- wiring of the framework. The routes are modelled behind the dependencies that guard them, which
-- Access has.
pub mod Prelude
pub mod Db
pub mod Time
pub mod Listing
pub mod Availability
pub mod Notification
pub mod Booking
pub mod Hold
pub mod Payment
pub mod CheckIn
pub mod Api
pub mod Auth
pub mod Space
pub mod Analytics
pub mod Access
pub mod Tests
