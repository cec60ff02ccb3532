-- ===== src/Booking/Query.antt =====
-- app/services/booking.py, `get_booking`, `list_bookings` and `list_booking_history`.
use desmobapp_backend.Prelude.{
  ℕ, ◌+◌, ◌*◌, Bool, true, false, ◌&&◌, ◌||◌, Option, none, some, Result, or_raise, find_first,
  filter_by, ltb, leb, ◌==◌, booking_not_found, booking_missing,
}
use desmobapp_backend.Db.{Db, Uuid, BookingStatus, status_eq, no_show, completed, Booking}
use desmobapp_backend.Time.{day}
use desmobapp_backend.Listing.{ListResponse, list_response}

-- `select(Booking).where(Booking.id == booking_id, Booking.user_id == current_user.id)`
abbrev pub own_booking : Uuid → Uuid → Booking → Bool
own_booking booking_id user_id b = b.id == booking_id && b.user_id == user_id

unfoldable pub find_booking : Db → Uuid → Uuid → Result Booking
find_booking db booking_id user_id =
    or_raise (find_first (own_booking booking_id user_id) db.bookings)
      (booking_not_found booking_missing)

-- `get_booking`
unfoldable pub get_booking : Uuid → Uuid → Db → Result Booking
unfolding find_booking
get_booking booking_id user_id db = find_booking db booking_id user_id

-- `order_by(Booking.start_time.desc())`
abbrev pub starts_later : Booking → Booking → Bool
starts_later a b = leb b.start_time a.start_time

abbrev pub BookingListResponse : Type 0
BookingListResponse = ListResponse Booking

abbrev pub status_matches : Option BookingStatus → Booking → Bool
status_matches none b = true
status_matches (some s) b = status_eq b.status s

-- `Booking.start_time >= datetime.combine(date_from, time.min, tzinfo=UTC)`
abbrev pub starts_from : Option ℕ → Booking → Bool
starts_from none b = true
starts_from (some date) b = leb (date * day) b.start_time

-- `Booking.start_time < datetime.combine(date_to + timedelta(days=1), time.min, tzinfo=UTC)`
abbrev pub starts_to : Option ℕ → Booking → Bool
starts_to none b = true
starts_to (some date) b = ltb b.start_time ((date + 1) * day)

abbrev pub listed : Uuid → Option BookingStatus → Option ℕ → Option ℕ → Booking → Bool
listed user_id status date_from date_to b =
    b.user_id == user_id
    && status_matches status b
    && starts_from date_from b
    && starts_to date_to b

-- `list_bookings`
unfoldable pub list_bookings :
    Uuid → Option BookingStatus → Option ℕ → Option ℕ → ℕ → ℕ → Db → BookingListResponse
unfolding list_response
list_bookings user_id status date_from date_to page limit db =
    list_response starts_later page limit
      (filter_by (listed user_id status date_from date_to) db.bookings)

-- `Booking.status.in_([CANCELLED, COMPLETED, NO_SHOW])`
abbrev pub is_closed : BookingStatus → Bool
is_closed BookingStatus.cancelled = true
is_closed completed = true
is_closed no_show = true
is_closed _ = false

abbrev pub in_history : ℕ → Uuid → Booking → Bool
in_history now user_id b = b.user_id == user_id && (ltb b.end_time now || is_closed b.status)

-- `list_booking_history`
unfoldable pub list_booking_history : ℕ → Uuid → ℕ → ℕ → Db → BookingListResponse
unfolding list_response
list_booking_history now user_id page limit db =
    list_response starts_later page limit (filter_by (in_history now user_id) db.bookings)
