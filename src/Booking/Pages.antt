-- ===== src/Booking/Pages.antt =====
-- app/services/booking.py, `list_bookings` and `list_booking_history`: what a page shows.
use desmobapp_backend.Prelude.{
  ◌+◌, ◌*◌, ◌⊎◌, some, ℕ, ◌<◌, ◌≤◌, ◌≡◌, true, Option, In, In-filter_by,
}
use desmobapp_backend.Db.{Db, Uuid, Booking, BookingStatus, completed, no_show}
use desmobapp_backend.Time.{day}
use desmobapp_backend.Listing.{list_response_complete}
use desmobapp_backend.Booking.Query.{starts_later, listed, list_bookings}

-- A booking that the filters of `list_bookings` ask for.
pub record IsListed (user_id : Uuid) (status : Option BookingStatus) (date_from date_to : Option ℕ)
    (b : Booking) : Type 0 where
  pub own : b.user_id ≡ user_id
  pub of_status : (s : BookingStatus) → status ≡ some s → b.status ≡ s
  pub from_date : (d : ℕ) → date_from ≡ some d → d * day ≤ b.start_time
  pub to_date : (d : ℕ) → date_to ≡ some d → b.start_time < (d + 1) * day

-- A booking of the past: it has ended, or it is closed.
pub record IsPast (now : ℕ) (user_id : Uuid) (b : Booking) : Type 0 where
  pub own : b.user_id ≡ user_id
  pub over :
      (b.end_time < now)
      ⊎ ((b.status ≡ BookingStatus.cancelled) ⊎ ((b.status ≡ completed) ⊎ (b.status ≡ no_show)))

-- Every booking of the user that the filters ask for is shown on some page of `list_bookings`, if
-- the pages are not empty by their limit.
list_bookings_complete :
    (user_id : Uuid) (status : Option BookingStatus) (date_from date_to : Option ℕ) (limit : ℕ)
    (db : Db) (b : Booking)
    → 0 < limit
    → In b db.bookings
    → listed user_id status date_from date_to b ≡ true
    → (page : ℕ) × (1 ≤ page)
      × In b (list_bookings user_id status date_from date_to page limit db).items
unfolding list_bookings
list_bookings_complete user_id status date_from date_to limit db b positive m wanted =
    list_response_complete starts_later limit _ positive
      (In-filter_by (listed user_id status date_from date_to) db.bookings m wanted)
