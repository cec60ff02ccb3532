-- ===== src/Tests/Slots.antt =====
-- The slots of the other desk on the day on which the first is booked from minute 600 to minute 660.
use desmobapp_backend.Prelude.{◌*◌, ◌≡◌, refl, some, none, [], ◌∷◌, true, ok, any, arith}
use desmobapp_backend.Db.{seat}
use desmobapp_backend.Time.{minute, combine}
use desmobapp_backend.Availability.{
  AvailabilityResponse, load_conflicts, default_close_time, slot_at, is_blocked, open_day,
}
use desmobapp_backend.Availability.Sliced.{Sliced, open_day-Sliced}
use desmobapp_backend.Availability.Free.{IsOffered, available-IsOffered}
use desmobapp_backend.Tests.Samples.{zones, utc, booked_db, desk_row, at_minute}
use desmobapp_backend.Tests.Bookings.{two_requests_db}
use desmobapp_backend.Tests.Refusals.{other_context, other_resolved}

open_day-Sliced_example :
    (response : AvailabilityResponse) × (open_day zones 0 booked_db other_context 1 60 0
        default_close_time
      ≡ ok response)
    × Sliced 0 booked_db utc other_context 1 60 0 default_close_time response
open_day-Sliced_example =
    open_day-Sliced zones utc 0 booked_db seat (some 4) none none other_context 1 60 0
      default_close_time other_resolved refl (omega arith)

day_loaded :
    load_conflicts 0 booked_db other_context (combine 1 0) (combine 1 default_close_time)
    ≡ ok (desk_row ∷ [], [])
unfolding two_requests_db
day_loaded = refl

morning_free :
    (slot_at utc other_context (desk_row ∷ []) [] (60 * minute) (at_minute 540)).available ≡ true
unfolding slot_at is_blocked any
morning_free = refl

available-IsOffered_example :
    IsOffered 0 booked_db other_context
      (slot_at utc other_context (desk_row ∷ []) [] (60 * minute) (at_minute 540))
available-IsOffered_example =
    available-IsOffered utc 0 booked_db other_context (combine 1 0) (combine 1 default_close_time)
      (desk_row ∷ []) [] (60 * minute) (at_minute 540) day_loaded (omega arith) (omega arith)
      morning_free
