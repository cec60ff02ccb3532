-- ===== src/Db/Store.antt =====
-- The tables together, and the INSERTs of the rows that the services add. The primary key and the
-- unique column of `checkins` are checked where the database checks them.
use desmobapp_backend.Prelude.{
  ◌||◌, List, [], ◌∷◌, ◌++◌, Result, ok, integrity_error, raise_if, ◌>>◌, any, ◌==◌,
}
use desmobapp_backend.Db.Space.{
  Venue, Room, Seat, Feature, FeatureLink, RoomHour, Tariff, BookingRule, FavoriteVenue,
}
use desmobapp_backend.Db.Rows.{
  Hold, Booking, Checkin, Transaction, Notification, NotificationPreference, NotificationDevice,
}

pub record Db : Type 0 where
  pub venues : List Venue
  pub rooms : List Room
  pub seats : List Seat
  pub features : List Feature
  pub feature_links : List FeatureLink
  pub room_hours : List RoomHour
  pub tariffs : List Tariff
  pub booking_rules : List BookingRule
  pub holds : List Hold
  pub bookings : List Booking
  pub checkins : List Checkin
  pub transactions : List Transaction
  pub notifications : List Notification
  pub preferences : List NotificationPreference
  pub devices : List NotificationDevice
  pub favorites : List FavoriteVenue

unfoldable pub insert_hold : Hold → Db → Result Db
insert_hold h db = do
  raise_if (any (λ r. r.id == h.id) db.holds) integrity_error
  ok (record db { holds = db.holds ++ h ∷ [] })

unfoldable pub insert_booking : Booking → Db → Result Db
insert_booking b db = do
  raise_if (any (λ r. r.id == b.id) db.bookings) integrity_error
  ok (record db { bookings = db.bookings ++ b ∷ [] })

unfoldable pub insert_checkin : Checkin → Db → Result Db
insert_checkin c db = do
  raise_if (any (λ r. r.id == c.id || r.booking_id == c.booking_id) db.checkins) integrity_error
  ok (record db { checkins = db.checkins ++ c ∷ [] })

unfoldable pub insert_transaction : Transaction → Db → Result Db
insert_transaction t db = do
  raise_if (any (λ r. r.id == t.id || r.external_id == t.external_id) db.transactions)
      integrity_error
  ok (record db { transactions = db.transactions ++ t ∷ [] })

unfoldable pub insert_notification : Notification → Db → Result Db
insert_notification n db = do
  raise_if (any (λ r. r.id == n.id) db.notifications) integrity_error
  ok (record db { notifications = db.notifications ++ n ∷ [] })
