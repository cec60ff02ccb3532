-- ===== src/Db/Inserts.antt =====
-- What an INSERT that succeeds has done.
use desmobapp_backend.Prelude.{
  ◌≡◌, sym, false, ◌||◌, [], ◌∷◌, ◌++◌, ok, any, ◌==◌, raise_if-eq-ok, ok-injective,
}
use desmobapp_backend.Db.Rows.{Hold, Booking, Checkin, Transaction, Notification}
use desmobapp_backend.Db.Store.{
  Db, insert_hold, insert_booking, insert_checkin, insert_transaction, insert_notification,
}

pub insert_hold-eq-ok :
    (h : Hold) (db : Db) {db' : Db}
    → insert_hold h db ≡ ok db'
    → (any (λ r. r.id == h.id) db.holds ≡ false) × (db' ≡ record db { holds = db.holds ++ h ∷ [] })
unfolding insert_hold
insert_hold-eq-ok h db e =
    let (unused, k) = raise_if-eq-ok (any (λ r. r.id == h.id) db.holds) _ _ e in
    (unused, sym (ok-injective k))

pub insert_booking-eq-ok :
    (b : Booking) (db : Db) {db' : Db}
    → insert_booking b db ≡ ok db'
    → (any (λ r. r.id == b.id) db.bookings ≡ false)
      × (db' ≡ record db { bookings = db.bookings ++ b ∷ [] })
unfolding insert_booking
insert_booking-eq-ok b db e =
    let (unused, k) = raise_if-eq-ok (any (λ r. r.id == b.id) db.bookings) _ _ e in
    (unused, sym (ok-injective k))

pub insert_checkin-eq-ok :
    (c : Checkin) (db : Db) {db' : Db}
    → insert_checkin c db ≡ ok db'
    → (any (λ r. r.id == c.id || r.booking_id == c.booking_id) db.checkins ≡ false)
      × (db' ≡ record db { checkins = db.checkins ++ c ∷ [] })
unfolding insert_checkin
insert_checkin-eq-ok c db e =
    let (unused, k) =
      raise_if-eq-ok (any (λ r. r.id == c.id || r.booking_id == c.booking_id) db.checkins) _ _ e in
    (unused, sym (ok-injective k))

pub insert_transaction-eq-ok :
    (t : Transaction) (db : Db) {db' : Db}
    → insert_transaction t db ≡ ok db'
    → (any (λ r. r.id == t.id || r.external_id == t.external_id) db.transactions ≡ false)
      × (db' ≡ record db { transactions = db.transactions ++ t ∷ [] })
unfolding insert_transaction
insert_transaction-eq-ok t db e =
    let (unused, k) =
      raise_if-eq-ok (any (λ r. r.id == t.id || r.external_id == t.external_id) db.transactions) _ _
        e in
    (unused, sym (ok-injective k))

pub insert_notification-eq-ok :
    (n : Notification) (db : Db) {db' : Db}
    → insert_notification n db ≡ ok db'
    → db' ≡ record db { notifications = db.notifications ++ n ∷ [] }
unfolding insert_notification
insert_notification-eq-ok n db e =
    let (unused, k) = raise_if-eq-ok (any (λ r. r.id == n.id) db.notifications) _ _ e in
    sym (ok-injective k)
