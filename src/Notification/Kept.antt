-- ===== src/Notification/Kept.antt =====
-- app/services/notification.py: what `get_notification_preferences` tells after an update, and what a
-- page of the inbox shows.
use desmobapp_backend.Prelude.{
  ℕ, ◌<◌, ◌≤◌, ◌≡◌, refl, sym, ◌∙◌, ap, subst, Bool, true, false, Option, none, some, ok, In,
  In-filter_by, find_first-In, find_first-absent, find_first-snoc, find_first-snoc_other,
  find_first-update_where, find_first-update_where_other, update_where, ◌==◌, ==→eq, ==_refl,
  Option-cases, inl, inr, if◌then◌else◌, arith, ◌++◌, [], ◌∷◌,
}
use desmobapp_backend.Db.{Db, Uuid, NotificationPreference, Notification, NotificationStatus}
use desmobapp_backend.Time.{Env}
use desmobapp_backend.Listing.{OrdersAll, IsPage, list_response-IsPage, list_response_complete}
use desmobapp_backend.Notification.Preferences.{
  NotificationPrefsUpdate, NotificationPreferencesResponse, told, find_preference,
  get_notification_preferences, new_preference, or_current, updated_preference, insert_preference,
  update_notification_preferences,
}
use desmobapp_backend.Notification.Inbox.{made_later, in_inbox, list_notifications}

-- A field after a request: the value that is given, or the one of before if none is given.
pub data Given (o : Option Bool) (old new : Bool) : Type 0 where
  given : o ≡ some new → Given o old new
  kept : o ≡ none → new ≡ old → Given o old new

or_current-Given : (o : Option Bool) (old : Bool) → Given o old (or_current o old)
or_current-Given none old = kept refl refl
or_current-Given (some b) old = given refl

-- All four fields.
pub record Merged (payload : NotificationPrefsUpdate) (old new : NotificationPreferencesResponse)
    : Type 0 where
  pub email : Given payload.email_notifications old.email_notifications new.email_notifications
  pub push : Given payload.push_notifications old.push_notifications new.push_notifications
  pub reminder :
      Given payload.reminder_before_booking old.reminder_before_booking new.reminder_before_booking
  pub promotional : Given payload.promotional_emails old.promotional_emails new.promotional_emails

abbrev merged :
    NotificationPrefsUpdate → NotificationPreferencesResponse → NotificationPreferencesResponse
merged payload old = record {
  email_notifications = or_current payload.email_notifications old.email_notifications;
  push_notifications = or_current payload.push_notifications old.push_notifications;
  reminder_before_booking = or_current payload.reminder_before_booking old.reminder_before_booking;
  promotional_emails = or_current payload.promotional_emails old.promotional_emails;
}

merged-Merged :
    (payload : NotificationPrefsUpdate) (old : NotificationPreferencesResponse)
    → Merged payload old (merged payload old)
merged-Merged payload old = record {
  email = or_current-Given payload.email_notifications old.email_notifications;
  push = or_current-Given payload.push_notifications old.push_notifications;
  reminder = or_current-Given payload.reminder_before_booking old.reminder_before_booking;
  promotional = or_current-Given payload.promotional_emails old.promotional_emails;
}

-- The row that an update leaves for the user, and for others.
pub record Updated (payload : NotificationPrefsUpdate) (user_id : Uuid) (db db' : Db) : Type 0 where
  pub own :
      Merged payload
        (get_notification_preferences user_id db)
        (get_notification_preferences user_id db')
  pub others :
      (v : Uuid)
      → (v == user_id) ≡ false
      → get_notification_preferences v db' ≡ get_notification_preferences v db

told-Updated :
    (payload : NotificationPrefsUpdate) (user_id : Uuid) (db db' : Db)
    → told (find_preference user_id db'.preferences)
      ≡ merged payload (told (find_preference user_id db.preferences))
    → ((v : Uuid)
        → (v == user_id) ≡ false
        → find_preference v db'.preferences ≡ find_preference v db.preferences)
    → Updated payload user_id db db'
unfolding get_notification_preferences
told-Updated payload user_id db db' own others = record {
  own =
      subst (Merged payload (told (find_preference user_id db.preferences))) (sym own)
        (merged-Merged payload (told (find_preference user_id db.preferences)));
  others = λ v e. ap told (others v e);
}

other_user : (i u v : ℕ) → (i == u) ≡ true → (v == u) ≡ false → (i == v) ≡ false
other_user i u v e ne = ground arith

-- An update of the preferences returns. From then on the user is told the given fields and the old
-- ones where none is given, whether the user had a row or the defaults, and every other
-- user is told the same as before.
pub update_notification_preferences-Updated :
    (env : Env) (user_id : Uuid) (payload : NotificationPrefsUpdate) (db : Db)
    → (db' : Db) × (update_notification_preferences env user_id payload db ≡ ok db')
      × Updated payload user_id db db'
unfolding update_notification_preferences insert_preference
update_notification_preferences-Updated env user_id payload db =
    elim (Option-cases (find_preference user_id db.preferences)) [
      | inl absent ↦
          let row = updated_preference env payload (new_preference env user_id) in
          let unused = find_first-absent (λ p. p.user_id == user_id) db.preferences absent in
          let db' : Db = record db { preferences = db.preferences ++ row ∷ [] } in
          (
            db',
            rw (absent, update_notification_preferences, unused) refl,
            told-Updated payload user_id db db'
                (ap told (
                    find_first-snoc (λ p. p.user_id == user_id) db.preferences row unused
                      (==_refl user_id))
                  ∙ ap (λ o. merged payload (told o)) (sym absent))
                (λ v ne.
                  find_first-snoc_other (λ p. p.user_id == v) db.preferences row
                    (other_user user_id user_id v (==_refl user_id) ne)),
          )
      | inr (p, found) ↦
          let f : NotificationPreference → NotificationPreference =
            updated_preference env payload in
          let (m, e) = find_first-In (λ p. p.user_id == user_id) db.preferences found in
          let db' : Db = record db {
            preferences = update_where (λ r. r.user_id == p.user_id) f db.preferences;
          } in
          let again : find_preference user_id db'.preferences ≡ some (f p) =
            subst (λ b. find_preference user_id db'.preferences ≡ some (if b then f p else p))
              (==_refl p.user_id)
              (find_first-update_where (λ p. p.user_id == user_id) (λ r. r.user_id == p.user_id) f
                (λ x. refl) db.preferences found) in
          (
            db',
            rw (found, update_notification_preferences) refl,
            told-Updated payload user_id db db'
                (ap told again ∙ ap (λ o. merged payload (told o)) (sym found))
                (λ v ne.
                  find_first-update_where_other (λ p. p.user_id == v) (λ r. r.user_id == p.user_id)
                    f
                    (λ x hit.
                      let own : (x.user_id == user_id) ≡ true =
                        subst (λ i. (x.user_id == i) ≡ true) (==→eq p.user_id user_id e) hit in
                      (
                        other_user x.user_id user_id v own ne,
                        other_user x.user_id user_id v own ne,
                      ))
                    db.preferences),
          )
    ]

made_later-OrdersAll : OrdersAll made_later
made_later-OrdersAll = record {
  total = λ x y h. ground arith;
  transitive = λ x y z h k. ground arith;
}

-- A page of `list_notifications` shows notifications of the user, with the status asked for, the latest
-- first and no more than its limit, and counts all such; and every such notification is
-- on some page, if the pages are not empty by their limit.
list_notifications-IsPage :
    (user_id : Uuid) (status : Option NotificationStatus) (limit : ℕ) (db : Db)
    → ((page : ℕ)
        → IsPage made_later
            (in_inbox user_id status)
            db.notifications
            page
            limit
            (list_notifications user_id status page limit db))
      × ((n : Notification)
          → 0 < limit
          → In n db.notifications
          → in_inbox user_id status n ≡ true
          → (page : ℕ) × (1 ≤ page) × In n (list_notifications user_id status page limit db).items)
unfolding list_notifications
list_notifications-IsPage user_id status limit db = (
  λ page.
      list_response-IsPage made_later made_later-OrdersAll (in_inbox user_id status)
        db.notifications page limit,
  λ n positive m wanted.
      list_response_complete made_later limit _ positive
        (In-filter_by (in_inbox user_id status) db.notifications m wanted),
)
