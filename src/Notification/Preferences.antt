-- ===== src/Notification/Preferences.antt =====
-- app/services/notification.py, `get_notification_preferences` and `update_notification_preferences`.
use desmobapp_backend.Prelude.{
  Bool, true, false, Option, none, some, List, [], ◌∷◌, ◌++◌, Result, ok, integrity_error, raise_if,
  ◌>>◌, any, find_first, update_where, ◌==◌,
}
use desmobapp_backend.Db.{Db, Uuid, NotificationPreference}
use desmobapp_backend.Time.{Env}

-- app/schemas/notification.py
pub record NotificationPrefsUpdate : Type 0 where
  pub email_notifications : Option Bool
  pub push_notifications : Option Bool
  pub reminder_before_booking : Option Bool
  pub promotional_emails : Option Bool

pub record NotificationPreferencesResponse : Type 0 where
  pub email_notifications : Bool
  pub push_notifications : Bool
  pub reminder_before_booking : Bool
  pub promotional_emails : Bool

abbrev pub preferences_response : NotificationPreference → NotificationPreferencesResponse
preferences_response p = record {
  email_notifications = p.email_notifications;
  push_notifications = p.push_notifications;
  reminder_before_booking = p.reminder_before_booking;
  promotional_emails = p.promotional_emails;
}

-- What a user without a row of preferences is told.
abbrev pub default_response : NotificationPreferencesResponse
default_response = record {
  email_notifications = true;
  push_notifications = true;
  reminder_before_booking = true;
  promotional_emails = false;
}

-- `session.get(NotificationPreference, current_user.id)`
abbrev pub find_preference : Uuid → List NotificationPreference → Option NotificationPreference
find_preference user_id = find_first (λ p. p.user_id == user_id)

-- What a user is told, with or without a row.
abbrev pub told : Option NotificationPreference → NotificationPreferencesResponse
told none = default_response
told (some p) = preferences_response p

-- `get_notification_preferences`
unfoldable pub get_notification_preferences : Uuid → Db → NotificationPreferencesResponse
get_notification_preferences user_id db = told (find_preference user_id db.preferences)

abbrev pub new_preference : Env → Uuid → NotificationPreference
new_preference env user_id = record {
  user_id = user_id;
  email_notifications = true;
  push_notifications = true;
  reminder_before_booking = true;
  promotional_emails = false;
  updated_at = env.own_now;
}

-- `if payload.x is not None: preference.x = payload.x`
abbrev pub or_current : Option Bool → Bool → Bool
or_current none old = old
or_current (some new) old = new

abbrev pub updated_preference :
    Env → NotificationPrefsUpdate → NotificationPreference → NotificationPreference
updated_preference env payload p = record p {
  email_notifications = or_current payload.email_notifications p.email_notifications;
  push_notifications = or_current payload.push_notifications p.push_notifications;
  reminder_before_booking = or_current payload.reminder_before_booking p.reminder_before_booking;
  promotional_emails = or_current payload.promotional_emails p.promotional_emails;
  updated_at = env.own_now;
}

-- The primary key of `notification_prefs` is the user.
unfoldable pub insert_preference : NotificationPreference → Db → Result Db
insert_preference p db = do
  raise_if (any (λ r. r.user_id == p.user_id) db.preferences) integrity_error
  ok (record db { preferences = db.preferences ++ p ∷ [] })

-- `update_notification_preferences`
unfoldable pub update_notification_preferences :
    Env → Uuid → NotificationPrefsUpdate → Db → Result Db
unfolding insert_preference
update_notification_preferences env user_id payload db =
    elim (find_preference user_id db.preferences) [
      | none ↦ insert_preference (updated_preference env payload (new_preference env user_id)) db
      | some p ↦ ok (record db {
        preferences =
            update_where (λ r. r.user_id == p.user_id) (updated_preference env payload)
              db.preferences;
      })
    ]
