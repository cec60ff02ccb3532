-- ===== src/Tests/Inbox.antt =====
-- User 9 and 8 share a phone, and set what they want to hear.
use desmobapp_backend.Prelude.{
  ◌≡◌, refl, true, false, none, some, String, [], ◌∷◌, ok, IsUnique, any, find_first, update_where,
  filter_by,
}
use desmobapp_backend.Db.{Db, Uuid, NotificationDevice}
use desmobapp_backend.Api.{success}
use desmobapp_backend.Access.Texts.{text_eq}
use desmobapp_backend.Listing.{list_response, order_by}
use desmobapp_backend.Notification.Preferences.{
  NotificationPrefsUpdate, get_notification_preferences, update_notification_preferences,
  insert_preference,
}
use desmobapp_backend.Notification.Devices.{
  PushTokenCreateRequest, device_clash, find_device, seen_device, register_push_token,
  delete_push_token,
}
use desmobapp_backend.Notification.Inbox.{list_notifications}
use desmobapp_backend.Notification.Kept.{Updated, update_notification_preferences-Updated}
use desmobapp_backend.Notification.Owners.{owner_of, owner_after}
use desmobapp_backend.Notification.Tokens.{owner_unless, push_token-owners}
use desmobapp_backend.Notification.Routes.{
  register_push_token_endpoint, delete_push_token_endpoint, get_notification_preferences_endpoint,
  update_notification_preferences_endpoint, list_notifications_endpoint,
}
use desmobapp_backend.Tests.Samples.{env, empty_db}

abbrev no_push : NotificationPrefsUpdate
no_push = record {
  email_notifications = none;
  push_notifications = some false;
  reminder_before_booking = none;
  promotional_emails = some true;
}

update_notification_preferences-Updated_example :
    (db : Db) × (update_notification_preferences (env 20) 9 no_push empty_db ≡ ok db)
    × Updated no_push 9 empty_db db
update_notification_preferences-Updated_example =
    update_notification_preferences-Updated (env 20) 9 no_push empty_db

abbrev phone : NotificationDevice
phone = record {
  id = 60;
  user_id = 8;
  platform = "ios";
  push_token = "token-phone";
  last_seen_at = 0;
}

abbrev phone_db : Db
phone_db = record empty_db { devices = phone ∷ [] }

abbrev phone_request : PushTokenCreateRequest
phone_request = record { platform = "ios"; push_token = "token-phone" }

phone-IsUnique : IsUnique device_clash phone_db.devices
unfolding any
phone-IsUnique = (refl, tt)

push_token-owners_example :
    ((payload : PushTokenCreateRequest) (d : NotificationDevice) (db : Db)
      → register_push_token (env 61) 9 payload phone_db ≡ ok (d, db)
      → IsUnique device_clash db.devices
        × ((push_token : String)
            → owner_of push_token db ≡ owner_after (env 61) 9 payload push_token phone_db))
    × ((device_id : Uuid)
        → IsUnique device_clash (delete_push_token 9 device_id phone_db).devices
          × ((push_token : String)
              → owner_of push_token (delete_push_token 9 device_id phone_db)
                ≡ owner_unless 9 device_id (find_device push_token phone_db.devices)))
push_token-owners_example = push_token-owners (env 61) 9 phone_db phone-IsUnique

-- The phone changes hands, and the former owner cannot remove it.
phone_taken : register_push_token_endpoint (env 61) 9 phone_request phone_db ≡ (
  success 201 (seen_device (env 61) 9 phone_request phone),
  record phone_db { devices = seen_device (env 61) 9 phone_request phone ∷ [] },
)
unfolding register_push_token_endpoint register_push_token find_first update_where text_eq
phone_taken = refl

phone_kept : (delete_push_token_endpoint 9 60 phone_db).1 ≡ phone_db
unfolding delete_push_token_endpoint delete_push_token find_first
phone_kept = refl

push_muted :
    (get_notification_preferences_endpoint 9
      (update_notification_preferences_endpoint (env 20) 9 no_push empty_db).1)
    ≡ success 200 (record {
      email_notifications = true;
      push_notifications = false;
      reminder_before_booking = true;
      promotional_emails = true;
    })
unfolding get_notification_preferences_endpoint update_notification_preferences_endpoint
    get_notification_preferences update_notification_preferences insert_preference find_first any
push_muted = refl

inbox_page :
    list_notifications_endpoint 9 none 1 20 empty_db
    ≡ success 200 (record { items = []; page = 1; limit = 20; total = 0 })
unfolding list_notifications_endpoint list_notifications list_response order_by filter_by
inbox_page = refl
