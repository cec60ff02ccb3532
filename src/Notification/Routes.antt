-- ===== src/Notification/Routes.antt =====
-- app/api/routes/notifications.py. No route handles an exception of its service.
use desmobapp_backend.Prelude.{ℕ, Option, String, Error}
use desmobapp_backend.Db.{Db, Uuid, Notification, NotificationDevice, NotificationStatus}
use desmobapp_backend.Time.{Env}
use desmobapp_backend.Api.{Response, success, answer, answer_message}
use desmobapp_backend.Listing.{ListResponse}
use desmobapp_backend.Notification.Preferences.{
  NotificationPrefsUpdate, NotificationPreferencesResponse, get_notification_preferences,
  update_notification_preferences,
}
use desmobapp_backend.Notification.Devices.{
  PushTokenCreateRequest, register_push_token, delete_push_token,
}
use desmobapp_backend.Notification.Inbox.{list_notifications}

abbrev unhandled_code : Error → ℕ
unhandled_code _ = 500

unfoldable pub get_notification_preferences_endpoint :
    Uuid → Db → Response NotificationPreferencesResponse
get_notification_preferences_endpoint user_id db =
    success 200 (get_notification_preferences user_id db)

unfoldable pub update_notification_preferences_endpoint :
    Env → Uuid → NotificationPrefsUpdate → Db → Response String × Db
update_notification_preferences_endpoint env user_id payload db =
    answer_message "Настройки уведомлений обновлены" unhandled_code db
      (update_notification_preferences env user_id payload db)

unfoldable pub list_notifications_endpoint :
    Uuid → Option NotificationStatus → ℕ → ℕ → Db → Response (ListResponse Notification)
list_notifications_endpoint user_id status page limit db =
    success 200 (list_notifications user_id status page limit db)

unfoldable pub register_push_token_endpoint :
    Env → Uuid → PushTokenCreateRequest → Db → Response NotificationDevice × Db
register_push_token_endpoint env user_id payload db =
    answer 201 unhandled_code db (register_push_token env user_id payload db)

unfoldable pub delete_push_token_endpoint : Uuid → Uuid → Db → Response (Unit {0}) × Db
delete_push_token_endpoint user_id device_id db =
    (success 204 tt, delete_push_token user_id device_id db)
