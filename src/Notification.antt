-- ===== src/Notification.antt =====
-- app/services/notification.py, `create_notification_record`: the record that a handler leaves
-- behind of what it did. Nothing is sent: a record is marked as sent when it is made.
pub mod Preferences
pub mod Devices
pub mod Inbox
pub mod Kept
pub mod Owners
pub mod Tokens
pub mod Routes
use desmobapp_backend.Prelude.{some, String, Result, ok, ◌≡◌, [], ◌∷◌, ◌++◌}
use desmobapp_backend.Db.{
  Db, Uuid, NotificationChannel, push, sent, Notification, Payload, insert_notification,
  insert_notification-eq-ok,
}
use desmobapp_backend.Time.{Env}

abbrev pub notification_row : Env → NotificationChannel → Uuid → String → Payload → Notification
notification_row env channel user_id template_code payload = record {
  id = env.notification_id;
  user_id = user_id;
  channel = channel;
  template_code = template_code;
  payload = some payload;
  status = sent;
  scheduled_at = env.notify_now;
  sent_at = some env.notify_now;
  created_at = env.notify_now;
}

-- `create_notification_record` with its `channel`.
unfoldable pub notify_by : NotificationChannel → Env → Uuid → String → Payload → Db → Result Db
unfolding insert_notification
notify_by channel env user_id template_code payload =
    insert_notification (notification_row env channel user_id template_code payload)

-- `create_notification_record` with the channel left at its default.
unfoldable pub create_notification_record : Env → Uuid → String → Payload → Db → Result Db
unfolding notify_by
create_notification_record = notify_by push

-- A record that is made is the last of the table, and nothing else changes.
pub create_notification_record-eq-ok :
    (env : Env) (user_id : Uuid) (template_code : String) (payload : Payload) (db : Db) {db' : Db}
    → create_notification_record env user_id template_code payload db ≡ ok db'
    → db' ≡ record db {
      notifications =
          db.notifications ++ notification_row env push user_id template_code payload ∷ [];
    }
unfolding create_notification_record
create_notification_record-eq-ok env user_id template_code payload db e =
    insert_notification-eq-ok (notification_row env push user_id template_code payload) db e
