-- ===== src/Notification/Devices.antt =====
-- app/services/notification.py, `register_push_token` and `delete_push_token`.
use desmobapp_backend.Prelude.{
  Bool, not, ◌&&◌, ◌||◌, Option, none, some, String, List, [], ◌∷◌, ◌++◌, Result, ok,
  integrity_error, raise_if, ◌>>◌, ◌>>=◌, any, find_first, filter_by, update_where, ◌==◌,
}
use desmobapp_backend.Db.{Db, Uuid, NotificationDevice}
use desmobapp_backend.Time.{Env}
use desmobapp_backend.Access.Texts.{text_eq}

-- app/schemas/notification.py, which bounds the lengths of both texts.
pub record PushTokenCreateRequest : Type 0 where
  pub platform : String
  pub push_token : String

-- The primary key of `notification_devices` and `uq_notification_devices_push_token`.
abbrev pub device_clash : NotificationDevice → NotificationDevice → Bool
device_clash r d = r.id == d.id || text_eq r.push_token d.push_token

unfoldable pub insert_device : NotificationDevice → Db → Result Db
insert_device d db = do
  raise_if (any (λ r. device_clash r d) db.devices) integrity_error
  ok (record db { devices = db.devices ++ d ∷ [] })

abbrev pub find_device : String → List NotificationDevice → Option NotificationDevice
find_device push_token = find_first (λ d. text_eq d.push_token push_token)

abbrev pub new_device : Env → Uuid → PushTokenCreateRequest → NotificationDevice
new_device env user_id payload = record {
  id = env.new_id;
  user_id = user_id;
  platform = payload.platform;
  push_token = payload.push_token;
  last_seen_at = env.own_now;
}

-- The assignments to a device that is known.
abbrev pub seen_device :
    Env → Uuid → PushTokenCreateRequest → NotificationDevice → NotificationDevice
seen_device env user_id payload d = record d {
  user_id = user_id;
  platform = payload.platform;
  last_seen_at = env.own_now;
}

-- `register_push_token`
unfoldable pub register_push_token :
    Env → Uuid → PushTokenCreateRequest → Db → Result (NotificationDevice × Db)
unfolding insert_device
register_push_token env user_id payload db = elim (find_device payload.push_token db.devices) [
  | none ↦ do
    added ← insert_device (new_device env user_id payload) db
    ok (new_device env user_id payload, added)
  | some d ↦ ok (
    seen_device env user_id payload d,
    record db {
      devices = update_where (λ r. r.id == d.id) (seen_device env user_id payload) db.devices;
    },
  )
]

-- `delete_push_token`
unfoldable pub delete_push_token : Uuid → Uuid → Db → Db
delete_push_token user_id device_id db =
    elim (find_first (λ d. d.id == device_id && d.user_id == user_id) db.devices) [
      | none ↦ db
      | some d ↦ record db { devices = filter_by (λ r. not (r.id == d.id)) db.devices }
    ]
