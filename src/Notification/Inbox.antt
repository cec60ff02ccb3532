-- ===== src/Notification/Inbox.antt =====
-- app/services/notification.py, `list_notifications`.
use desmobapp_backend.Prelude.{ℕ, Bool, true, ◌&&◌, Option, none, some, filter_by, leb, ◌==◌}
use desmobapp_backend.Db.{Db, Uuid, Notification, NotificationStatus, notification_status_eq}
use desmobapp_backend.Listing.{ListResponse, list_response}

-- `order_by(Notification.created_at.desc())`
abbrev pub made_later : Notification → Notification → Bool
made_later a b = leb b.created_at a.created_at

abbrev pub has_status : Option NotificationStatus → Notification → Bool
has_status none n = true
has_status (some status) n = notification_status_eq n.status status

abbrev pub in_inbox : Uuid → Option NotificationStatus → Notification → Bool
in_inbox user_id status n = n.user_id == user_id && has_status status n

-- `list_notifications`
unfoldable pub list_notifications :
    Uuid → Option NotificationStatus → ℕ → ℕ → Db → ListResponse Notification
list_notifications user_id status page limit db =
    list_response made_later page limit (filter_by (in_inbox user_id status) db.notifications)
