-- ===== src/Access/Permissions.antt =====
-- app/core/permissions.py: the permissions of each role, and the names of the roles.
use desmobapp_backend.Prelude.{Option, none, some, String, List, [], ◌∷◌, ◌++◌, find_first}
use desmobapp_backend.Access.Texts.{text_eq, sorted_set}

-- A dictionary from role codes, in the order of the source.
abbrev pub Dictionary : Type 0 → Type 0
Dictionary A = List (String × A)

abbrev pub owner_permissions : List String
owner_permissions =
    "venues.read" ∷ "venues.update" ∷ "rooms.read" ∷ "rooms.create" ∷ "rooms.update"
    ∷ "rooms.delete" ∷ "seats.read" ∷ "seats.create" ∷ "seats.update" ∷ "seats.delete"
    ∷ "features.read" ∷ "feature_links.read" ∷ "feature_links.link" ∷ "feature_links.unlink"
    ∷ "booking_rules.read" ∷ "booking_rules.update" ∷ "room_hours.read" ∷ "room_hours.update"
    ∷ "tariffs.read" ∷ "tariffs.create" ∷ "tariffs.update" ∷ "tariffs.archive" ∷ "availability.read"
    ∷ "holds.create" ∷ "holds.cancel" ∷ "bookings.create" ∷ "bookings.read" ∷ "bookings.cancel"
    ∷ "bookings.update_status" ∷ "checkins.create" ∷ "transactions.read" ∷ "transactions.capture"
    ∷ "transactions.refund" ∷ "analytics.read" ∷ "notifications.read" ∷ "notifications.send"
    ∷ "notification_prefs.read" ∷ "notification_prefs.update" ∷ "users.read" ∷ "roles.assign"
    ∷ "roles.revoke" ∷ "invites.create" ∷ "invites.read" ∷ "invites.revoke" ∷ []

abbrev pub admin_permissions : List String
admin_permissions =
    "venues.read" ∷ "venues.update" ∷ "rooms.read" ∷ "rooms.create" ∷ "rooms.update"
    ∷ "rooms.delete" ∷ "seats.read" ∷ "seats.create" ∷ "seats.update" ∷ "seats.delete"
    ∷ "features.read" ∷ "feature_links.read" ∷ "feature_links.link" ∷ "feature_links.unlink"
    ∷ "booking_rules.read" ∷ "booking_rules.update" ∷ "room_hours.read" ∷ "room_hours.update"
    ∷ "tariffs.read" ∷ "tariffs.create" ∷ "tariffs.update" ∷ "tariffs.archive" ∷ "availability.read"
    ∷ "holds.create" ∷ "holds.cancel" ∷ "bookings.create" ∷ "bookings.read" ∷ "bookings.cancel"
    ∷ "bookings.update_status" ∷ "checkins.create" ∷ "analytics.read" ∷ "notifications.read"
    ∷ "notifications.send" ∷ "notification_prefs.read" ∷ "notification_prefs.update" ∷ "users.read"
    ∷ "roles.assign" ∷ "roles.revoke" ∷ "invites.create" ∷ "invites.read" ∷ "invites.revoke" ∷ []

abbrev pub manager_permissions : List String
manager_permissions =
    "venues.read" ∷ "rooms.read" ∷ "rooms.update" ∷ "seats.read" ∷ "seats.update" ∷ "features.read"
    ∷ "feature_links.read" ∷ "room_hours.read" ∷ "availability.read" ∷ "holds.create"
    ∷ "holds.cancel" ∷ "bookings.create" ∷ "bookings.read" ∷ "bookings.cancel"
    ∷ "bookings.update_status" ∷ "checkins.create" ∷ "analytics.read" ∷ "notifications.read"
    ∷ "notification_prefs.read" ∷ []

abbrev pub support_permissions : List String
support_permissions =
    "venues.read" ∷ "rooms.read" ∷ "seats.read" ∷ "features.read" ∷ "availability.read"
    ∷ "bookings.read" ∷ "notifications.read" ∷ "users.read" ∷ "invites.read" ∷ []

abbrev pub billing_permissions : List String
billing_permissions =
    "transactions.read" ∷ "transactions.capture" ∷ "transactions.refund" ∷ "analytics.read"
    ∷ "bookings.read" ∷ "users.read" ∷ []

abbrev pub auditor_permissions : List String
auditor_permissions =
    "venues.read" ∷ "rooms.read" ∷ "seats.read" ∷ "features.read" ∷ "availability.read"
    ∷ "bookings.read" ∷ "transactions.read" ∷ "analytics.read" ∷ "notifications.read" ∷ "users.read"
    ∷ []

abbrev pub client_permissions : List String
client_permissions =
    "availability.read" ∷ "holds.create" ∷ "holds.cancel" ∷ "bookings.create" ∷ "bookings.read"
    ∷ "bookings.cancel" ∷ "checkins.create" ∷ "notification_prefs.read"
    ∷ "notification_prefs.update" ∷ []

-- `ROLE_PERMISSIONS`; a set is the list of its elements.
abbrev pub role_permissions : Dictionary (List String)
role_permissions =
    ("owner", owner_permissions)
    ∷ ("admin", admin_permissions)
    ∷ ("manager", manager_permissions)
    ∷ ("support", support_permissions)
    ∷ ("billing", billing_permissions)
    ∷ ("auditor", auditor_permissions)
    ∷ ("client", client_permissions)
    ∷ []

-- `ROLE_NAMES`
abbrev pub role_names : Dictionary String
role_names =
    ("owner", "Owner")
    ∷ ("admin", "Admin")
    ∷ ("manager", "Manager")
    ∷ ("support", "Support")
    ∷ ("billing", "Billing")
    ∷ ("auditor", "Auditor")
    ∷ ("client", "Client")
    ∷ []

abbrev pub set_of : Option (String × List String) → List String
set_of none = []
set_of (some entry) = entry.1

-- `ROLE_PERMISSIONS.get(role_code, set())`
unfoldable pub permissions_of : String → List String
permissions_of role_code = set_of (find_first (λ entry. text_eq entry.0 role_code) role_permissions)

unfoldable pub union : Dictionary (List String) → List String
union [] = []
union (entry ∷ rest) = entry.1 ++ union rest

-- `all_permissions`
unfoldable pub all_permissions : List String
all_permissions = sorted_set (union role_permissions)
