-- ===== src/Db/Enums.antt =====
-- app/db/enums.py: the enumerations, and `==` on those that the services compare.
use desmobapp_backend.Prelude.{◌≡◌, refl, Bool, true, false}

pub data BookingLevel : Type 0 where
  seat room venue : BookingLevel

pub data BookingStatus : Type 0 where
  pending confirmed checked_in cancelled expired no_show completed : BookingStatus

pub data HoldStatus : Type 0 where
  pending cancelled expired converted : HoldStatus

pub data PaymentStatus : Type 0 where
  pending authorized captured failed refunded cancelled : PaymentStatus

pub data NotificationChannel : Type 0 where
  push email : NotificationChannel

pub data NotificationStatus : Type 0 where
  pending sent failed cancelled : NotificationStatus

pub data CheckinMethod : Type 0 where
  qr manual geo : CheckinMethod

abbrev pub level_eq : BookingLevel → BookingLevel → Bool
level_eq seat seat = true
level_eq room room = true
level_eq venue venue = true
level_eq _ _ = false

abbrev pub status_eq : BookingStatus → BookingStatus → Bool
status_eq BookingStatus.pending BookingStatus.pending = true
status_eq confirmed confirmed = true
status_eq checked_in checked_in = true
status_eq BookingStatus.cancelled BookingStatus.cancelled = true
status_eq BookingStatus.expired BookingStatus.expired = true
status_eq no_show no_show = true
status_eq completed completed = true
status_eq _ _ = false

-- `status == HoldStatus.PENDING`
abbrev pub hold_is_pending : HoldStatus → Bool
hold_is_pending HoldStatus.pending = true
hold_is_pending _ = false

abbrev pub notification_status_eq : NotificationStatus → NotificationStatus → Bool
notification_status_eq NotificationStatus.pending NotificationStatus.pending = true
notification_status_eq sent sent = true
notification_status_eq NotificationStatus.failed NotificationStatus.failed = true
notification_status_eq NotificationStatus.cancelled NotificationStatus.cancelled = true
notification_status_eq _ _ = false

pub level_eq→eq : (a b : BookingLevel) → level_eq a b ≡ true → a ≡ b
level_eq→eq seat seat h = refl
level_eq→eq room room h = refl
level_eq→eq venue venue h = refl
level_eq→eq seat room h = cc
level_eq→eq _ _ h = cc
