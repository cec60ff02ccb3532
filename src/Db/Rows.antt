-- ===== src/Db/Rows.antt =====
-- The rows that the services write: app/db/models/booking.py, payment.py and notification.py.
-- An instant is the number of microseconds since 0001-01-01T00:00 UTC.
use desmobapp_backend.Prelude.{Bool, ℕ, Option, String, List}
use desmobapp_backend.Db.Space.{Uuid}
use desmobapp_backend.Db.Enums.{
  BookingLevel, BookingStatus, HoldStatus, PaymentStatus, NotificationChannel, NotificationStatus,
  CheckinMethod,
}

pub record Hold : Type 0 where
  pub id : Uuid
  pub user_id : Uuid
  pub level : BookingLevel
  pub venue_id : Option Uuid
  pub room_id : Option Uuid
  pub seat_id : Option Uuid
  pub start_time : ℕ
  pub end_time : ℕ
  pub status : HoldStatus
  pub expires_at : ℕ
  pub created_at : ℕ

pub record Booking : Type 0 where
  pub id : Uuid
  pub user_id : Uuid
  pub hold_id : Option Uuid
  pub level : BookingLevel
  pub venue_id : Option Uuid
  pub room_id : Option Uuid
  pub seat_id : Option Uuid
  pub start_time : ℕ
  pub end_time : ℕ
  pub status : BookingStatus
  pub price_amount_cents : ℕ
  pub price_currency : String
  pub created_at : ℕ
  pub updated_at : ℕ
  pub cancelled_at : Option ℕ

-- The code computes with no coordinate: it stores a float and asks whether it is there. The number
-- stands for the float's bit pattern.
pub record Checkin : Type 0 where
  pub id : Uuid
  pub booking_id : Uuid
  pub method : CheckinMethod
  pub lat : Option ℕ
  pub lon : Option ℕ
  pub notes : Option String
  pub checked_in_at : ℕ

-- `currency` is a list of code points.
pub record Transaction : Type 0 where
  pub id : Uuid
  pub booking_id : Uuid
  pub user_id : Uuid
  pub provider : String
  pub external_id : Uuid
  pub status : PaymentStatus
  pub amount_cents : ℕ
  pub refunded_cents : ℕ
  pub currency : List ℕ
  pub authorized_at : Option ℕ
  pub captured_at : Option ℕ
  pub refunded_at : Option ℕ
  pub created_at : ℕ
  pub updated_at : ℕ

-- The JSON that a notification carries, one constructor for each shape that the services write.
pub data Payload : Type 0 where
  booking_level : Uuid → BookingLevel → Payload
  booking_only : Uuid → Payload
  booking_transaction : Uuid → Uuid → Payload
  transaction_only : Uuid → Payload
  transaction_amount : Uuid → ℕ → Payload
  email_only : String → Payload

pub record Notification : Type 0 where
  pub id : Uuid
  pub user_id : Uuid
  pub channel : NotificationChannel
  pub template_code : String
  pub payload : Option Payload
  pub status : NotificationStatus
  pub scheduled_at : ℕ
  pub sent_at : Option ℕ
  pub created_at : ℕ

-- app/db/models/notification.py
pub record NotificationPreference : Type 0 where
  pub user_id : Uuid
  pub email_notifications : Bool
  pub push_notifications : Bool
  pub reminder_before_booking : Bool
  pub promotional_emails : Bool
  pub updated_at : ℕ

pub record NotificationDevice : Type 0 where
  pub id : Uuid
  pub user_id : Uuid
  pub platform : String
  pub push_token : String
  pub last_seen_at : ℕ
