-- ===== src/Booking.antt =====
-- app/services/booking.py: bookings are made, moved, repeated and cancelled.
pub mod Spec
pub mod Homed
pub mod Saved
pub mod Changed
pub mod Settled
pub mod Cancelled
pub mod Added
pub mod Rescheduled
pub mod Created
pub mod Refines
pub mod Refused
pub mod Allowed
pub mod Pages
pub mod Converted
pub mod Accepted
mod Window
mod HoldCheck
mod Create
mod Query
mod Change
unfoldable pub use Window.*
unfoldable pub use HoldCheck.*
unfoldable pub use Create.*
unfoldable pub use Query.*
unfoldable pub use Change.*
