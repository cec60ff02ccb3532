-- ===== src/Availability.antt =====
-- app/services/availability.py: which resource a request means, its rules and opening hours, the
-- bookings and holds that are in its way, and the slots of a day.
mod Resource
mod Conflicts
mod Slots
pub mod Complete
pub mod Total
pub mod Elsewhere
pub mod Sliced
pub mod Free
unfoldable pub use Resource.*
unfoldable pub use Conflicts.*
unfoldable pub use Slots.*
