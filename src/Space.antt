-- ===== src/Space.antt =====
-- app/services/space.py, app/services/favorite.py: places, what is shown of them, and favorites.
pub mod Linked
pub mod Matches
pub mod Marked
pub mod Laid
pub mod Seated
pub mod Taken
pub mod Updated
mod Codes
mod Features
mod Views
mod Search
mod Admin
mod Layout
mod Favorites
mod Routes
unfoldable pub use Codes.*
unfoldable pub use Features.*
unfoldable pub use Views.*
unfoldable pub use Search.*
unfoldable pub use Admin.*
unfoldable pub use Favorites.*
unfoldable pub use Routes.*
unfoldable pub use Layout.*
