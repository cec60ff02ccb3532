-- ===== src/Auth.antt =====
-- app/services/auth.py and app/api/routes/auth.py: accounts, sessions and forgotten passwords.
pub mod Ages
pub mod Inserted
pub mod Aged
pub mod Served
pub mod Once
pub mod Replaced
pub mod Login
pub mod Reentry
pub mod Answers
mod Tables
mod Sessions
mod Users
mod Reset
mod Routes
unfoldable pub use Tables.*
unfoldable pub use Sessions.*
unfoldable pub use Users.*
unfoldable pub use Reset.*
unfoldable pub use Routes.*
