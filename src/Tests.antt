-- ===== src/Tests.antt =====
-- The sample data of the tests, and the theorems at concrete inputs.
mod Samples
mod Bookings
mod Ledgers
mod Refusals
mod Accounts
mod Slots
mod Grants
mod Conversions
mod Pages
mod Sessions
mod Inbox
mod Places
