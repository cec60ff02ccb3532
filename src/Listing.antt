-- ===== src/Listing.antt =====
-- The lists that services answer with: `order_by`, `offset` and `limit`, and the count of all rows.
mod Order
mod Pages
mod Complete
unfoldable pub use Order.*
unfoldable pub use Pages.*
unfoldable pub use Complete.*
