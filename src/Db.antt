-- ===== src/Db.antt =====
-- The database: the enumerations (app/db/enums.py), the rows of its tables (app/db/models/) and
-- the tables together, with the inserts that check a unique constraint.
mod Enums
mod Space
mod Rows
mod Store
mod Inserts
unfoldable pub use Enums.*
unfoldable pub use Space.*
unfoldable pub use Rows.*
unfoldable pub use Store.*
unfoldable pub use Inserts.*
