-- ===== src/Shared/Table.antt =====
-- SQL tables as lists of rows, in the order of insertion, with the statements that the stores issue.
mod Defs
mod Rows
mod Unique
mod Oldest
mod Newest
mod Selected
unfoldable pub use Defs.{find, update, delete, select, count}
unfoldable pub use Oldest.{oldest}
unfoldable pub use Newest.{newest_first, limit}
pub use Newest.{
  IsNewestFirst, newest_first-IsNewestFirst, All-newest_first, All-limit, IsNewestFirst-limit,
  length-limit-le,
}
pub use Rows.*
pub use Unique.*
pub use Oldest.{IsSelected, oldest-IsSelected, oldest-eq-none, find-oldest}
pub use Selected.*
