-- ===== src/Store.antt =====
-- The tables that the booking handlers read and write, through the repositories of
-- app/infrastructure/repositories, and the notifications that are sent.
mod Tables
mod Runs
pub mod Keeps
pub mod Rows
pub mod Updates
pub mod Equations
pub mod Returns
pub mod Writes
unfoldable pub use Runs.*
unfoldable pub use Tables.*
