-- ===== src/Bookings.antt =====
-- The booking aggregate: app/domain/bookings and app/domain/accounts/role.py.
mod Status
mod Entity
pub mod Lifecycle
pub mod Life
unfoldable pub use Status.*
unfoldable pub use Entity.*
