-- ===== src/UseCases.antt =====
-- The command handlers of app/use_cases, and the histories that they make together.
pub mod Request
pub mod Approve
pub mod Decide
pub mod Expire
pub mod SoftDelete
pub mod Inputs
pub mod Create
pub mod Manage
pub mod Trials
pub mod SetStatus
pub mod Agenda
pub mod Rate
pub mod Accounts
pub mod Catalog
pub mod Steps
pub mod Calendar
pub mod Consistent
pub mod Distinct
