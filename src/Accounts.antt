-- ===== src/Accounts.antt =====
-- The accounts of the users (app/domain/accounts and _slugify.py of app/use_cases/accounts).
pub mod User
pub mod Slugify
pub mod Rows
