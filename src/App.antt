-- ===== src/App.antt =====
-- The wiring of the application that the module depends on.
pub mod Accounts
