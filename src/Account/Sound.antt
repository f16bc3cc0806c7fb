-- ===== src/Account/Sound.antt =====
-- The invariant of the tables of the account module: what every row has, and distinct identifiers.
pub mod Rows
pub mod Logins
pub mod Opened
pub mod Whole
