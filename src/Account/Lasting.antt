-- ===== src/Account/Lasting.antt =====
-- What no call of the service undoes, whatever the database and the other processes do.
pub mod Flows
pub mod Sessions
pub mod Users
pub mod Verifications
pub mod Ended
pub mod Roles
