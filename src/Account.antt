-- ===== src/Account.antt =====
-- internal/modules/account: the tables with their statements, the guards of the store, the methods of
-- the service, and what ends a session.
pub mod Tables
pub mod Users
pub mod Sessions
pub mod Accounts
pub mod Flows
pub mod Records
pub mod Enums
pub mod Env
pub mod Store
pub mod Audit
pub mod Self
pub mod Proofs
pub mod Reauth
pub mod Login
pub mod Register
pub mod Challenges
pub mod Password
pub mod Linking
pub mod Admin
pub mod Callback
pub mod Kept
pub mod Keeping
pub mod Both
pub mod Inversion
pub mod Calls
pub mod Standing
pub mod Lasting
pub mod Ending
pub mod RateLimits
pub mod Entry
pub mod Sound
