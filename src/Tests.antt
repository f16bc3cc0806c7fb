-- ===== src/Tests.antt =====
-- The theorems at concrete inputs, and runs of the definitions.
pub mod Mail
pub mod Projects
pub mod Tasks
pub mod Accounts
pub mod Shared
pub mod Service
pub mod Later
pub mod Platform
pub mod Limits
