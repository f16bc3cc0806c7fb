-- ===== src/MailOutbox.antt =====
-- internal/modules/mailoutbox: the consumer of the persistent mail queue. The rows and the queries
-- are in Queries, one delivery in Delivery; the proofs are in the other children.
pub mod Queries
pub mod Delivery
pub mod Invariant
pub mod Claim
pub mod History
pub mod Lease
pub mod Attempts
pub mod Sending
pub mod Processing
