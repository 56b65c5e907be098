-- ===== src/Http.antt =====
-- internal/httpapi: the handlers of the local interface.
pub mod Replies
pub mod Offers
pub mod Revocation
pub mod Sweep
pub mod Applications
pub mod Entries
pub mod Addresses
pub mod Token
pub mod Routing
pub mod Pipeline
pub mod Access
pub mod Handoff
pub mod Session
pub mod Inventory
pub mod Catalogue
