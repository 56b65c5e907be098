-- ===== src/Legacy.antt =====
-- internal/legacy/provider.go: the credential provider over the API client.
pub mod FanOut
pub mod Reading
pub mod Provider
pub mod Slots
pub mod Reads
pub mod Writes
pub mod Listing
