-- ===== src/Ovh.antt =====
-- internal/ovh: the client of the OVHcloud API.
pub mod Client
pub mod Makes
pub mod Paths
pub mod Requests
pub mod Rules
pub mod TokenUrl
pub mod Wire
pub mod Pacing
