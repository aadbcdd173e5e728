-- ===== src/Wg.antt =====
-- backend/wg and the handlers of interfaces, peers and port forwards.
pub mod Firewall
pub mod Forwards
pub mod Model
pub mod Ownership
pub mod Publish
pub mod Device
pub mod Sync
pub mod Addresses
pub mod Peers
pub mod Interfaces
mod Simulated
mod Samples
mod Tests
