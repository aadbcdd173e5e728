-- ===== src/Vpn.antt =====
-- backend/openvpn, backend/secrets and backend/runtimeexec: manifests, profiles and plans of OpenVPN,
-- references of secrets, and the executor of plans.
pub mod Slug
pub mod Secrets
pub mod Runtime
pub mod OpenVpn
mod Tests
