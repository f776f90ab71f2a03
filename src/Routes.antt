-- ===== src/Routes.antt =====
-- src/app/routes: the HTTP surface.
pub mod GetUserDetails
pub mod FeatureFlagRouter
pub mod ProbeRouter
pub mod Requests
pub mod Writes
pub mod Probes
