-- ===== src/Provisioning.antt =====
-- provisioning-api/internal/provisioning: Throttle is the attempt throttle of password resets.
pub mod Throttle
