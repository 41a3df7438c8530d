-- ===== src/Examples.antt =====
-- The properties applied to concrete inputs.
mod Alerts
mod Checks
mod Deliveries
mod Messages
mod Resets
mod Routing
mod Tables
mod Services
mod Directory
mod Probes
