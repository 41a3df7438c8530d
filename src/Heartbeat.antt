-- ===== src/Heartbeat.antt =====
-- delivery-api/internal/heartbeat: checks that an app pings or that the service probes.
-- Types: the data. Machine: the state machine of machine.go, with its laws below.
-- Validate: validate.go. Patch: merging a partial update. Flush: announcing the alerts of the outbox.
-- Probing: running a probe and recording its result.
pub mod Types
pub mod Machine
pub mod Validate
pub mod Patch
pub mod Flush
pub mod Probing
