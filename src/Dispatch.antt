-- ===== src/Dispatch.antt =====
-- delivery-api/internal/dispatch: the retry policy and the delivery worker.
-- Policy: outcome to next state. Retries: a delivery over its attempts. Worker: one claimed delivery.
-- Release, Sweeper: a run of each background loop.
pub mod Policy
pub mod Retries
pub mod Worker
pub mod Release
pub mod Sweeper
