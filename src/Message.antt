-- ===== src/Message.antt =====
-- delivery-api/internal/message: envelopes, the delivery queue and its log, message status.
-- Types: the data. Status: DeriveStatus. Attempts: recording an attempt and replaying a delivery.
-- Columns: what a row keeps of an envelope. Lifecycle: one message under its lock. Table: the table of
-- messages. Equality, Validate: the comparison and the validation of envelopes. Targets, Service: the
-- message service.
pub mod Types
pub mod Status
pub mod Attempts
pub mod Columns
pub mod Lifecycle
pub mod Table
pub mod Equality
pub mod Validate
pub mod Targets
pub mod Service
