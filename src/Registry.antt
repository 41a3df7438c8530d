-- ===== src/Registry.antt =====
-- delivery-api/internal/registry: destinations and routes.
-- Types: the data. Match: which routes fire, and who may use a destination.
-- Fields: the validators. Service: resolving, patching, rotating and disabling.
pub mod Types
pub mod Match
pub mod Fields
pub mod Service
