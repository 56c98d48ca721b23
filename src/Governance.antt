-- ===== src/Governance.antt =====
-- src/quant_platform/governance: lanes, the event chain and its head.
mod Toy
mod Examples
pub mod Lane
pub mod Runtime
pub mod Store
