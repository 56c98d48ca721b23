-- ===== src/Governance/Store.antt =====
-- src/quant_platform/governance/store.py: the append-only event chain of each lane and the head
-- that caches its projection.
pub mod Tables
pub mod Operations
pub mod Head
pub mod Appends
pub mod Chain
pub mod Written
pub mod Moves
pub mod Projecting
pub mod Keys
pub mod Tampering
pub mod Divergence
pub mod Lifecycle
