-- ===== src/Tracking.antt =====
-- src/quant_platform/tracking: the experiment registry's job queue.
pub mod Registry
pub mod Retention
mod Examples
