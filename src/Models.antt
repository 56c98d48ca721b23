-- ===== src/Models.antt =====
-- src/quant_platform/models: the cross-validation splitter.
pub mod Splits
mod Examples
