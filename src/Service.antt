-- ===== src/Service.antt =====
-- src/quant_platform/service: the admission control of the local service.
pub mod Admission
mod Examples
