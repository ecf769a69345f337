-- ===== src/Service.antt =====
-- internal/service: the service definitions and their conversion for the kernel.
pub mod Convert
pub mod Loader
pub mod Samples
mod Tests
