-- ===== src/Tls.antt =====
-- pkg/tls: PEM containers, certificates and keys, and the certificate authority.
pub mod Types
pub mod Parser
pub mod Authority
pub mod Toy
mod Tests
