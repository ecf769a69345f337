-- ===== src/Tls/Authority.antt =====
-- pkg/tls/authority.go and pkg/tls/util.go: the certificate authority.
pub mod Defs
pub mod Issue
pub mod Init
pub mod Sign
pub mod Parsed
pub mod Reload
pub mod Ecdsa
