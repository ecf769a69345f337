-- ===== src/Tls/Parser.antt =====
-- pkg/tls/parser.go: keys, certificates and certificate requests, and PEM blocks and containers.
pub mod Keys
pub mod Certificates
pub mod Blocks
