-- ===== src/Cli/Ca.antt =====
-- internal/cli/cmd/ca: the commands that create a root and an intermediate CA.
pub mod Printed
pub mod Reloads
pub mod Samples
mod Tests
use camblet.Base.{ℕ, List, [], ◌∷◌, ◌++◌, Option, String}
use camblet.Base.Int.{ℤ}
use camblet.Base.Result.{Result, ok, ◌>>=◌, wrap_if, deref}
use camblet.Tls.Types.{Bytes, X509Certificate, PrivateKey, Crypto}
use camblet.Tls.Parser.Blocks.{certificate_pem, private_key_pem}
use camblet.Tls.Authority.Defs.{
  Platform, with_pem_file, new_certificate_authority, get_trust_anchor,
}
use camblet.Tls.Authority.Issue.{
  CertificateOptions, create_self_signed_ca_certificate, create_intermediate,
}

-- `key_size` is a uint16.
pub record CreateRootCaOptions : Type 0 where
  pub ttl : ℤ
  pub key_size : ℕ

pub record CreateIntermediateCaOptions : Type 0 where
  pub ttl : ℤ
  pub key_size : ℕ
  pub ca_pem_file : String

abbrev pub root_options : CreateRootCaOptions → String → CertificateOptions
root_options opts common_name = record {
  subject = common_name;
  ttl = opts.ttl;
  key_size = opts.key_size;
  dns_names = [];
  email_addresses = [];
  ip_addresses = [];
  uris = [];
}

-- `spiffe_url` is the text of the URL with the scheme "spiffe", a host and a path.
abbrev pub intermediate_options :
    (String → String → String)
    → CreateIntermediateCaOptions
    → String
    → String
    → String
    → CertificateOptions
intermediate_options spiffe_url opts trust_domain common_name identifier = record {
  subject = common_name;
  ttl = opts.ttl;
  key_size = opts.key_size;
  dns_names = [];
  email_addresses = [];
  ip_addresses = [];
  uris = spiffe_url trust_domain identifier ∷ [];
}

module _ (crypto : Crypto) (platform : Platform) where
  -- What `fmt.Printf("%s%s", cert.GetPEM(), pkey.GetPEM())` prints
  abbrev pub print_pair : X509Certificate × PrivateKey → Result Bytes
  print_pair pair = do
    cert ← certificate_pem crypto pair.0
    ok (cert ++ private_key_pem crypto pair.1)

  -- The loop over the intermediate certificates
  unfoldable pub print_chain : List X509Certificate → Result Bytes
  print_chain [] = ok []
  print_chain (cert ∷ chain) = do
    pem ← certificate_pem crypto cert
    rest ← print_chain chain
    ok (pem ++ rest)

  -- `run` of create-root: what is printed; `pkix_name` is the text of a name with a common name.
  unfoldable pub create_root : (String → String) → CreateRootCaOptions → String → Result Bytes
  unfolding create_self_signed_ca_certificate
  create_root pkix_name opts common_name = do
    pair ← wrap_if "could not create self signed root CA certificate" (
        create_self_signed_ca_certificate crypto platform
          (root_options opts (pkix_name common_name)))
    print_pair pair

  -- What `run` of create-intermediate prints of a certificate, its key, the chain and the trust
  -- anchor
  unfoldable pub print_intermediate :
      (X509Certificate × PrivateKey) × List X509Certificate → Option X509Certificate → Result Bytes
  unfolding print_chain
  print_intermediate created trust_anchor = do
    own ← print_pair created.0
    chain ← print_chain created.1
    ta ← deref trust_anchor
    root ← certificate_pem crypto ta
    ok (own ++ (chain ++ root))

  unfoldable pub create_intermediate_ca :
      (String → String)
      → (String → String → String)
      → CreateIntermediateCaOptions
      → String
      → String
      → String
      → Result Bytes
  unfolding print_intermediate new_certificate_authority create_intermediate get_trust_anchor
  create_intermediate_ca pkix_name spiffe_url opts trust_domain common_name identifier = do
    ca ←
        wrap_if "could not instantiate certificate authority"
          (new_certificate_authority crypto platform (with_pem_file opts.ca_pem_file ∷ []))
    created ← wrap_if "could not create intermediate CA certificate" (
        create_intermediate crypto platform ca
          (intermediate_options spiffe_url opts trust_domain (pkix_name common_name) identifier))
    print_intermediate created (get_trust_anchor ca.certificates)
