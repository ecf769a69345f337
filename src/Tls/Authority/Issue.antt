-- ===== src/Tls/Authority/Issue.antt =====
-- What the certificate authority issues: SignCertificateRequest and CreateIntermediate of
-- pkg/tls/authority.go, and pkg/tls/util.go.
use Prim.Native.Nat.{◌^◌}
use camblet.Tls.Parser.Keys.{parse_x509_private_key}
use camblet.Base.{nat_eq, ℕ, true, false, List, [], ◌∷◌, Option, none, some, String, if◌then◌else◌}
use camblet.Base.Int.{ℤ, ◌+ℤ◌, is_zero}
use camblet.Base.Result.{Result, ok, panics, ◌>>=◌, wrap_if, deref}
use camblet.Tls.Types.{
  RsaPrivateKey, AnyPrivateKey, rsa_public, rsa_private, ecdsa_private, ed25519_private,
  other_private, Certificate, CertificateRequest, PrivateKey, X509Certificate, Crypto,
}
use camblet.Tls.Parser.Certificates.{parse_x509_certificate_from_der}
use camblet.Tls.Authority.Defs.{
  Platform, Ca, Template, Parent, issued_by, itself, digital_signature, cert_sign, key_encipherment,
  client_auth, server_auth, default_ca_certificate_ttl, default_certificate_key_size,
  default_leaf_certificate_ttl, get_intermediates, lift,
}

-- `c.privateKey.Key.(rsa.PrivateKey)`: any other type, or a nil pointer, is a panic.
abbrev pub assert_rsa : Option AnyPrivateKey → Result RsaPrivateKey
assert_rsa (some (rsa_private key)) = ok key
assert_rsa (some (ecdsa_private key)) = panics
assert_rsa (some ed25519_private) = panics
assert_rsa (some other_private) = panics
assert_rsa none = panics

-- `if parent == nil { parent = ca }` and `if priv == nil { priv = caPrivKey }`
abbrev pub parent_or_itself : Option Certificate → Template → Parent
parent_or_itself none ca = itself ca
parent_or_itself (some parent) ca = issued_by parent

abbrev pub key_or_own : Option AnyPrivateKey → RsaPrivateKey → AnyPrivateKey
key_or_own none own = rsa_private own
key_or_own (some priv) own = priv

-- pkg/tls/util.go
pub record CertificateOptions : Type 0 where
  pub subject : String
  pub ttl : ℤ
  pub key_size : ℕ
  pub dns_names : List String
  pub email_addresses : List String
  pub ip_addresses : List String
  pub uris : List String

-- The defaults that `CreateCACertificate` puts in for a zero TTL and a zero key size.
abbrev pub with_defaults : CertificateOptions → CertificateOptions
with_defaults opts = record opts {
  ttl = if is_zero opts.ttl then default_ca_certificate_ttl else opts.ttl;
  key_size = if nat_eq opts.key_size 0 then default_certificate_key_size else opts.key_size;
}

module _ (crypto : Crypto) (platform : Platform) where
  abbrev pub leaf_template : ℕ → CertificateRequest → ℤ → Template
  leaf_template serial req ttl = record {
    serial_number = serial;
    subject = req.subject;
    not_before = platform.now;
    not_after = platform.now_later +ℤ ttl;
    is_ca = false;
    basic_constraints_valid = false;
    ext_key_usage = client_auth ∷ server_auth ∷ [];
    key_usage = digital_signature ∷ key_encipherment ∷ [];
    dns_names = req.dns_names;
    email_addresses = req.email_addresses;
    ip_addresses = req.ip_addresses;
    uris = req.uris;
    extra_extensions = req.extra_extensions;
  }

  unfoldable pub sign_certificate_request :
      Ca → Option CertificateRequest → ℤ → Result (X509Certificate × List X509Certificate)
  sign_certificate_request c request ttl = do
    serial ← lift (platform.rand_int (2 ^ 159))
    private_key ← deref c.private_key
    pkey ← assert_rsa private_key.key
    let ttl' = if is_zero ttl then default_leaf_certificate_ttl else ttl
    req ← deref request
    cert ← deref c.certificate
    parent ← deref cert.certificate
    cert_byte ← lift (
        platform.create_certificate (leaf_template serial req ttl') (issued_by parent)
          req.public_key (rsa_private pkey))
    signed ← lift (parse_x509_certificate_from_der crypto cert_byte)
    ok (signed, get_intermediates c.certificates)

  abbrev pub ca_template : ℕ → CertificateOptions → Template
  ca_template serial opts = record {
    serial_number = serial;
    subject = opts.subject;
    not_before = platform.now;
    not_after = platform.now_later +ℤ opts.ttl;
    is_ca = true;
    basic_constraints_valid = true;
    ext_key_usage = client_auth ∷ server_auth ∷ [];
    key_usage = digital_signature ∷ cert_sign ∷ [];
    dns_names = opts.dns_names;
    email_addresses = opts.email_addresses;
    ip_addresses = opts.ip_addresses;
    uris = opts.uris;
    extra_extensions = [];
  }

  unfoldable pub create_ca_certificate :
      CertificateOptions
      → Option Certificate
      → Option AnyPrivateKey
      → Result (X509Certificate × PrivateKey)
  create_ca_certificate opts parent priv = do
    serial ← lift (platform.rand_int (2 ^ 162))
    let ca = ca_template serial (with_defaults opts)
    ca_priv_key ←
        wrap_if "could not generate RSA key for the CA"
          (lift (platform.generate_rsa_key (with_defaults opts).key_size))
    ca_bytes ← wrap_if "could not create CA certificate" (
        lift (
          platform.create_certificate ca (parent_or_itself parent ca)
            (rsa_public ca_priv_key.public_key) (key_or_own priv ca_priv_key)))
    x509_ca_priv_key ← parse_x509_private_key crypto (platform.marshal_pkcs1 ca_priv_key)
    certificate ←
        wrap_if "could not parse CA certificate"
          (lift (parse_x509_certificate_from_der crypto ca_bytes))
    ok (certificate, x509_ca_priv_key)

  unfoldable pub create_self_signed_ca_certificate :
      CertificateOptions → Result (X509Certificate × PrivateKey)
  unfolding create_ca_certificate
  create_self_signed_ca_certificate opts = create_ca_certificate opts none none

  unfoldable pub create_intermediate :
      Ca → CertificateOptions → Result ((X509Certificate × PrivateKey) × List X509Certificate)
  unfolding create_ca_certificate get_intermediates
  create_intermediate c opts = do
    private_key ← deref c.private_key
    pkey ← assert_rsa private_key.key
    cert ← deref c.certificate
    created ← create_ca_certificate opts cert.certificate (some (rsa_private pkey))
    ok (created, get_intermediates c.certificates)
