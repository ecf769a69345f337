-- ===== src/Tls/Toy.antt =====
-- Small stand-ins for the libraries that pkg/tls calls, for examples: each byte of a PEM text is a
-- block, 1 a private key, 2 a certificate, 3 a request, and any other byte a block of no known type.
use Prim.Native.Nat.{◌<◌}
use camblet.Base.{
  ℕ, ◌≡◌, true, [], ◌∷◌, Option, none, some, String, length, nat_eq, if◌then◌else◌, arith,
}
use camblet.Base.Int.{pos}
use camblet.Base.Fallible.{value, fails}
use camblet.Tls.Parser.Keys.{convert_rsa_public_key, convert_public_key}
use camblet.Tls.Parser.Certificates.{
  get_x509_certificate_type, self_signed, bytes_equal, convert_x509_certificate,
}
use camblet.Tls.Types.{
  X509Certificate, no_type, PrivateKey, Bytes, Block, Crypto, Certificate, CertificateRequest,
  RsaPublicKey, RsaPrivateKey, EcdsaPublicKey, EcdsaPrivateKey, rsa_public, rsa_private,
  no_private_key,
}
use camblet.Tls.Authority.Defs.{Platform, Ca}

abbrev pub toy_public_key : RsaPublicKey
toy_public_key = record { n = 77; e = 3 }

abbrev pub toy_key : RsaPrivateKey
toy_key = record {
  public_key = toy_public_key;
  prime_0 = some 7;
  prime_1 = some 11;
  dp = some 1;
  dq = some 2;
  qinv = some 3;
}

abbrev pub toy_point : EcdsaPublicKey
toy_point = record { curve_name = "P-256"; curve_bit_size = 256; x = 5; y = 6 }

abbrev pub toy_ecdsa_key : EcdsaPrivateKey
toy_ecdsa_key = record { public_key = toy_point; d = 9 }

abbrev pub toy_certificate : Certificate
toy_certificate = record {
  serial_number = 1;
  subject = "ca";
  issuer = "ca";
  not_before = pos 0;
  not_after = pos 1000;
  is_ca = true;
  dns_names = [];
  email_addresses = [];
  ip_addresses = [];
  uris = [];
  signature = [];
  signature_algorithm = "SHA256-RSA";
  public_key = rsa_public toy_public_key;
  raw = 2 ∷ [];
  raw_subject = [];
  raw_issuer = [];
  raw_tbs_certificate = [];
  raw_subject_public_key_info = [];
}

abbrev pub toy_request : CertificateRequest
toy_request = record {
  subject = "workload";
  dns_names = "a.acme.corp" ∷ [];
  email_addresses = [];
  ip_addresses = [];
  uris = [];
  extra_extensions = [];
  signature = [];
  signature_algorithm = "SHA256-RSA";
  public_key = rsa_public toy_public_key;
  raw = 3 ∷ [];
  raw_subject = [];
  raw_subject_public_key_info = [];
}

abbrev pub toy_label : ℕ → String
toy_label n =
    if nat_eq n 1
    then "PRIVATE KEY"
    else if nat_eq n 2
    then "CERTIFICATE"
    else if nat_eq n 3
    then "CERTIFICATE REQUEST"
    else "DATA"

abbrev pub toy_pem_decode : Bytes → Option (Block × Bytes)
toy_pem_decode [] = none
toy_pem_decode (b ∷ rest) = some (record { type = toy_label b; headers = []; bytes = b ∷ [] }, rest)

abbrev pub toy : Crypto
toy = record {
  pem_decode = toy_pem_decode;
  pem_encode = λ block. block.bytes;
  hex_encode = λ bytes. "01";
  parse_certificate = λ der. value toy_certificate;
  parse_certificate_request = λ der. value toy_request;
  parse_pkcs1_public_key = λ der. some toy_public_key;
  parse_pkix_public_key = λ der. none;
  parse_pkcs1_private_key = λ der. some toy_key;
  parse_pkcs8_private_key = λ der. none;
  parse_ec_private_key = λ der. none;
  check_signature_from_key = λ cert. true;
  combine = λ errors. "errors";
}

pub toy_pem_decode_consumes :
    (content rest : Bytes) (block : Block)
    → toy.pem_decode content ≡ some (block, rest)
    → length rest < length content
toy_pem_decode_consumes [] rest block h = cc
toy_pem_decode_consumes (b ∷ bs) rest block h = ground arith

abbrev pub toy_platform : Platform
toy_platform = record {
  read_file = λ file. value (1 ∷ 2 ∷ []);
  rand_int = λ n. value 4;
  generate_rsa_key = λ n. value toy_key;
  marshal_pkcs1 = λ key. 1 ∷ [];
  x509_key_pair = λ cert key. none;
  create_certificate = λ template parent pub_key priv. value (2 ∷ []);
  verify = λ cert roots ims. none;
  now = pos 100;
  now_later = pos 101;
}

abbrev pub key_of_block : PrivateKey
key_of_block = record no_private_key {
  raw = 1 ∷ [];
  type = "RSA";
  size = 8;
  rsa_p = 7 ∷ [];
  rsa_q = 11 ∷ [];
  rsa_dp = 1 ∷ [];
  rsa_dq = 2 ∷ [];
  rsa_iq = 3 ∷ [];
  public_key = some (convert_rsa_public_key toy_public_key);
  key = some (rsa_private toy_key);
}

-- What the toy certificate is converted to.
unfoldable pub root_certificate : X509Certificate
unfolding convert_x509_certificate get_x509_certificate_type self_signed bytes_equal
    convert_public_key
root_certificate = elim (convert_x509_certificate toy toy_certificate) [
  | value cert ↦ cert
  | fails e ↦ record { common = none; type = no_type; certificate = none }
]

abbrev pub loaded_ca : Ca
loaded_ca = record {
  pem = some (1 ∷ 2 ∷ []);
  pem_file = "";
  private_key = some key_of_block;
  certificate = some root_certificate;
  certificates = root_certificate ∷ [];
}
