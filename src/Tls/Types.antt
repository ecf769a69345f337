-- ===== src/Tls/Types.antt =====
-- The types of pkg/tls/parser.go, and what its code reads of the types of crypto/x509.
use camblet.Base.{ℕ, Bool, List, [], Option, none, String}
use camblet.Base.Int.{ℤ, pos}
use camblet.Base.Fallible.{Fallible}
use camblet.Base.Result.{Error}

abbrev pub Bytes : Type 0
Bytes = List ℕ

-- The types of crypto/rsa and crypto/ecdsa. A number of a private RSA key is a pointer, `none` for
-- nil: the standard library leaves Qinv nil if the second prime has no inverse modulo the first.
pub record RsaPublicKey : Type 0 where
  pub n : ℕ
  pub e : ℕ

pub record EcdsaPublicKey : Type 0 where
  pub curve_name : String
  pub curve_bit_size : ℕ
  pub x : ℕ
  pub y : ℕ

pub record RsaPrivateKey : Type 0 where
  pub public_key : RsaPublicKey
  pub prime_0 : Option ℕ
  pub prime_1 : Option ℕ
  pub dp : Option ℕ
  pub dq : Option ℕ
  pub qinv : Option ℕ

pub record EcdsaPrivateKey : Type 0 where
  pub public_key : EcdsaPublicKey
  pub d : ℕ

-- `any` values that hold a key; `other` stands for every type that the code does not name
pub data AnyPublicKey : Type 0 where
  rsa_public : RsaPublicKey → AnyPublicKey
  ecdsa_public : EcdsaPublicKey → AnyPublicKey
  other_public : AnyPublicKey

pub data AnyPrivateKey : Type 0 where
  rsa_private : RsaPrivateKey → AnyPrivateKey
  ecdsa_private : EcdsaPrivateKey → AnyPrivateKey
  ed25519_private : AnyPrivateKey
  other_private : AnyPrivateKey

-- x509.Certificate and x509.CertificateRequest; times are Unix seconds, addresses and URLs texts.
pub record Certificate : Type 0 where
  pub serial_number : ℕ
  pub subject : String
  pub issuer : String
  pub not_before : ℤ
  pub not_after : ℤ
  pub is_ca : Bool
  pub dns_names : List String
  pub email_addresses : List String
  pub ip_addresses : List String
  pub uris : List String
  pub signature : Bytes
  pub signature_algorithm : String
  pub public_key : AnyPublicKey
  pub raw : Bytes
  pub raw_subject : Bytes
  pub raw_issuer : Bytes
  pub raw_tbs_certificate : Bytes
  pub raw_subject_public_key_info : Bytes

pub record CertificateRequest : Type 0 where
  pub subject : String
  pub dns_names : List String
  pub email_addresses : List String
  pub ip_addresses : List String
  pub uris : List String
  pub extra_extensions : List Bytes
  pub signature : Bytes
  pub signature_algorithm : String
  pub public_key : AnyPublicKey
  pub raw : Bytes
  pub raw_subject : Bytes
  pub raw_subject_public_key_info : Bytes

-- pem.Block
pub record Block : Type 0 where
  pub type : String
  pub headers : List (String × String)
  pub bytes : Bytes

-- The types of parser.go. `key` is the `Key any` that holds the key by value.
pub record PublicKey : Type 0 where
  pub type : String
  pub bit_size : ℤ
  pub rsa_n : Bytes
  pub rsa_e : Bytes
  pub curve : String
  pub ec_q : Bytes
  pub raw : Bytes
  pub key : Option AnyPublicKey

pub record PrivateKey : Type 0 where
  pub type : String
  pub size : ℕ
  pub rsa_p : Bytes
  pub rsa_q : Bytes
  pub rsa_dp : Bytes
  pub rsa_dq : Bytes
  pub rsa_iq : Bytes
  pub curve : String
  pub ec_d : Bytes
  pub public_key : Option PublicKey
  pub raw : Bytes
  pub key : Option AnyPrivateKey

pub record CertificateCommon : Type 0 where
  pub public_key : Option PublicKey
  pub serial_number : String
  pub not_before : Option ℤ
  pub not_after : Option ℤ
  pub not_before_unix : ℕ
  pub not_after_unix : ℕ
  pub subject : String
  pub issuer : String
  pub dns_names : List String
  pub email_addresses : List String
  pub ip_addresses : List String
  pub uris : List String
  pub signature : Bytes
  pub signature_algorithm : String
  pub raw : Bytes
  pub raw_subject : Bytes
  pub raw_issuer : Bytes

-- `no_type` is the empty text of a value that is all zero.
pub data X509CertificateType : Type 0 where
  root_ca intermediate_ca leaf no_type : X509CertificateType

pub record X509Certificate : Type 0 where
  pub common : Option CertificateCommon
  pub type : X509CertificateType
  pub certificate : Option Certificate

pub record X509CertificateRequest : Type 0 where
  pub common : Option CertificateCommon
  pub certificate_request : Option CertificateRequest

pub data ContainerType : Type 0 where
  x509_certificate_container x509_certificate_request_container : ContainerType
  public_key_container private_key_container : ContainerType

-- `Object any`: a pointer of one of four types, which may be nil
pub data Object : Type 0 where
  certificate_object : Option X509Certificate → Object
  request_object : Option X509CertificateRequest → Object
  public_key_object : Option PublicKey → Object
  private_key_object : Option PrivateKey → Object

pub record Container : Type 0 where
  pub type : ContainerType
  pub object : Object

abbrev pub no_public_key : PublicKey
no_public_key = record {
  type = "";
  bit_size = pos 0;
  rsa_n = [];
  rsa_e = [];
  curve = "";
  ec_q = [];
  raw = [];
  key = none;
}

abbrev pub no_private_key : PrivateKey
no_private_key = record {
  type = "";
  size = 0;
  rsa_p = [];
  rsa_q = [];
  rsa_dp = [];
  rsa_dq = [];
  rsa_iq = [];
  curve = "";
  ec_d = [];
  public_key = none;
  raw = [];
  key = none;
}

-- What the code takes from encoding/pem, encoding/hex, crypto/x509, zcrypto and emperror.
pub record Crypto : Type 0 where
  pub pem_decode : Bytes → Option (Block × Bytes)
  pub pem_encode : Block → Bytes
  pub hex_encode : Bytes → String
  pub parse_certificate : Bytes → Fallible Certificate
  pub parse_certificate_request : Bytes → Fallible CertificateRequest
  pub parse_pkcs1_public_key : Bytes → Option RsaPublicKey
  pub parse_pkix_public_key : Bytes → Option AnyPublicKey
  pub parse_pkcs1_private_key : Bytes → Option RsaPrivateKey
  pub parse_pkcs8_private_key : Bytes → Option AnyPrivateKey
  pub parse_ec_private_key : Bytes → Option EcdsaPrivateKey
  pub check_signature_from_key : Certificate → Bool
  pub combine : List Error → Error
