-- ===== src/Tls/Parser/Certificates.antt =====
-- The certificates and certificate requests of pkg/tls/parser.go.
pub mod Kind
use camblet.Base.{
  ℕ, Bool, true, false, ◌&&◌, List, [], ◌∷◌, Option, none, some, length, nat_eq, if◌then◌else◌,
}
use camblet.Base.Int.{pos, uint64}
use camblet.Base.Fallible.{Fallible, value, fails, ◌>>=◌, or_fails}
use camblet.Tls.Types.{
  Bytes, Certificate, CertificateRequest, PublicKey, CertificateCommon, X509CertificateType,
  root_ca, intermediate_ca, leaf, X509Certificate, X509CertificateRequest, Crypto,
}
use camblet.Tls.Parser.Keys.{big_bytes, convert_public_key}

-- bytes.Equal
unfoldable pub bytes_equal : Bytes → Bytes → Bool
bytes_equal [] [] = true
bytes_equal [] (b ∷ bs) = false
bytes_equal (a ∷ as') [] = false
bytes_equal (a ∷ as') (b ∷ bs) = nat_eq a b && bytes_equal as' bs

module _ (crypto : Crypto) where
  -- the function literal of `getX509CertificateType`
  unfoldable pub self_signed : Certificate → Bool
  unfolding bytes_equal
  self_signed cert =
      if bytes_equal cert.raw_subject cert.raw_issuer
      then crypto.check_signature_from_key cert
      else false

  unfoldable pub get_x509_certificate_type : Certificate → X509CertificateType
  get_x509_certificate_type cert =
      if self_signed cert && cert.is_ca
      then root_ca
      else if cert.is_ca
      then intermediate_ca
      else leaf

  -- The fields that `ConvertX509Certificate` fills before the public key.
  abbrev pub common_of_certificate : Certificate → PublicKey → CertificateCommon
  common_of_certificate cert key = record {
    public_key = some (record key { raw = cert.raw_subject_public_key_info });
    serial_number = crypto.hex_encode (big_bytes cert.serial_number);
    not_before = some cert.not_before;
    not_after = some cert.not_after;
    not_before_unix = uint64 cert.not_before;
    not_after_unix = uint64 cert.not_after;
    subject = cert.subject;
    issuer = cert.issuer;
    dns_names = cert.dns_names;
    email_addresses = cert.email_addresses;
    ip_addresses = cert.ip_addresses;
    uris = cert.uris;
    signature = cert.signature;
    signature_algorithm = cert.signature_algorithm;
    raw = cert.raw;
    raw_subject = cert.raw_subject;
    raw_issuer = cert.raw_issuer;
  }

  unfoldable pub convert_x509_certificate : Certificate → Fallible X509Certificate
  unfolding get_x509_certificate_type self_signed bytes_equal big_bytes
  convert_x509_certificate cert = do
    key ← convert_public_key cert.public_key
    value (record {
      common = some (common_of_certificate cert key);
      type = get_x509_certificate_type cert;
      certificate = some cert;
    })

  unfoldable pub parse_x509_certificate_from_der : Bytes → Fallible X509Certificate
  parse_x509_certificate_from_der der = do
    x509cert ← crypto.parse_certificate der
    convert_x509_certificate x509cert

  abbrev common_of_request : CertificateRequest → PublicKey → CertificateCommon
  common_of_request req key = record {
    public_key = some (record key { raw = req.raw_subject_public_key_info });
    serial_number = "";
    not_before = none;
    not_after = none;
    not_before_unix = 0;
    not_after_unix = 0;
    subject = req.subject;
    issuer = "";
    dns_names = req.dns_names;
    email_addresses = req.email_addresses;
    ip_addresses = req.ip_addresses;
    uris = req.uris;
    signature = req.signature;
    signature_algorithm = req.signature_algorithm;
    raw = req.raw;
    raw_subject = req.raw_subject;
    raw_issuer = [];
  }

  unfoldable pub convert_x509_certificate_request :
      CertificateRequest → Fallible X509CertificateRequest
  convert_x509_certificate_request req = do
    key ← convert_public_key req.public_key
    value (record { common = some (common_of_request req key); certificate_request = some req })

  unfoldable pub parse_x509_certificate_request_from_der : Bytes → Fallible X509CertificateRequest
  parse_x509_certificate_request_from_der der = do
    x509req ← crypto.parse_certificate_request der
    convert_x509_certificate_request x509req
