-- ===== src/Tls/Authority/Defs.antt =====
-- The state of the certificate authority, and how NewCertificateAuthority of pkg/tls/authority.go loads it.
use Prim.Native.Nat.{◌*◌, ◌^◌}
use camblet.Base.{
  ℕ, Bool, true, false, List, [], ◌∷◌, ◌++◌, Option, none, some, String, ◌==◌, if◌then◌else◌,
}
use camblet.Base.Int.{ℤ, pos}
use camblet.Base.Result.{Error, Result, ok, err, ◌>>=◌, ◌>>◌, wrap_if, check, deref}
use camblet.Base.Fallible.{Fallible, value, fails}
use camblet.Tls.Types.{
  Bytes, RsaPrivateKey, AnyPublicKey, AnyPrivateKey, Certificate, PrivateKey, X509CertificateType,
  root_ca, intermediate_ca, X509Certificate, ContainerType, x509_certificate_container,
  x509_certificate_request_container, public_key_container, private_key_container, Container,
  Crypto,
}
use camblet.Tls.Parser.Blocks.{
  get_x509_certificate, get_private_key, certificate_pem, private_key_pem, read_pems, read_files,
}

abbrev pub hour : ℕ
hour = 3600 * 10 ^ 9

abbrev pub default_ca_certificate_ttl : ℤ
default_ca_certificate_ttl = pos (3650 * 24 * hour)

abbrev pub default_certificate_key_size : ℕ
default_certificate_key_size = 2048

abbrev pub default_leaf_certificate_ttl : ℤ
default_leaf_certificate_ttl = pos (24 * hour)

pub data KeyUsage : Type 0 where
  digital_signature cert_sign key_encipherment : KeyUsage

pub data ExtKeyUsage : Type 0 where
  client_auth server_auth : ExtKeyUsage

-- The x509.Certificate that the code fills in for x509.CreateCertificate; times in nanoseconds.
pub record Template : Type 0 where
  pub serial_number : ℕ
  pub subject : String
  pub not_before : ℤ
  pub not_after : ℤ
  pub is_ca : Bool
  pub basic_constraints_valid : Bool
  pub ext_key_usage : List ExtKeyUsage
  pub key_usage : List KeyUsage
  pub dns_names : List String
  pub email_addresses : List String
  pub ip_addresses : List String
  pub uris : List String
  pub extra_extensions : List Bytes

-- The parent of a new certificate: one that exists, or the template itself.
pub data Parent : Type 0 where
  issued_by : Certificate → Parent
  itself : Template → Parent

-- What the code takes from crypto/rand, crypto/rsa, crypto/tls, crypto/x509, os and time, as it
-- answers in one run: two readings of the clock, and the outcome of each call.
pub record Platform : Type 0 where
  pub read_file : String → Fallible Bytes
  pub rand_int : ℕ → Fallible ℕ
  pub generate_rsa_key : ℕ → Fallible RsaPrivateKey
  pub marshal_pkcs1 : RsaPrivateKey → Bytes
  pub x509_key_pair : Bytes → Bytes → Option Error
  pub create_certificate : Template → Parent → AnyPublicKey → AnyPrivateKey → Fallible Bytes
  pub verify : Certificate → List Certificate → List Certificate → Option Error
  pub now : ℤ
  pub now_later : ℤ

-- The struct `ca`; a nil `pem` is none.
pub record Ca : Type 0 where
  pub pem : Option Bytes
  pub pem_file : String
  pub private_key : Option PrivateKey
  pub certificate : Option X509Certificate
  pub certificates : List X509Certificate

pub data CertificateAuthorityOption : Type 0 where
  with_pem_file : String → CertificateAuthorityOption
  with_pem : Bytes → CertificateAuthorityOption

abbrev pub apply_options : Ca → List CertificateAuthorityOption → Ca
apply_options ca [] = ca
apply_options ca (with_pem_file file ∷ opts) = apply_options (record ca { pem_file = file }) opts
apply_options ca (with_pem pem ∷ opts) = apply_options (record ca { pem = some pem }) opts

abbrev pub is_root : X509CertificateType → Bool
is_root root_ca = true
is_root _ = false

abbrev pub is_intermediate : X509CertificateType → Bool
is_intermediate intermediate_ca = true
is_intermediate _ = false

unfoldable pub get_intermediates : List X509Certificate → List X509Certificate
get_intermediates [] = []
get_intermediates (cert ∷ certs) =
    let ims = get_intermediates certs in if is_intermediate cert.type then cert ∷ ims else ims

unfoldable pub get_trust_anchor : List X509Certificate → Option X509Certificate
get_trust_anchor [] = none
get_trust_anchor (cert ∷ certs) =
    let later = get_trust_anchor certs in if is_root cert.type then some cert else later

-- A pointer field that is set only while it is nil.
abbrev pub first_of_two {ℓ} : {A : Type ℓ} → Option A → Option A → Option A
first_of_two (some a) b = some a
first_of_two none b = b

-- The `switch v.Type` of `init`. A nil certificate, of which no parsed container has one, panics
-- here and not when it is read.
abbrev pub load_one : ContainerType → Container → Ca → Result Ca
load_one private_key_container v ca =
    ok (record ca { private_key = first_of_two ca.private_key (get_private_key v) })
load_one x509_certificate_container v ca = do
  cert ← deref (get_x509_certificate v)
  ok (record ca { certificates = ca.certificates ++ cert ∷ [] })
load_one x509_certificate_request_container v ca = ok ca
load_one public_key_container v ca = ok ca

unfoldable pub load : List Container → Ca → Result Ca
load [] ca = ok ca
load (v ∷ containers) ca = do ca' ← load_one v.type v ca; load containers ca'

-- The loop that breaks at the first CA certificate.
unfoldable pub first_ca : List X509Certificate → Result (Option X509Certificate)
first_ca [] = ok none
first_ca (cert ∷ certs) = do
  x509cert ← deref cert.certificate
  let later = first_ca certs
  if x509cert.is_ca then ok (some cert) else later

unfoldable pub all_certificates : List X509Certificate → Result (List Certificate)
all_certificates [] = ok []
all_certificates (im ∷ ims) = do
  cert ← deref im.certificate
  rest ← all_certificates ims
  ok (cert ∷ rest)

abbrev pub or_missing {ℓ} : {A : Type ℓ} → Error → Option A → Result A
or_missing e none = err e
or_missing e (some a) = ok a

abbrev pub lift {ℓ} : {A : Type ℓ} → Fallible A → Result A
lift (value a) = ok a
lift (fails e) = err e

abbrev pub no_source : Ca → Bool
no_source ca = elim ca.pem [ none ↦ ca.pem_file == "" | some pem ↦ false ]

abbrev pub empty_ca : Ca
empty_ca = record {
  pem = none;
  pem_file = "";
  private_key = none;
  certificate = none;
  certificates = [];
}

module _ (crypto : Crypto) (platform : Platform) where
  -- `ParsePEMFromFile(c.pemFile)` or `ParsePEMs(c.pem)`
  unfoldable pub read_containers : Ca → Result (List Container × List Error)
  read_containers ca =
      if ca.pem_file == ""
      then read_pems crypto (elim ca.pem [ none ↦ [] | some pem ↦ pem ])
      else (lift (read_files platform.read_file (ca.pem_file ∷ [])) >>= read_pems crypto)

  abbrev pub no_errors : List Error → Result (Unit {0})
  no_errors [] = ok tt
  no_errors (e ∷ es) = err (crypto.combine (e ∷ es))

  -- `init` behind the loops: the checks.
  unfoldable pub verify_ca : Ca → Result Ca
  verify_ca ca = do
    key ← or_missing "missing CA private key" ca.private_key
    cert ← or_missing "missing CA certificate" ca.certificate
    cert_pem ← certificate_pem crypto cert
    wrap_if "invalid signing CA certificate"
        (check (platform.x509_key_pair cert_pem (private_key_pem crypto key)))
    ta ← or_missing "missing trust anchor" (get_trust_anchor ca.certificates)
    root ← deref ta.certificate
    ims ← all_certificates (get_intermediates ca.certificates)
    x509cert ← deref cert.certificate
    check (platform.verify x509cert (root ∷ []) ims)
    ok ca

  unfoldable pub init : Ca → Result Ca
  unfolding read_containers verify_ca
  init ca = do
    parsed ←
        wrap_if "could not start cert signer"
          (do found ← read_containers ca; no_errors found.1; ok found.0)
    loaded ← load parsed ca
    chosen ← first_ca loaded.certificates
    verify_ca (record loaded { certificate = chosen })

  unfoldable pub new_certificate_authority : List CertificateAuthorityOption → Result Ca
  unfolding init
  new_certificate_authority opts =
      let ca = apply_options empty_ca opts in
      if no_source ca then err "signing certificate is not specfied" else init ca
