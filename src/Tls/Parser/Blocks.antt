-- ===== src/Tls/Parser/Blocks.antt =====
-- PEM blocks, containers and the loop of `ParsePEMs`.
pub mod Loop
pub mod Reparse
pub mod Encoded
pub mod Panics
use Prim.Native.String.{◌++◌ as concat}
use camblet.Base.{
  ℕ, zero, suc, ◌≡◌, Bool, true, false, ◌||◌, List, [], ◌∷◌, ◌++◌, Option, none, some, String, ◌==◌,
  length, if◌then◌else◌,
}
use camblet.Base.Result.{Error, Result, ok, err, panics, ◌>>=◌, deref}
use camblet.Base.Fallible.{Fallible, value, fails}
use camblet.Tls.Types.{
  Bytes, Block, PublicKey, PrivateKey, CertificateCommon, X509CertificateType, root_ca,
  intermediate_ca, leaf, no_type, X509Certificate, X509CertificateRequest, ContainerType, Container,
  x509_certificate_container, x509_certificate_request_container, public_key_container,
  private_key_container, Object, certificate_object, request_object, public_key_object,
  private_key_object, no_public_key, no_private_key, Crypto,
}
use camblet.Tls.Parser.Keys.{parse_x509_public_key, parse_x509_private_key}
use camblet.Tls.Parser.Certificates.{
  parse_x509_certificate_from_der, parse_x509_certificate_request_from_der,
}

-- The type assertions of the getters: an object of another type gives the zero value.
abbrev pub as_certificate : Object → Option X509Certificate
as_certificate (certificate_object o) = o
as_certificate _ = some (record { common = none; type = no_type; certificate = none })

abbrev pub as_request : Object → Option X509CertificateRequest
as_request (request_object o) = o
as_request _ = some (record { common = none; certificate_request = none })

abbrev pub as_public_key : Object → Option PublicKey
as_public_key (public_key_object o) = o
as_public_key _ = some no_public_key

abbrev pub as_private_key : Object → Option PrivateKey
as_private_key (private_key_object o) = o
as_private_key _ = some no_private_key

abbrev pub get_x509_certificate : Container → Option X509Certificate
get_x509_certificate c = as_certificate c.object

abbrev pub get_x509_certificate_request : Container → Option X509CertificateRequest
get_x509_certificate_request c = as_request c.object

abbrev pub get_public_key : Container → Option PublicKey
get_public_key c = as_public_key c.object

abbrev pub get_private_key : Container → Option PrivateKey
get_private_key c = as_private_key c.object

-- strings.Join
abbrev pub join : String → List String → String
join separator [] = ""
join separator (x ∷ []) = x
join separator (x ∷ y ∷ ys) = concat x (concat separator (join separator (y ∷ ys)))

abbrev pub type_text : X509CertificateType → String
type_text root_ca = "ROOT CA"
type_text intermediate_ca = "INTERMEDIATE CA"
type_text leaf = "LEAF CERTIFICATE"
type_text no_type = ""

-- `if len(values) > 0 { headers[name] = strings.Join(values, ",") }`
abbrev pub header : String → List String → List (String × String)
header name [] = []
header name (x ∷ xs) = (name, join "," (x ∷ xs)) ∷ []

abbrev pub get_pem_headers : X509CertificateType → CertificateCommon → List (String × String)
get_pem_headers type c =
    ("Subject", c.subject)
    ∷ ("Issuer", c.issuer)
    ∷ ("Type", type_text type)
    ∷ (header "DNSNames" c.dns_names
        ++ (header "URIs" c.uris
            ++ (header "EmailAddresses" c.email_addresses ++ header "IPAddresses" c.ip_addresses)))

-- The blocks that the `GetPEM` methods encode; a nil CertificateCommon is a nil dereference.
abbrev pub certificate_block : X509CertificateType → CertificateCommon → Block
certificate_block type c = record {
  type = "CERTIFICATE";
  headers = get_pem_headers type c;
  bytes = c.raw;
}

abbrev pub private_key_block : PrivateKey → Block
private_key_block key = record { type = "PRIVATE KEY"; headers = []; bytes = key.raw }

abbrev pub public_key_block : PublicKey → Block
public_key_block key = record { type = "PUBLIC KEY"; headers = []; bytes = key.raw }

abbrev pub request_block : CertificateCommon → Block
request_block c = record { type = "CERTIFICATE REQUEST"; headers = []; bytes = c.raw }

-- A container with what the parser returned: a nil pointer beside an error.
abbrev pub contain {ℓ} :
    {A : Type ℓ}
    → ContainerType
    → (Option A → Object)
    → Fallible A
    → Option Container × Option Error
contain type hold (value obj) = (some (record { type = type; object = hold (some obj) }), none)
contain type hold (fails e) = (some (record { type = type; object = hold none }), some e)

-- What a branch of `parsePEM` returns; `none` is a panic.
abbrev pub contain_private_key : Result PrivateKey → Option (Option Container × Option Error)
contain_private_key (ok obj) = some (contain private_key_container private_key_object (value obj))
contain_private_key (err e) = some (contain private_key_container private_key_object (fails e))
contain_private_key panics = none

abbrev pub is_empty : Bytes → Bool
is_empty [] = true
is_empty (b ∷ bs) = false

abbrev pub option_list : Option Container → List Container
option_list none = []
option_list (some c) = c ∷ []

module _ (crypto : Crypto) where
  unfoldable pub certificate_pem : X509Certificate → Result Bytes
  certificate_pem cert = do
    common ← deref cert.common
    ok (crypto.pem_encode (certificate_block cert.type common))

  unfoldable pub request_pem : X509CertificateRequest → Result Bytes
  request_pem req = do common ← deref req.common; ok (crypto.pem_encode (request_block common))

  abbrev pub public_key_pem : PublicKey → Bytes
  public_key_pem key = crypto.pem_encode (public_key_block key)

  abbrev pub private_key_pem : PrivateKey → Bytes
  private_key_pem key = crypto.pem_encode (private_key_block key)

  -- `none` is a panic.
  unfoldable pub parse_pem : Block → Option (Option Container × Option Error)
  parse_pem block =
      if block.type == "CERTIFICATE REQUEST"
      then some (
          contain x509_certificate_request_container request_object
            (parse_x509_certificate_request_from_der crypto block.bytes))
      else if block.type == "CERTIFICATE"
      then some (
          contain x509_certificate_container certificate_object
            (parse_x509_certificate_from_der crypto block.bytes))
      else if block.type == "PUBLIC KEY"
      then some (
          contain public_key_container public_key_object (parse_x509_public_key crypto block.bytes))
      else if block.type == "PRIVATE KEY"
          || block.type == "RSA PRIVATE KEY"
          || block.type == "EC PRIVATE KEY"
      then contain_private_key (parse_x509_private_key crypto block.bytes)
      else some (none, some "unsupported PEM type")

  -- The loop of `ParsePEMs`; `none` is a panic in it, or means that the fuel ran out.
  unfoldable pub parse_loop :
      ℕ → Bytes → List Container → List Error → Option (List Container × List Error)
  parse_loop zero content containers multierr = none
  parse_loop (suc fuel) content containers multierr = elim (crypto.pem_decode content) [
    | none ↦ some (containers, multierr)
    | some (block, rest) ↦ elim (parse_pem block) [
      | none ↦ none
      | some (container, some e) ↦ parse_loop fuel rest containers (multierr ++ e ∷ [])
      | some (container, none) ↦
          let found = containers ++ option_list container in
          let more = parse_loop fuel rest found multierr in
          if is_empty rest then some (found, multierr) else more
    ]
  ]

  -- Each round consumes a byte at least.
  unfoldable pub parse_pems : Bytes → Option (List Container × List Error)
  unfolding parse_loop
  parse_pems content = parse_loop (suc (length content)) content [] []

  -- The loop as its callers see it.
  unfoldable pub read_pems : Bytes → Result (List Container × List Error)
  unfolding parse_pems
  read_pems content = deref (parse_pems content)

-- `ParsePEMFromFile` before `ParsePEMs`: the contents of the files, in order.
unfoldable pub read_files : (String → Fallible Bytes) → List String → Fallible Bytes
read_files read_file [] = value []
read_files read_file (file ∷ files) = elim (read_file file) [
  | fails e ↦ fails e
  | value content ↦ elim (read_files read_file files) [
    | fails e ↦ fails e
    | value contents ↦ value (content ++ contents)
  ]
]
