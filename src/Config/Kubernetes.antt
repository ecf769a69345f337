-- ===== src/Config/Kubernetes.antt =====
-- pkg/config/metadata/collectors/kubernetes.go and pkg/util/util.go.
use Prim.Native.String.{◌++◌ as concat}
use camblet.Base.{
  ℕ, Bool, true, false, ◌&&◌, ◌||◌, List, [], ◌∷◌, ◌++◌, Option, none, some, String, ◌==◌,
  if◌then◌else◌, nat_eq, leb,
}
use camblet.Base.Int.{ℤ, pos, is_zero}
use camblet.Base.Decimal.{itoa}
use camblet.Base.Result.{Error, Result, ok, err, ◌>>=◌, ◌>>◌, deref, check}
use camblet.Base.Fallible.{Fallible, value, fails}
use camblet.Tls.Types.{
  Bytes, Container, Crypto, ContainerType, private_key_container, x509_certificate_container,
  x509_certificate_request_container, public_key_container,
}
use camblet.Tls.Parser.Blocks.{
  get_private_key, get_x509_certificate, certificate_pem, private_key_pem, read_pems,
}
use camblet.Tls.Authority.Defs.{lift}

-- PointerToBool
abbrev pub pointer_to_bool : Option Bool → Bool
pointer_to_bool none = false
pointer_to_bool (some b) = b

abbrev pub or_default : Bool → Option Bool → Option Bool
or_default d none = some d
or_default d (some b) = some b

abbrev pub or_text : String → String → String
or_text d text = if text == "" then d else text

-- The texts that may name files are their bytes.
pub record KubernetesCollectorConfig : Type 0 where
  pub enabled : Option Bool
  pub kubelet_host : String
  pub kubelet_port : ℤ
  pub kubelet_ca : Bytes
  pub skip_kubelet_verification : Option Bool
  pub credentials : Bytes

pub data CredentialType : Type 0 where
  no_credential_type jwt x509 : CredentialType

pub record Credentials : Type 0 where
  pub credential_type : CredentialType
  pub token : Bytes
  pub cert_pem : Bytes
  pub key_pem : Bytes

abbrev pub no_credentials : Credentials
no_credentials = record {
  credential_type = no_credential_type;
  token = [];
  cert_pem = [];
  key_pem = [];
}

-- strings.Split at commas
unfoldable pub split_commas : Bytes → List Bytes
split_commas [] = [] ∷ []
split_commas (c ∷ cs) = elim (split_commas cs) [
  | [] ↦ (c ∷ []) ∷ []
  | part ∷ parts ↦ if nat_eq c b',' then [] ∷ part ∷ parts else ((c ∷ part) ∷ parts)
]

abbrev pub trim_left : (ℕ → Bool) → Bytes → Bytes
trim_left p [] = []
trim_left p (c ∷ cs) = let rest = trim_left p cs in if p c then rest else (c ∷ cs)

abbrev pub trim_right : (ℕ → Bool) → Bytes → Bytes
trim_right p [] = []
trim_right p (c ∷ cs) = elim (trim_right p cs) [
  | [] ↦ if p c then [] else (c ∷ [])
  | d ∷ ds ↦ c ∷ d ∷ ds
]

abbrev pub trim : (ℕ → Bool) → Bytes → Bytes
trim p cs = trim_right p (trim_left p cs)

-- unicode.IsSpace in ASCII
abbrev pub is_space : ℕ → Bool
is_space c = nat_eq c 32 || leb 9 c && leb c 13

abbrev pub is_newline : ℕ → Bool
is_newline c = nat_eq c 10

-- The class [a-zA-Z0-9_=] of `jwtRegex`
abbrev pub in_word : ℕ → Bool
in_word c =
    leb 97 c && leb c 122
    || leb 65 c && leb c 90
    || leb 48 c && leb c 57
    || nat_eq c 95
    || nat_eq c 61

-- A word of one character at least and a full stop, and what follows; `started` is whether a
-- character of the word was read.
abbrev pub after_word : Bool → Bytes → Option Bytes
after_word started [] = none
after_word started (c ∷ cs) =
    let more = after_word true cs in
    if in_word c then more else if nat_eq c 46 && started then some cs else none

-- `jwtRegex`: the third word may be empty, so that two words and their full stops are a match.
unfoldable pub matches_jwt : Bytes → Bool
matches_jwt content = elim (after_word false content) [
  | none ↦ false
  | some rest ↦ elim (after_word false rest) [ none ↦ false | some last ↦ true ]
]

abbrev pub or_port : ℤ → ℤ
or_port p = if is_zero p then pos 10250 else p

abbrev pub with_kubelet_defaults : KubernetesCollectorConfig → KubernetesCollectorConfig
with_kubelet_defaults c = record c {
  kubelet_host = or_text "127.0.0.1" c.kubelet_host;
  kubelet_port = or_port c.kubelet_port;
  skip_kubelet_verification = or_default false c.skip_kubelet_verification;
}

module _ (crypto : Crypto) (read_file : Bytes → Fallible Bytes) where
  unfoldable pub read_contents : List Bytes → Fallible Bytes
  read_contents [] = value []
  read_contents (path ∷ paths) = elim (read_file (trim is_space path)) [
    | fails e ↦ fails e
    | value c ↦ elim (read_contents paths) [ fails e ↦ fails e | value cs ↦ value (c ++ cs) ]
  ]

  unfoldable pub get_content : Bytes → Fallible Bytes
  unfolding split_commas read_contents
  get_content [] = value []
  get_content (c ∷ cs) =
      if nat_eq c b'/'
      then elim (read_contents (split_commas (c ∷ cs))) [
        | fails e ↦ fails e
        | value contents ↦ value (trim is_newline contents)
      ]
      else value (c ∷ cs)

  abbrev pub key_pem_of : Container → Result Bytes
  key_pem_of item = do key ← deref (get_private_key item); ok (private_key_pem crypto key)

  abbrev pub cert_pem_of : Container → Result Bytes
  cert_pem_of item = do cert ← deref (get_x509_certificate item); certificate_pem crypto cert

  -- The first PEM of a kind is kept.
  abbrev pub once : Bytes → Result Bytes → Result Bytes
  once [] pem = pem
  once (c ∷ cs) pem = ok (c ∷ cs)

  abbrev pub add_item : ContainerType → Container → Credentials → Result Credentials
  add_item private_key_container item cred = do
    pem ← once cred.key_pem (key_pem_of item)
    ok (record cred { key_pem = pem })
  add_item x509_certificate_container item cred = do
    pem ← once cred.cert_pem (cert_pem_of item)
    ok (record cred { cert_pem = pem })
  add_item x509_certificate_request_container item cred = ok cred
  add_item public_key_container item cred = ok cred

  unfoldable pub add_items : List Container → Credentials → Result Credentials
  add_items [] cred = ok cred
  add_items (item ∷ items) cred = do cred' ← add_item item.type item cred; add_items items cred'

  abbrev pub first_error : List Error → Option Error
  first_error [] = none
  first_error (e ∷ es) = some (crypto.combine (e ∷ es))

  abbrev pub x509_credentials : Bytes → Result Credentials
  x509_credentials content = do
    parsed ← read_pems crypto content
    check (first_error parsed.1)
    add_items parsed.0 (record no_credentials { credential_type = x509 })

  abbrev pub credentials_of : Bytes → Result Credentials
  credentials_of [] = ok no_credentials
  credentials_of (c ∷ cs) =
      if matches_jwt (c ∷ cs)
      then ok (record no_credentials { credential_type = jwt; token = c ∷ cs })
      else x509_credentials (c ∷ cs)

  unfoldable pub get_credentials : KubernetesCollectorConfig → Result Credentials
  unfolding get_content matches_jwt add_items
  get_credentials c = do content ← lift (get_content c.credentials); credentials_of content

  -- `Validate` of KubernetesCollectorConfig
  unfoldable pub validate_kubernetes : KubernetesCollectorConfig → Result KubernetesCollectorConfig
  unfolding get_credentials
  validate_kubernetes c =
      let checked =
        get_credentials (with_kubelet_defaults c) >>= λ cred. ok (with_kubelet_defaults c) in
      if pointer_to_bool c.enabled then checked else ok c

-- The options of the kubelet client.
pub data ClientOption : Type 0 where
  with_address : String → ClientOption
  with_skip_cert_verify : ClientOption
  with_ca_pems with_client_cert_pem with_access_token : Bytes → ClientOption

abbrev pub credential_options : Credentials → CredentialType → List ClientOption
credential_options creds x509 = with_client_cert_pem (creds.cert_pem ++ creds.key_pem) ∷ []
credential_options creds jwt = with_access_token creds.token ∷ []
credential_options creds no_credential_type = []

-- `Instantiate` of KubernetesCollectorConfig, up to what `new_client` makes of the options
unfoldable pub kubelet_options :
    Crypto → (Bytes → Fallible Bytes) → KubernetesCollectorConfig → Result (List ClientOption)
unfolding get_credentials get_content itoa
kubelet_options crypto read_file c =
    let opts = lift (get_content crypto read_file c.kubelet_ca) >>= λ ca.
    get_credentials crypto read_file c >>= λ creds. ok (
      with_address (concat c.kubelet_host (concat ":" (itoa c.kubelet_port)))
        ∷ (if pointer_to_bool c.skip_kubelet_verification then with_skip_cert_verify ∷ [] else [])
      ++ with_ca_pems ca ∷ credential_options creds creds.credential_type) in
    if pointer_to_bool c.enabled then opts else err "collector is disabled"
