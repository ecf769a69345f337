-- ===== src/Cli/Ca/Printed.antt =====
-- The blocks of the PEM texts of certificates and keys, and what they parse to.
use mathlib.Core.Option.{some-injective}
use camblet.Base.{
  ◌≡◌, refl, sym, ap, ap₂, ◌∙◌, subst, List, [], ◌∷◌, ◌++◌, All, map, Option, none, some,
  append-nil, append_assoc, Bool, true, false, Bool-cases, inl, inr, if◌then◌else◌,
}
use camblet.Base.Result.{ok, ◌>>=◌, bind-ok_then, ok_inj, deref, wrap_if, wrap_if-ok}
use camblet.Base.Fallible.{value}
use camblet.Tls.Types.{
  Bytes, Block, Certificate, CertificateCommon, PrivateKey, AnyPrivateKey, X509Certificate,
  Container, Crypto,
}
use camblet.Tls.Parser.Keys.{parse_x509_private_key}
use camblet.Tls.Parser.Certificates.{parse_x509_certificate_from_der}
use camblet.Tls.Parser.Blocks.{certificate_block, certificate_pem, private_key_block}
use camblet.Tls.Parser.Blocks.Encoded.{encode_all}
use camblet.Tls.Authority.Defs.{
  Platform, get_intermediates, get_trust_anchor, is_intermediate, is_root, lift,
}
use camblet.Tls.Authority.Issue.{
  CertificateOptions, create_ca_certificate, ca_template, with_defaults, parent_or_itself,
  key_or_own,
}
use camblet.Tls.Authority.Sign.{lift-ok}
use camblet.Tls.Authority.Parsed.{IsFrom}
use camblet.Tls.Authority.Reload.{
  of_certificate, of_key, parse_x509_certificate_from_der-IsParsed, parse_pem-certificate,
  parse_pem-key, Parsed,
}
use camblet.Cli.Ca.{print_chain}

abbrev pub cert_blocks : X509Certificate → List Block
cert_blocks cert = elim cert.common [
  | none ↦ []
  | some common ↦ certificate_block cert.type common ∷ []
]

abbrev pub chain_blocks : List X509Certificate → List Block
chain_blocks [] = []
chain_blocks (cert ∷ chain) = cert_blocks cert ++ chain_blocks chain

module _ (crypto : Crypto) where
  -- A key that was parsed.
  abbrev pub KeyIsFrom : PrivateKey → Type 0
  KeyIsFrom key = (der : Bytes) × (parse_x509_private_key crypto der ≡ ok key)

  pub encode_all-append :
      (bs cs : List Block)
      → encode_all crypto (bs ++ cs) ≡ encode_all crypto bs ++ encode_all crypto cs
  encode_all-append [] cs = refl
  encode_all-append (b ∷ bs) cs =
      ap (λ r. crypto.pem_encode b ++ r) (encode_all-append bs cs)
      ∙ sym (append_assoc (crypto.pem_encode b) (encode_all crypto bs) (encode_all crypto cs))

  encoded_common :
      (cert : X509Certificate) (common : Option CertificateCommon) (pem : Bytes)
      → (deref common >>= λ c. ok (crypto.pem_encode (certificate_block cert.type c))) ≡ ok pem
      → encode_all crypto (elim common [ none ↦ [] | some c ↦ certificate_block cert.type c ∷ [] ])
        ≡ pem
  encoded_common cert none pem h = cc
  encoded_common cert (some c) pem h = append-nil _ ∙ ok_inj _ pem h

  pub encoded_certificate :
      (cert : X509Certificate) (pem : Bytes)
      → certificate_pem crypto cert ≡ ok pem
      → encode_all crypto (cert_blocks cert) ≡ pem
  unfolding certificate_pem
  encoded_certificate cert pem h = encoded_common cert cert.common pem h

  pub encoded_chain :
      (platform : Platform) (chain : List X509Certificate) (out : Bytes)
      → print_chain crypto platform chain ≡ ok out
      → encode_all crypto (chain_blocks chain) ≡ out
  unfolding print_chain
  encoded_chain platform [] out h = ok_inj [] out h
  encoded_chain platform (cert ∷ chain) out h =
      bind-ok_then (certificate_pem crypto cert) _ h λ pem e h'.
        bind-ok_then (print_chain crypto platform chain) _ h' λ rest e' made.
          encode_all-append (cert_blocks cert) (chain_blocks chain)
          ∙ ap₂ ◌++◌ (encoded_certificate cert pem e) (encoded_chain platform chain rest e')
          ∙ ok_inj (pem ++ rest) out made

  pub Parsed-append :
      (bs bs' : List Block) (cs cs' : List Container)
      → Parsed crypto bs cs
      → Parsed crypto bs' cs'
      → Parsed crypto (bs ++ bs') (cs ++ cs')
  Parsed-append [] bs' [] cs' p q = q
  Parsed-append [] bs' (c ∷ cs) cs' p q = elim p [ ]
  Parsed-append (b ∷ bs) bs' [] cs' p q = elim p [ ]
  Parsed-append (b ∷ bs) bs' (c ∷ cs) cs' (e, p) q = (e, Parsed-append bs bs' cs cs' p q)

  pub key_block-Parsed :
      (key : PrivateKey)
      → KeyIsFrom key
      → Parsed crypto (private_key_block key ∷ []) (of_key key ∷ [])
  key_block-Parsed key (der, e) = (parse_pem-key crypto der key e, tt)

  module _
      (keeps_raw : (der : Bytes) (cert : Certificate)
        → crypto.parse_certificate der ≡ value cert
        → cert.raw ≡ der) where
    pub cert_blocks-Parsed :
        (cert : X509Certificate)
        → IsFrom crypto cert
        → Parsed crypto (cert_blocks cert) (of_certificate cert ∷ [])
    cert_blocks-Parsed cert (der, e) =
        let (common, parsed) =
          parse_x509_certificate_from_der-IsParsed crypto keeps_raw der cert e in
        subst
          (λ o.
            Parsed crypto (elim o [ none ↦ [] | some c ↦ certificate_block cert.type c ∷ [] ])
              (of_certificate cert ∷ []))
          (sym parsed.has_common) (parse_pem-certificate crypto cert common parsed, tt)

    pub chain_blocks-Parsed :
        (chain : List X509Certificate)
        → All (IsFrom crypto) chain
        → Parsed crypto (chain_blocks chain) (map of_certificate chain)
    chain_blocks-Parsed [] all = tt
    chain_blocks-Parsed (cert ∷ chain) (from, all) =
        Parsed-append (cert_blocks cert) (chain_blocks chain) (of_certificate cert ∷ [])
          (map of_certificate chain) (cert_blocks-Parsed cert from) (chain_blocks-Parsed chain all)

  pub get_intermediates-All :
      (certs : List X509Certificate)
      → All (IsFrom crypto) certs
      → All (IsFrom crypto) (get_intermediates certs)
  unfolding get_intermediates
  get_intermediates-All [] all = tt
  get_intermediates-All (cert ∷ certs) (from, all) =
      go (is_intermediate cert.type) (get_intermediates-All certs all)
    where
      go :
          (b : Bool)
          → All (IsFrom crypto) (get_intermediates certs)
          → All
              (IsFrom crypto)
              (if◌then◌else◌ b (cert ∷ get_intermediates certs) (get_intermediates certs))
      go true rest = (from, rest)
      go false rest = rest

  pub get_trust_anchor-IsFrom :
      (certs : List X509Certificate) (ta : X509Certificate)
      → get_trust_anchor certs ≡ some ta
      → All (IsFrom crypto) certs
      → IsFrom crypto ta
  unfolding get_trust_anchor
  get_trust_anchor-IsFrom [] ta h all = cc
  get_trust_anchor-IsFrom (cert ∷ certs) ta h (from, all) = elim (Bool-cases (is_root cert.type)) [
    | inl e ↦ subst (IsFrom crypto) (some-injective cert ta (rw e at h)) from
    | inr e ↦ get_trust_anchor-IsFrom certs ta (rw e at h) all
  ]

  pub create_ca_certificate-IsFrom :
      (platform : Platform) (opts : CertificateOptions) (parent : Option Certificate)
      (priv : Option AnyPrivateKey) (cert : X509Certificate) (key : PrivateKey)
      → create_ca_certificate crypto platform opts parent priv ≡ ok (cert, key)
      → IsFrom crypto cert × KeyIsFrom key
  unfolding create_ca_certificate
  create_ca_certificate-IsFrom platform opts parent priv cert key h =
      let full = with_defaults opts in
      bind-ok_then (lift (platform.rand_int _)) _ h λ serial _ h1.
        bind-ok_then (wrap_if _ (lift (platform.generate_rsa_key full.key_size))) _ h1 λ own _ h2.
          let ca = ca_template crypto platform serial full in
          bind-ok_then
            (wrap_if _ (
              lift (
                platform.create_certificate ca (parent_or_itself parent ca) _
                  (key_or_own priv own))))
            _ h2
            λ der _ h3.
              let parse_key = parse_x509_private_key crypto (platform.marshal_pkcs1 own) in
              bind-ok_then parse_key _ h3 λ k e_k h4.
                let parse = parse_x509_certificate_from_der crypto der in
                bind-ok_then (wrap_if _ (lift parse)) _ h4 λ made e_made h5.
                  let both = ok_inj (made, k) (cert, key) h5 in
                  (
                    (
                      der,
                      lift-ok parse made (wrap_if-ok _ (lift parse) e_made)
                          ∙ ap (λ r. value r.0) both,
                    ),
                    (platform.marshal_pkcs1 own, e_k ∙ ap (λ r. ok r.1) both),
                  )
