-- ===== src/Tls/Authority/Parsed.antt =====
-- The certificates of an authority were parsed from DER.
use camblet.Base.{
  ◌<◌, ◌≡◌, refl, sym, ap, ◌∙◌, subst, List, [], ◌∷◌, All, All-append, Option, none, some, inl, inr,
  length, Bool-cases, ◌==◌, ◌||◌,
}
use mathlib.Core.Option.{some-injective}
use camblet.Base.Result.{
  Error, Result, ok, err, panics, ◌>>=◌, ◌>>◌, bind-ok_then, wrap_if, wrap_if-ok, ok_inj, deref,
  deref-ok, check,
}
use camblet.Base.Fallible.{Fallible, value, fails}
use camblet.Tls.Types.{
  Bytes, Block, PrivateKey, X509Certificate, Container, ContainerType, x509_certificate_container,
  x509_certificate_request_container, public_key_container, private_key_container, Object,
  certificate_object, request_object, public_key_object, private_key_object, Crypto,
}
use camblet.Tls.Parser.Keys.{parse_x509_private_key}
use camblet.Tls.Parser.Certificates.{parse_x509_certificate_from_der}
use camblet.Tls.Parser.Blocks.{
  contain, contain_private_key, certificate_pem, private_key_pem, parse_pem, parse_pems, read_pems,
  get_x509_certificate,
}
use camblet.Tls.Parser.Blocks.Loop.{outcome-All, parse_pems-Decodes}
use camblet.Tls.Authority.Defs.{
  Platform, Ca, load_one, load, first_ca, verify_ca, init, empty_ca, apply_options, no_source,
  read_containers, no_errors, lift, CertificateAuthorityOption, with_pem_file, with_pem,
  get_trust_anchor, get_intermediates, all_certificates, new_certificate_authority, or_missing,
}

pub apply_options-certificates :
    (opts : List CertificateAuthorityOption) (ca : Ca)
    → (apply_options ca opts).certificates ≡ ca.certificates
apply_options-certificates [] ca = refl
apply_options-certificates (with_pem_file file ∷ opts) ca =
    apply_options-certificates opts (record ca { pem_file = file })
apply_options-certificates (with_pem pem ∷ opts) ca =
    apply_options-certificates opts (record ca { pem = some pem })

module _ (crypto : Crypto) (platform : Platform) where
  -- The checks change nothing.
  pub verify_ca-same : (c ca : Ca) → verify_ca crypto platform c ≡ ok ca → c ≡ ca
  unfolding verify_ca
  verify_ca-same c ca h = bind-ok_then (or_missing _ c.private_key) _ h λ key _ h1.
      bind-ok_then (or_missing _ c.certificate) _ h1 λ cert _ h2.
        bind-ok_then (certificate_pem crypto cert) _ h2 λ pem _ h3.
          let pair = platform.x509_key_pair pem (private_key_pem crypto key) in
          bind-ok_then (wrap_if _ (check pair)) _ h3 λ _ _ h4.
            bind-ok_then (or_missing _ (get_trust_anchor c.certificates)) _ h4 λ ta _ h5.
              bind-ok_then (deref ta.certificate) _ h5 λ root _ h6.
                bind-ok_then (all_certificates (get_intermediates c.certificates)) _ h6 λ ims _ h7.
                  bind-ok_then (deref cert.certificate) _ h7 λ x _ h8.
                    bind-ok_then (check (platform.verify x (root ∷ []) ims)) _ h8
                      λ _ _ h9. ok_inj c ca h9

module _ (crypto : Crypto) where
  abbrev pub IsFrom : X509Certificate → Type 0
  IsFrom cert = (der : Bytes) × (parse_x509_certificate_from_der crypto der ≡ value cert)

  -- A container of the type of certificates holds one that was parsed.
  abbrev pub HoldsParsed : Container → Type 0
  HoldsParsed c =
      (cert : X509Certificate)
      → c.type ≡ x509_certificate_container
      → get_x509_certificate c ≡ some cert
      → IsFrom cert

  other_type :
      {A : Type 0} (type : ContainerType) (hold : Option A → Object) (f : Fallible A)
      (c : Container)
      → ¬ (type ≡ x509_certificate_container)
      → some (contain type hold f) ≡ some (some c, none)
      → HoldsParsed c
  other_type type hold (value a) c differs h = λ cert t _. absurd (
      differs (
        ap (λ x. x.type) (some-injective _ c (ap (λ p. p.0) (some-injective _ (some c, none) h)))
        ∙ t))
  other_type type hold (fails e) c differs h = cc

  key_type :
      (r : Result PrivateKey) (c : Container)
      → contain_private_key r ≡ some (some c, none)
      → HoldsParsed c
  key_type (ok key) c h =
      other_type private_key_container private_key_object (value key) c (λ d. cc) h
  key_type (err e) c h = other_type private_key_container private_key_object (fails e) c (λ d. cc) h
  key_type panics c h = cc

  certificate_type :
      (der : Bytes) (f : Fallible X509Certificate) (c : Container)
      → parse_x509_certificate_from_der crypto der ≡ f
      → some (contain x509_certificate_container certificate_object f) ≡ some (some c, none)
      → HoldsParsed c
  certificate_type der (fails e) c p h = cc
  certificate_type der (value made) c p h = λ cert t get.
      let same = some-injective _ c (ap (λ q. q.0) (some-injective _ (some c, none) h)) in
      (der, p ∙ ap value (some-injective made cert (ap get_x509_certificate same ∙ get)))

  parse_pem-HoldsParsed :
      (block : Block) (c : Container) → parse_pem crypto block ≡ some (some c, none) → HoldsParsed c
  unfolding parse_pem
  parse_pem-HoldsParsed block c h = elim (Bool-cases (block.type == "CERTIFICATE REQUEST")) [
    | inl e ↦ other_type x509_certificate_request_container request_object _ c (λ d. cc) (rw e at h)
    | inr e1 ↦ elim (Bool-cases (block.type == "CERTIFICATE")) [
      | inl e ↦
          certificate_type block.bytes (parse_x509_certificate_from_der crypto block.bytes) c refl
            (rw (e1, e) at h)
      | inr e2 ↦ elim (Bool-cases (block.type == "PUBLIC KEY")) [
        | inl e ↦
            other_type public_key_container public_key_object _ c (λ d. cc) (rw (e1, e2, e) at h)
        | inr e3 ↦
            elim (Bool-cases (
              block.type == "PRIVATE KEY"
              || block.type == "RSA PRIVATE KEY"
              || block.type == "EC PRIVATE KEY")) [
                | inl e ↦
                    key_type (parse_x509_private_key crypto block.bytes) c (rw (e1, e2, e3, e) at h)
                | inr e ↦ cc (rw (e1, e2, e3, e) at h)
              ]
      ]
    ]
  ]

  load_one-All :
      (type : ContainerType) (v : Container) (ca made : Ca)
      → v.type ≡ type
      → load_one type v ca ≡ ok made
      → HoldsParsed v
      → All IsFrom ca.certificates
      → All IsFrom made.certificates
  load_one-All private_key_container v ca made t h holds all =
      subst (λ c. All IsFrom c.certificates) (ok_inj _ made h) all
  load_one-All x509_certificate_request_container v ca made t h holds all =
      subst (λ c. All IsFrom c.certificates) (ok_inj ca made h) all
  load_one-All public_key_container v ca made t h holds all =
      subst (λ c. All IsFrom c.certificates) (ok_inj ca made h) all
  load_one-All x509_certificate_container v ca made t h holds all =
      bind-ok_then (deref (get_x509_certificate v)) _ h λ cert e h'.
        subst (λ c. All IsFrom c.certificates) (ok_inj _ made h')
          (All-append IsFrom ca.certificates (cert ∷ []) all
            (holds cert t (deref-ok (get_x509_certificate v) e), tt))

  load-All :
      (containers : List Container) (ca made : Ca)
      → load containers ca ≡ ok made
      → All HoldsParsed containers
      → All IsFrom ca.certificates
      → All IsFrom made.certificates
  unfolding load
  load-All [] ca made h holds all = subst (λ c. All IsFrom c.certificates) (ok_inj ca made h) all
  load-All (v ∷ vs) ca made h (holds, more) all =
      bind-ok_then (load_one v.type v ca) _ h
        λ ca' e h'. load-All vs ca' made h' more (load_one-All v.type v ca ca' refl e holds all)

  module _ (platform : Platform)
      (pem_decode_consumes : (content rest : Bytes) (block : Block)
        → crypto.pem_decode content ≡ some (block, rest)
        → length rest < length content) where
    read_pems-All :
        (content : Bytes) (found : List Container × List Error)
        → read_pems crypto content ≡ ok found
        → All HoldsParsed found.0
    unfolding read_pems
    read_pems-All content found h =
        let (blocks, _, parses) = parse_pems-Decodes crypto pem_decode_consumes content in
        outcome-All crypto HoldsParsed parse_pem-HoldsParsed blocks found
          (sym parses ∙ deref-ok (parse_pems crypto content) h)

    read_containers-All :
        (ca : Ca) (found : List Container × List Error)
        → read_containers crypto platform ca ≡ ok found
        → All HoldsParsed found.0
    unfolding read_containers
    read_containers-All ca found h = elim (Bool-cases (ca.pem_file == "")) [
      | inl e ↦ read_pems-All _ found (rw e at h)
      | inr e ↦ bind-ok_then (lift _) _ (rw e at h) λ content _ h'. read_pems-All content found h'
    ]

    no_errors-All :
        (found : List Container × List Error) (parsed : List Container)
        → (no_errors crypto platform found.1 >> ok found.0) ≡ ok parsed
        → All HoldsParsed found.0
        → All HoldsParsed parsed
    no_errors-All (cs, []) parsed h all = subst (All HoldsParsed) (ok_inj cs parsed h) all
    no_errors-All (cs, e ∷ es) parsed h all = cc

    -- Every certificate of an authority was parsed.
    pub new_certificate_authority-All :
        (opts : List CertificateAuthorityOption) (ca : Ca)
        → new_certificate_authority crypto platform opts ≡ ok ca
        → All IsFrom ca.certificates
    unfolding new_certificate_authority init
    new_certificate_authority-All opts ca h =
        let given = apply_options empty_ca opts in
        elim (Bool-cases (no_source given)) [
          | inl e ↦ cc (rw e at h)
          | inr e ↦
              bind-ok_then
                (wrap_if _ (
                  read_containers crypto platform given >>= λ found.
                  no_errors crypto platform found.1 >> ok found.0))
                _ (rw e at h)
                λ parsed e_parsed h1. bind-ok_then (load parsed given) _ h1 λ loaded e_loaded h2.
                  bind-ok_then (first_ca loaded.certificates) _ h2 λ chosen _ h3.
                    let reads =
                      wrap_if-ok _
                        (read_containers crypto platform given >>= λ found.
                          no_errors crypto platform found.1 >> ok found.0)
                        e_parsed in
                    bind-ok_then (read_containers crypto platform given) _ reads
                      λ found e_found kept.
                        subst (λ c. All IsFrom c.certificates)
                          (verify_ca-same crypto platform _ ca h3)
                          (load-All parsed given loaded e_loaded
                            (no_errors-All found parsed kept
                              (read_containers-All given found e_found))
                            (subst (All IsFrom) (sym (apply_options-certificates opts empty_ca))
                              tt))
        ]
