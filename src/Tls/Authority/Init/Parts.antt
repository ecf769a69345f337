-- ===== src/Tls/Authority/Init/Parts.antt =====
-- The parts that the certificates of an authority have: none of their pointers is nil.
use camblet.Base.{
  ◌≡◌, ◌≢◌, refl, sym, ap, eq_iff, All-append, subst, ◌∙◌, inl, inr, true, false, List, [], ◌∷◌,
  ◌++◌, Option, none, some, ◌==◌, All, arith, Bool-cases,
}
use camblet.Base.Result.{Error, ok, deref, PanicsIf, ok_inj}
use mathlib.Core.Option.{some-injective}
use camblet.Base.Fallible.{Fallible, value, fails, bind-value_then, value_inj}
use camblet.Tls.Types.{
  Bytes, Block, Certificate, CertificateCommon, X509Certificate, ContainerType,
  x509_certificate_container, x509_certificate_request_container, public_key_container,
  private_key_container, Container, certificate_object, Crypto,
}
use camblet.Tls.Parser.Keys.{convert_public_key}
use camblet.Tls.Parser.Certificates.{convert_x509_certificate, parse_x509_certificate_from_der}
use camblet.Tls.Parser.Blocks.{contain, get_x509_certificate, parse_pem}
use camblet.Tls.Parser.Blocks.Loop.{outcome, outcome-All}
use camblet.Tls.Authority.Defs.{
  Ca, is_root, is_intermediate, get_intermediates, get_trust_anchor, load, load_one, first_ca,
  all_certificates, or_missing,
}

-- None of the pointers in a certificate is nil.
pub record HasParts (cert : X509Certificate) : Type 0 where
  pub x509cert : Certificate
  pub has_x509cert : cert.certificate ≡ some x509cert
  pub common : CertificateCommon
  pub has_common : cert.common ≡ some common

-- A container of type certificate holds a certificate with all parts.
abbrev pub IsSound : Container → Type 0
IsSound c =
    c.type ≡ x509_certificate_container
    → (cert : X509Certificate) × (get_x509_certificate c ≡ some cert) × HasParts cert

module _ (crypto : Crypto) where
  convert_x509_certificate-HasParts :
      (x : Certificate) (cert : X509Certificate)
      → convert_x509_certificate crypto x ≡ value cert
      → HasParts cert
  unfolding convert_x509_certificate
  convert_x509_certificate-HasParts x cert h =
      bind-value_then (convert_public_key x.public_key) _ h λ key _ made.
        subst HasParts (value_inj _ cert made)
          (record { x509cert = x; has_x509cert = refl; common = _; has_common = refl })

  parse_x509_certificate-HasParts :
      (der : Bytes) (cert : X509Certificate)
      → parse_x509_certificate_from_der crypto der ≡ value cert
      → HasParts cert
  unfolding parse_x509_certificate_from_der
  parse_x509_certificate-HasParts der cert h =
      bind-value_then (crypto.parse_certificate der) _ h
        λ x _ made. convert_x509_certificate-HasParts x cert made

  contain-IsSound :
      (f : Fallible X509Certificate) (c : Container)
      → ((cert : X509Certificate) → f ≡ value cert → HasParts cert)
      → some (contain x509_certificate_container certificate_object f) ≡ some (some c, none)
      → IsSound c
  contain-IsSound (value cert) c parts h =
      subst IsSound (some-injective _ c (ap (λ r. r.0) (some-injective _ (some c, none) h)))
        (λ _. (cert, refl, parts cert refl))
  contain-IsSound (fails e) c parts h = cc

  other-IsSound :
      (block : Block) (c : Container)
      → (block.type == "CERTIFICATE") ≡ false
      → parse_pem crypto block ≡ some (some c, none)
      → c.type ≢ x509_certificate_container
  unfolding parse_pem
  other-IsSound block c e h t = ground arith

  parse_pem-certificate :
      (block : Block)
      → (block.type == "CERTIFICATE") ≡ true
      → parse_pem crypto block
        ≡ some (
            contain x509_certificate_container certificate_object
              (parse_x509_certificate_from_der crypto block.bytes))
  unfolding parse_pem
  parse_pem-certificate block e = let t = (eq_iff block.type "CERTIFICATE").0 e in rw t

  parse_pem-IsSound :
      (block : Block) (c : Container) → parse_pem crypto block ≡ some (some c, none) → IsSound c
  parse_pem-IsSound block c h = elim (Bool-cases (block.type == "CERTIFICATE")) [
    | inl e ↦
        contain-IsSound (parse_x509_certificate_from_der crypto block.bytes) c
          (parse_x509_certificate-HasParts block.bytes) (sym (parse_pem-certificate block e) ∙ h)
    | inr e ↦ λ t. absurd (other-IsSound block c e h t)
  ]

  pub outcome-IsSound :
      (blocks : List Block) (found : List Container × List Error)
      → outcome crypto blocks ≡ some found
      → All IsSound found.0
  outcome-IsSound blocks found h = outcome-All crypto IsSound parse_pem-IsSound blocks found h

load_one-HasParts :
    (t : ContainerType) (v : Container) (ca : Ca)
    → v.type ≡ t
    → IsSound v
    → All HasParts ca.certificates
    → (ca' : Ca) × (load_one t v ca ≡ ok ca') × All HasParts ca'.certificates
load_one-HasParts private_key_container v ca e sound h = (_, refl, h)
load_one-HasParts x509_certificate_request_container v ca e sound h = (ca, refl, h)
load_one-HasParts public_key_container v ca e sound h = (ca, refl, h)
load_one-HasParts x509_certificate_container v ca e sound h =
    let (cert, got, parts) = sound e in
    (
      record ca { certificates = ca.certificates ++ cert ∷ [] },
      rw got,
      All-append HasParts ca.certificates (cert ∷ []) h (parts, tt),
    )

pub load-HasParts :
    (cs : List Container) (ca : Ca)
    → All IsSound cs
    → All HasParts ca.certificates
    → (ca' : Ca) × (load cs ca ≡ ok ca') × All HasParts ca'.certificates
unfolding load
load-HasParts [] ca sound h = (ca, refl, h)
load-HasParts (v ∷ cs) ca sound h =
    let (ca1, one, h1) = load_one-HasParts v.type v ca refl sound.0 h in
    let (ca2, rest, h2) = load-HasParts cs ca1 sound.1 h1 in (ca2, rw one rest, h2)

-- The certificate that is chosen, if any, has all parts, and nothing panics on the way to it.
abbrev pub Chosen : Option X509Certificate → Type 0
Chosen none = Unit
Chosen (some cert) = HasParts cert

pub first_ca-HasParts :
    (certs : List X509Certificate)
    → All HasParts certs
    → (o : Option X509Certificate) × (first_ca certs ≡ ok o) × Chosen o
unfolding first_ca
first_ca-HasParts [] h = (none, refl, tt)
first_ca-HasParts (c ∷ certs) h =
    let p = h.0 in
    let (o, e, q) = first_ca-HasParts certs h.1 in
    elim (Bool-cases p.x509cert.is_ca) [
      | inl ca ↦ (some c, rw p.has_x509cert (rw ca), p)
      | inr no_ca ↦ (o, rw p.has_x509cert (rw no_ca e), q)
    ]

pub all_certificates_total :
    (certs : List X509Certificate)
    → All HasParts certs
    → (xs : List Certificate) × (all_certificates certs ≡ ok xs)
unfolding all_certificates
all_certificates_total [] h = ([], refl)
all_certificates_total (c ∷ certs) h =
    let (xs, e) = all_certificates_total certs h.1 in (h.0.x509cert ∷ xs, rw (h.0.has_x509cert, e))

pub get_intermediates-HasParts :
    (certs : List X509Certificate) → All HasParts certs → All HasParts (get_intermediates certs)
unfolding get_intermediates
get_intermediates-HasParts [] h = tt
get_intermediates-HasParts (c ∷ certs) h =
    let rest = get_intermediates-HasParts certs h.1 in
    elim (Bool-cases (is_intermediate c.type)) [ inl e ↦ rw e (h.0, rest) | inr e ↦ rw e rest ]

pub get_trust_anchor-HasParts :
    (certs : List X509Certificate) → All HasParts certs → Chosen (get_trust_anchor certs)
unfolding get_trust_anchor
get_trust_anchor-HasParts [] h = tt
get_trust_anchor-HasParts (c ∷ certs) h = elim (Bool-cases (is_root c.type)) [
  | inl e ↦ rw e h.0
  | inr e ↦ rw e (get_trust_anchor-HasParts certs h.1)
]

pub or_missing-PanicsIf {ℓ} :
    {A : Type ℓ} (cause : Type 0) (e : Error) (o : Option A) → PanicsIf cause (or_missing e o)
or_missing-PanicsIf cause e none = tt
or_missing-PanicsIf cause e (some a) = tt

pub some-Chosen :
    (o : Option X509Certificate) (cert : X509Certificate) (e : Error)
    → Chosen o
    → or_missing e o ≡ ok cert
    → HasParts cert
some-Chosen none cert e h eq = cc
some-Chosen (some c) cert e h eq = subst HasParts (ok_inj c cert eq) h

pub deref-PanicsIf {ℓ} :
    {A : Type ℓ} (cause : Type 0) (o : Option A) {a : A} → o ≡ some a → PanicsIf cause (deref o)
deref-PanicsIf cause o e = rw e tt
