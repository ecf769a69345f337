-- ===== src/Tls/Authority/Sign.antt =====
-- Signing requests, and creating CA certificates.
use Prim.Native.Nat.{◌^◌}
use camblet.Base.{
  ℕ, ◌≡◌, ◌↔◌, refl, sym, ap, ◌∙◌, inl, inr, true, false, List, [], ◌∷◌, Option, none, some, All,
  arith, Bool-cases, if◌then◌else◌, nat_eq,
}
use camblet.Base.Int.{ℤ, ◌+ℤ◌, is_zero}
use camblet.Base.Result.{ok, panics, deref, bind-ok_then, wrap_if, wrap_if-ok, deref-ok, ok_inj}
use camblet.Base.Fallible.{Fallible, value, fails}
use camblet.Tls.Types.{
  Bytes, RsaPrivateKey, AnyPrivateKey, rsa_public, rsa_private, Certificate, CertificateRequest,
  PrivateKey, X509CertificateType, intermediate_ca, X509Certificate, Crypto,
}
use camblet.Tls.Parser.Keys.{parse_x509_private_key}
use camblet.Tls.Parser.Certificates.{parse_x509_certificate_from_der}
use camblet.Tls.Authority.Defs.{
  Platform, Ca, Template, issued_by, itself, lift, get_intermediates, is_intermediate,
  default_leaf_certificate_ttl, default_ca_certificate_ttl,
}
use camblet.Tls.Authority.Issue.{
  CertificateOptions, assert_rsa, sign_certificate_request, create_self_signed_ca_certificate,
  leaf_template, ca_template, with_defaults,
}

assert_rsa-ok :
    (key : Option AnyPrivateKey) (k : RsaPrivateKey)
    → assert_rsa key ≡ ok k
    → key ≡ some (rsa_private k)
assert_rsa-ok key k h = ground arith

pub lift-ok {ℓ} : {A : Type ℓ} (f : Fallible A) (a : A) → lift f ≡ ok a → f ≡ value a
lift-ok (value b) a h = cc
lift-ok (fails e) a h = cc

module _ (crypto : Crypto) (platform : Platform) (c : Ca) (key : PrivateKey)
    (has_key : c.private_key ≡ some key) where
  -- A missing request panics.
  pub sign_certificate_request-none :
      (k : RsaPrivateKey) (ttl : ℤ) (serial : ℕ)
      → key.key ≡ some (rsa_private k)
      → platform.rand_int (2 ^ 159) ≡ value serial
      → sign_certificate_request crypto platform c none ttl ≡ panics
  unfolding sign_certificate_request
  sign_certificate_request-none k ttl serial rsa random = rw (random, has_key, rsa)

is_intermediate_iff : (t : X509CertificateType) → (is_intermediate t ≡ true) ↔ (t ≡ intermediate_ca)
is_intermediate_iff t = ground arith

get_intermediates-type :
    (certs : List X509Certificate)
    → All (λ cert. cert.type ≡ intermediate_ca) (get_intermediates certs)
unfolding get_intermediates
get_intermediates-type [] = tt
get_intermediates-type (cert ∷ certs) =
    let rest = get_intermediates-type certs in
    elim (Bool-cases (is_intermediate cert.type)) [
      | inl e ↦ rw e ((is_intermediate_iff cert.type).0 e, rest)
      | inr e ↦ rw e rest
    ]

module _ (crypto : Crypto) (platform : Platform) (c : Ca) where
  -- A leaf certificate for the names and the key of the request, issued by the authority's
  -- certificate and key.
  pub record IssuedLeaf (req : CertificateRequest) (ttl : ℤ) (cert : X509Certificate) : Type 0 where
    pub template : Template
    pub no_ca : template.is_ca ≡ false
    pub subject : template.subject ≡ req.subject
    pub dns_names : template.dns_names ≡ req.dns_names
    pub ip_addresses : template.ip_addresses ≡ req.ip_addresses
    pub email_addresses : template.email_addresses ≡ req.email_addresses
    pub uris : template.uris ≡ req.uris
    pub not_after :
        template.not_after
        ≡ (platform.now_later +ℤ (if is_zero ttl then default_leaf_certificate_ttl else ttl))
    pub key : PrivateKey
    pub has_key : c.private_key ≡ some key
    pub signer : RsaPrivateKey
    pub has_signer : key.key ≡ some (rsa_private signer)
    pub issuer : X509Certificate
    pub has_issuer : c.certificate ≡ some issuer
    pub parent : Certificate
    pub has_parent : issuer.certificate ≡ some parent
    pub der : Bytes
    pub created :
        platform.create_certificate template (issued_by parent) req.public_key (rsa_private signer)
        ≡ value der
    pub parsed : parse_x509_certificate_from_der crypto der ≡ value cert
    pub chain_types : All (λ im. im.type ≡ intermediate_ca) (get_intermediates c.certificates)

  -- A request that is signed gives a certificate parsed from what x509.CreateCertificate made of a
  -- template that is no CA certificate, has the subject and the names of the request and ends
  -- after the TTL, or a day for a zero TTL, for the key of the request, issued by the
  -- certificate of the authority and signed with its RSA key; and a chain of its certificates of
  -- the type INTERMEDIATE CA.
  pub sign_certificate_request-IssuedLeaf :
      (req : CertificateRequest) (ttl : ℤ) (cert : X509Certificate) (chain : List X509Certificate)
      → sign_certificate_request crypto platform c (some req) ttl ≡ ok (cert, chain)
      → IssuedLeaf req ttl cert × (chain ≡ get_intermediates c.certificates)
  unfolding sign_certificate_request
  sign_certificate_request-IssuedLeaf req ttl cert chain h =
      let ttl' = if is_zero ttl then default_leaf_certificate_ttl else ttl in
      bind-ok_then (lift (platform.rand_int (2 ^ 159))) _ h λ serial _ h1.
        bind-ok_then (deref c.private_key) _ h1 λ key e_key h2.
          bind-ok_then (assert_rsa key.key) _ h2 λ pkey e_pkey h3.
            bind-ok_then (deref c.certificate) _ h3 λ issuer e_issuer h4.
              bind-ok_then (deref issuer.certificate) _ h4 λ parent e_parent h5.
                let create =
                  platform.create_certificate (leaf_template crypto platform serial req ttl')
                    (issued_by parent) req.public_key (rsa_private pkey) in
                bind-ok_then (lift create) _ h5 λ der e_der h6.
                  bind-ok_then (lift (parse_x509_certificate_from_der crypto der)) _ h6
                    λ signed e_signed h7.
                      let both =
                        ok_inj (signed, get_intermediates c.certificates) (cert, chain) h7 in
                      (
                        record {
                          template = leaf_template crypto platform serial req ttl';
                          no_ca = refl;
                          subject = refl;
                          dns_names = refl;
                          ip_addresses = refl;
                          email_addresses = refl;
                          uris = refl;
                          not_after = refl;
                          key = key;
                          has_key = deref-ok c.private_key e_key;
                          signer = pkey;
                          has_signer = assert_rsa-ok key.key pkey e_pkey;
                          issuer = issuer;
                          has_issuer = deref-ok c.certificate e_issuer;
                          parent = parent;
                          has_parent = deref-ok issuer.certificate e_parent;
                          der = der;
                          created = lift-ok create der e_der;
                          parsed =
                              lift-ok (parse_x509_certificate_from_der crypto der) signed e_signed
                              ∙ ap (λ r. value r.0) both;
                          chain_types = get_intermediates-type c.certificates;
                        },
                        sym (ap (λ r. r.1) both),
                      )

module _ (crypto : Crypto) (platform : Platform) where
  -- A self-signed CA certificate is parsed from what x509.CreateCertificate made of a CA template
  -- as its own issuer, for the key that was generated and signed with that key; it ends after the
  -- TTL, or 3650 days for a zero TTL, and the key has the size that was asked for, or 2048 bits for
  -- a zero size.
  pub create_self_signed_ca_certificate-ok :
      (opts : CertificateOptions) (cert : X509Certificate) (key : PrivateKey)
      → create_self_signed_ca_certificate crypto platform opts ≡ ok (cert, key)
      → (t : Template) × (own : RsaPrivateKey) × (der : Bytes) × (t.is_ca ≡ true)
        × (t.not_after ≡ (
            platform.now_later
            +ℤ (if is_zero opts.ttl then default_ca_certificate_ttl else opts.ttl)))
        × (platform.generate_rsa_key (if nat_eq opts.key_size 0 then 2048 else opts.key_size)
            ≡ value own)
        × (platform.create_certificate t (itself t) (rsa_public own.public_key) (rsa_private own)
            ≡ value der)
        × (parse_x509_certificate_from_der crypto der ≡ value cert)
        × (parse_x509_private_key crypto (platform.marshal_pkcs1 own) ≡ ok key)
  unfolding create_self_signed_ca_certificate
  create_self_signed_ca_certificate-ok opts cert key h =
      let full = with_defaults opts in
      bind-ok_then (lift (platform.rand_int (2 ^ 162))) _ h λ serial _ h1.
        let generate = platform.generate_rsa_key full.key_size in
        bind-ok_then (wrap_if _ (lift generate)) _ h1 λ own e_own h2.
          let t = ca_template crypto platform serial full in
          let create =
            platform.create_certificate t (itself t) (rsa_public own.public_key)
              (rsa_private own) in
          bind-ok_then (wrap_if _ (lift create)) _ h2 λ der e_der h3.
            let parse_key = parse_x509_private_key crypto (platform.marshal_pkcs1 own) in
            bind-ok_then parse_key _ h3 λ k e_k h4.
              let parse = parse_x509_certificate_from_der crypto der in
              bind-ok_then (wrap_if _ (lift parse)) _ h4 λ made e_made h5.
                let both = ok_inj (made, k) (cert, key) h5 in
                (
                  t,
                  own,
                  der,
                  refl,
                  refl,
                  lift-ok generate own (wrap_if-ok _ (lift generate) e_own),
                  lift-ok create der (wrap_if-ok _ (lift create) e_der),
                  lift-ok parse made (wrap_if-ok _ (lift parse) e_made) ∙ ap (λ r. value r.0) both,
                  e_k ∙ ap (λ r. ok r.1) both,
                )
