-- ===== src/Tls/Authority/Init.antt =====
-- What a certificate authority has once `NewCertificateAuthority` returns it.
pub mod Parts
pub mod Panics
use camblet.Base.{
  ◌≡◌, sym, ap, subst, ◌∙◌, true, false, List, [], ◌∷◌, ◌++◌, All, Option, none, some, inl, inr,
  Bool-cases, String, if◌then◌else◌, arith,
}
use camblet.Base.Result.{
  ok, ◌>>=◌, check, wrap_if, deref, bind-ok_then, ok_inj, ◌>>◌, deref-ok, wrap_if-ok, check-ok,
}
use camblet.Tls.Types.{Bytes, Certificate, PrivateKey, root_ca, X509Certificate, Crypto}
use camblet.Tls.Parser.Blocks.{certificate_pem, private_key_pem}
use mathlib.Core.Option.{some-injective}
use camblet.Tls.Authority.Defs.{
  read_containers, no_errors, Platform, Ca, CertificateAuthorityOption, apply_options,
  get_intermediates, get_trust_anchor, first_ca, all_certificates, or_missing, verify_ca, init,
  new_certificate_authority, no_source, empty_ca, load,
}

or_missing-ok {ℓ} :
    {A : Type ℓ} (e : String) (o : Option A) {a : A} → or_missing e o ≡ ok a → o ≡ some a
or_missing-ok e none h = cc
or_missing-ok e (some b) h = cc

abbrev pub IsNonCa : X509Certificate → Type 0
IsNonCa c = (x : Certificate) × (c.certificate ≡ some x) × (x.is_ca ≡ false)

-- The list up to its first CA certificate.
pub record FirstCa (certs : List X509Certificate) (cert : X509Certificate) : Type 0 where
  pub before : List X509Certificate
  pub after : List X509Certificate
  pub split : certs ≡ before ++ (cert ∷ after)
  pub none_before : All IsNonCa before
  pub x509cert : Certificate
  pub has_x509cert : cert.certificate ≡ some x509cert
  pub is_ca : x509cert.is_ca ≡ true

first_ca-FirstCa :
    (certs : List X509Certificate) (cert : X509Certificate)
    → first_ca certs ≡ ok (some cert)
    → FirstCa certs cert
unfolding first_ca
first_ca-FirstCa [] cert h = cc
first_ca-FirstCa (c ∷ certs) cert h =
    bind-ok_then (deref c.certificate) _ h
      (λ x e h'. go x (deref-ok c.certificate e) h' (first_ca-FirstCa certs cert))
  where
    go :
        (x : Certificate)
        → c.certificate ≡ some x
        → (if x.is_ca then ok (some c) else first_ca certs) ≡ ok (some cert)
        → (first_ca certs ≡ ok (some cert) → FirstCa certs cert)
        → FirstCa (c ∷ certs) cert
    go x e h' later = elim (Bool-cases x.is_ca) [
      | inl ca ↦
          let same : c ≡ cert = cc (rw ca at h') in
          record {
            before = [];
            after = certs;
            split = rw same;
            none_before = tt;
            x509cert = x;
            has_x509cert = rw (← same) e;
            is_ca = ca;
          }
      | inr no_ca ↦
          let f = later (rw no_ca at h') in
          record {
            before = c ∷ f.before;
            after = f.after;
            split = ap (λ cs. c ∷ cs) f.split;
            none_before = ((x, e, no_ca), f.none_before);
            x509cert = f.x509cert;
            has_x509cert = f.has_x509cert;
            is_ca = f.is_ca;
          }
    ]

get_trust_anchor-type :
    (certs : List X509Certificate) (ta : X509Certificate)
    → get_trust_anchor certs ≡ some ta
    → ta.type ≡ root_ca
unfolding get_trust_anchor
get_trust_anchor-type [] ta h = cc
get_trust_anchor-type (c ∷ certs) ta h = ground (arith, get_trust_anchor-type certs ta)

module _ (crypto : Crypto) (platform : Platform) where
  pub record IsReady (ca : Ca) : Type 0 where
    pub key : PrivateKey
    pub has_key : ca.private_key ≡ some key
    pub cert : X509Certificate
    pub has_cert : ca.certificate ≡ some cert
    pub first : FirstCa ca.certificates cert
    pub pem : Bytes
    pub has_pem : certificate_pem crypto cert ≡ ok pem
    pub pair_accepted : platform.x509_key_pair pem (private_key_pem crypto key) ≡ none
    pub anchor : X509Certificate
    pub has_anchor : get_trust_anchor ca.certificates ≡ some anchor
    pub anchor_type : anchor.type ≡ root_ca
    pub root : Certificate
    pub has_root : anchor.certificate ≡ some root
    pub ims : List Certificate
    pub has_ims : all_certificates (get_intermediates ca.certificates) ≡ ok ims
    pub verified : platform.verify first.x509cert (root ∷ []) ims ≡ none

  verify_ca-IsReady :
      (loaded ca : Ca) (chosen : Option X509Certificate)
      → first_ca loaded.certificates ≡ ok chosen
      → verify_ca crypto platform (record loaded { certificate = chosen }) ≡ ok ca
      → IsReady ca
  unfolding verify_ca
  verify_ca-IsReady loaded ca chosen f h =
      bind-ok_then (or_missing _ loaded.private_key) _ h λ key e_key h1.
        bind-ok_then (or_missing _ chosen) _ h1 λ cert e_cert h2.
          bind-ok_then (certificate_pem crypto cert) _ h2 λ pem e_pem h3.
            let pair = platform.x509_key_pair pem (private_key_pem crypto key) in
            bind-ok_then (wrap_if _ (check pair)) _ h3 λ _ e_pair h4.
              bind-ok_then (or_missing _ (get_trust_anchor loaded.certificates)) _ h4 λ ta e_ta h5.
                bind-ok_then (deref ta.certificate) _ h5 λ root e_root h6.
                  bind-ok_then (all_certificates (get_intermediates loaded.certificates)) _ h6
                    λ ims e_ims h7. bind-ok_then (deref cert.certificate) _ h7 λ x e_x h8.
                      bind-ok_then (check (platform.verify x (root ∷ []) ims)) _ h8 λ _ e_verify h9.
                        let same : record loaded { certificate = chosen } ≡ ca = ok_inj _ ca h9 in
                        let chosen_cert = or_missing-ok _ chosen e_cert in
                        let first =
                          first_ca-FirstCa loaded.certificates cert (f ∙ ap ok chosen_cert) in
                        let x_first : x ≡ first.x509cert =
                          some-injective _ _
                            (sym (deref-ok cert.certificate e_x) ∙ first.has_x509cert) in
                        let anchor = or_missing-ok _ (get_trust_anchor loaded.certificates) e_ta in
                        subst IsReady same (record {
                          key = key;
                          has_key = or_missing-ok _ loaded.private_key e_key;
                          cert = cert;
                          has_cert = chosen_cert;
                          first = first;
                          pem = pem;
                          has_pem = e_pem;
                          pair_accepted = check-ok pair (wrap_if-ok _ (check pair) e_pair);
                          anchor = ta;
                          has_anchor = anchor;
                          anchor_type = get_trust_anchor-type loaded.certificates ta anchor;
                          root = root;
                          has_root = deref-ok ta.certificate e_root;
                          ims = ims;
                          has_ims = e_ims;
                          verified =
                              rw x_first at (check-ok (platform.verify x (root ∷ []) ims) e_verify);
                        })

  -- An authority that `NewCertificateAuthority` returns has a private key; its certificate is the
  -- first of its list that is a CA certificate; the two were accepted as a key pair; and the
  -- certificate was verified with its trust anchor, which is of the type ROOT CA, and its
  -- intermediate certificates.
  pub new_certificate_authority-IsReady :
      (opts : List CertificateAuthorityOption) (ca : Ca)
      → new_certificate_authority crypto platform opts ≡ ok ca
      → IsReady ca
  unfolding new_certificate_authority init
  new_certificate_authority-IsReady opts ca h =
      let given = apply_options empty_ca opts in
      elim (Bool-cases (no_source given)) [
        | inl e ↦ cc (rw e at h)
        | inr e ↦
            bind-ok_then
              (wrap_if _ (
                read_containers crypto platform given >>= λ found.
                no_errors crypto platform found.1 >> ok found.0))
              _ (rw e at h)
              λ parsed e_parsed h1. bind-ok_then (load parsed given) _ h1 λ loaded e_loaded h2.
                bind-ok_then (first_ca loaded.certificates) _ h2
                  λ chosen e_chosen h3. verify_ca-IsReady loaded ca chosen e_chosen h3
      ]
