-- ===== src/Tls/Authority/Init/Panics.antt =====
-- When `NewCertificateAuthority` panics.
use camblet.Base.{
  ◌<◌, ◌≡◌, ◌↔◌, refl, sym, ap, ◌∙◌, subst, inl, inr, List, [], ◌∷◌, none, some, true, false, ◌==◌,
  length, append-nil, All, Bool-cases, Option-cases,
}
use camblet.Base.Result.{
  Error, Result, ok, err, panics, ◌>>=◌, ◌>>◌, check, deref, wrap_if, PanicsIf, bind-PanicsIf,
  ok_inj, wrap_if-ok, wrap_if-PanicsIf, check-PanicsIf,
}
use camblet.Base.Fallible.{Fallible, value, fails}
use camblet.Tls.Types.{Bytes, Block, X509Certificate, Container, Crypto}
use camblet.Tls.Parser.Blocks.{certificate_pem, private_key_pem, read_pems, read_files}
use camblet.Tls.Parser.Blocks.Loop.{Decodes, outcome, parse_pems-Decodes}
use camblet.Tls.Parser.Blocks.Encoded.{Decodes-unique}
use camblet.Tls.Parser.Blocks.Panics.{Panicking, SomeBlock, outcome-Panicking, outcome-none}
use camblet.Tls.Authority.Defs.{
  Platform, Ca, CertificateAuthorityOption, apply_options, get_intermediates, get_trust_anchor,
  all_certificates, or_missing, lift, read_containers, no_errors, verify_ca, init,
  new_certificate_authority, no_source, empty_ca,
}
use camblet.Tls.Authority.Parsed.{apply_options-certificates}
use camblet.Tls.Authority.Init.Parts.{
  HasParts, IsSound, outcome-IsSound, load-HasParts, Chosen, first_ca-HasParts,
  all_certificates_total, get_intermediates-HasParts, get_trust_anchor-HasParts,
  or_missing-PanicsIf, some-Chosen, deref-PanicsIf,
}

module _ (crypto : Crypto) (platform : Platform) where
  module _ (cause : Type 0) where
    certificate_pem-PanicsIf :
        (cert : X509Certificate) → HasParts cert → PanicsIf cause (certificate_pem crypto cert)
    unfolding certificate_pem
    certificate_pem-PanicsIf cert h = rw h.has_common tt

    verify_ca-PanicsIf :
        (ca : Ca)
        → All HasParts ca.certificates
        → Chosen ca.certificate
        → PanicsIf cause (verify_ca crypto platform ca)
    unfolding verify_ca
    verify_ca-PanicsIf ca all chosen =
        let certs = ca.certificates in
        bind-PanicsIf cause (or_missing _ ca.private_key) _
          (or_missing-PanicsIf cause _ ca.private_key)
          λ key _.
            bind-PanicsIf cause (or_missing _ ca.certificate) _
              (or_missing-PanicsIf cause _ ca.certificate)
              λ cert e_cert.
                let parts = some-Chosen ca.certificate cert _ chosen e_cert in
                bind-PanicsIf cause (certificate_pem crypto cert) _
                  (certificate_pem-PanicsIf cert parts)
                  λ pem _.
                    let pair = platform.x509_key_pair pem (private_key_pem crypto key) in
                    bind-PanicsIf cause (wrap_if _ (check pair)) _
                      (wrap_if-PanicsIf cause _ (check pair) (check-PanicsIf cause pair))
                      λ _ _.
                        bind-PanicsIf cause (or_missing _ (get_trust_anchor certs)) _
                          (or_missing-PanicsIf cause _ (get_trust_anchor certs))
                          λ ta e_ta.
                            let anchor =
                              some-Chosen (get_trust_anchor certs) ta _
                                (get_trust_anchor-HasParts certs all) e_ta in
                            bind-PanicsIf cause (deref ta.certificate) _
                              (deref-PanicsIf cause ta.certificate anchor.has_x509cert)
                              λ root _.
                                let (ims, e_ims) =
                                  all_certificates_total (get_intermediates certs)
                                    (get_intermediates-HasParts certs all) in
                                bind-PanicsIf cause (all_certificates (get_intermediates certs)) _
                                  (rw e_ims tt)
                                  λ xs _.
                                    bind-PanicsIf cause (deref cert.certificate) _
                                      (deref-PanicsIf cause cert.certificate parts.has_x509cert)
                                      λ x _.
                                        bind-PanicsIf cause
                                          (check (platform.verify x (root ∷ []) xs)) _
                                          (check-PanicsIf cause (platform.verify x (root ∷ []) xs))
                                          λ _ _. tt

    abbrev SoundRead : Result (List Container × List Error) → Type 0
    SoundRead (ok found) = All IsSound found.0
    SoundRead (err e) = Unit
    SoundRead panics = cause

    abbrev checked : Result (List Container × List Error) → Result (List Container)
    checked r = r >>= λ found. no_errors crypto platform found.1 >> ok found.0

    checked-PanicsIf :
        (r : Result (List Container × List Error)) → SoundRead r → PanicsIf cause (checked r)
    checked-PanicsIf (ok (cs, [])) h = tt
    checked-PanicsIf (ok (cs, e ∷ es)) h = tt
    checked-PanicsIf (err e) h = tt
    checked-PanicsIf panics h = h

    checked-IsSound :
        (r : Result (List Container × List Error)) (cs : List Container)
        → SoundRead r
        → checked r ≡ ok cs
        → All IsSound cs
    checked-IsSound (ok (found, [])) cs h e = subst (All IsSound) (ok_inj found cs e) h
    checked-IsSound (ok (found, x ∷ es)) cs h e = cc
    checked-IsSound (err x) cs h e = cc
    checked-IsSound panics cs h e = cc

    init-PanicsIf :
        (ca : Ca)
        → All HasParts ca.certificates
        → SoundRead (read_containers crypto platform ca)
        → PanicsIf cause (init crypto platform ca)
    unfolding init
    init-PanicsIf ca h sound =
        let read = read_containers crypto platform ca in
        bind-PanicsIf cause (wrap_if _ (checked read)) _
          (wrap_if-PanicsIf cause _ (checked read) (checked-PanicsIf read sound))
          λ parsed e.
            let ok_parsed = checked-IsSound read parsed sound (wrap_if-ok _ (checked read) e) in
            let (loaded, e_loaded, all) = load-HasParts parsed ca ok_parsed h in
            rw e_loaded (
              let (chosen, e_chosen, parts) = first_ca-HasParts loaded.certificates all in
              rw e_chosen (verify_ca-PanicsIf (record loaded { certificate = chosen }) all parts))

  -- The PEM content that an authority is loaded from: that of its file, if it names one, or else the
  -- one that was given.
  pub data IsSource : Ca → Bytes → Type 0 where
    from_pem :
        {ca : Ca} {content : Bytes}
        → (ca.pem_file == "") ≡ true
        → ca.pem ≡ some content
        → IsSource ca content
    from_file :
        {ca : Ca} {content : Bytes}
        → (ca.pem_file == "") ≡ false
        → platform.read_file ca.pem_file ≡ value content
        → IsSource ca content

  -- The content has a block of an RSA private key without one of its numbers.
  abbrev pub HasPanicking : Ca → Type 0
  HasPanicking ca =
      (content : Bytes) × (blocks : List Block) × IsSource ca content
      × Decodes crypto content blocks
      × SomeBlock (Panicking crypto) blocks

  module _
      (pem_decode_consumes : (content rest : Bytes) (block : Block)
        → crypto.pem_decode content ≡ some (block, rest)
        → length rest < length content) where
    read_pems-SoundRead :
        (ca : Ca) (content : Bytes)
        → IsSource ca content
        → SoundRead (HasPanicking ca) (read_pems crypto content)
    unfolding read_pems
    read_pems-SoundRead ca content source =
        let (blocks, decodes, parses) = parse_pems-Decodes crypto pem_decode_consumes content in
        elim (Option-cases (outcome crypto blocks)) [
          | inl e ↦
              subst (SoundRead (HasPanicking ca)) (sym (ap deref (parses ∙ e)))
                (content, blocks, source, decodes, outcome-Panicking crypto blocks e)
          | inr (found, e) ↦
              subst (SoundRead (HasPanicking ca)) (sym (ap deref (parses ∙ e)))
                (outcome-IsSound crypto blocks found e)
        ]

    read_one :
        (ca : Ca) (read : Fallible Bytes)
        → platform.read_file ca.pem_file ≡ read
        → (ca.pem_file == "") ≡ false
        → SoundRead
            (HasPanicking ca)
            (lift (read_files platform.read_file (ca.pem_file ∷ [])) >>= read_pems crypto)
    unfolding read_files
    read_one ca (fails e) reads named = rw (reads, read_files) tt
    read_one ca (value content) reads named =
        rw (reads, read_files)
          (rw (append-nil content) (read_pems-SoundRead ca content (from_file named reads)))

    read_containers-SoundRead :
        (ca : Ca)
        → no_source ca ≡ false
        → SoundRead (HasPanicking ca) (read_containers crypto platform ca)
    unfolding read_containers
    read_containers-SoundRead ca h = elim (Bool-cases (ca.pem_file == "")) [
      | inr named ↦ rw named (read_one ca (platform.read_file ca.pem_file) refl named)
      | inl e ↦ rw e (elim (Option-cases ca.pem) [
        | inl no_pem ↦ cc (rw (no_pem, e) at h)
        | inr (content, given) ↦
            subst
              (λ p.
                SoundRead (HasPanicking ca)
                  (read_pems crypto (elim p as (λ _. Bytes) [ none ↦ [] | some pem ↦ pem ])))
              (sym given) (read_pems-SoundRead ca content (from_pem e given))
      ])
    ]

    read_pems-panics :
        (content : Bytes) (blocks : List Block)
        → Decodes crypto content blocks
        → SomeBlock (Panicking crypto) blocks
        → read_pems crypto content ≡ panics
    unfolding read_pems
    read_pems-panics content blocks decodes some_block =
        let (found, decodes', parses) = parse_pems-Decodes crypto pem_decode_consumes content in
        let same = Decodes-unique crypto content found blocks decodes' decodes in
        ap deref (parses ∙ ap (outcome crypto) same ∙ outcome-none crypto blocks some_block)

    read_containers-panics :
        (ca : Ca) (content : Bytes)
        → IsSource ca content
        → read_pems crypto content ≡ panics
        → read_containers crypto platform ca ≡ panics
    unfolding read_containers read_files
    read_containers-panics ca content (from_pem e given) h = rw (e, given) h
    read_containers-panics ca content (from_file named reads) h =
        rw (named, reads, read_files) (rw (append-nil content) h)

    IsSource-named : (ca : Ca) (content : Bytes) → IsSource ca content → no_source ca ≡ false
    IsSource-named ca content (from_pem e given) = rw given refl
    IsSource-named ca content (from_file named reads) = elim (Option-cases ca.pem) [
      | inl no_pem ↦ rw (no_pem, named) refl
      | inr (pem, given) ↦ rw given refl
    ]

    no_panic : {A : Type 0} (cause : Type 0) (r : Result A) → PanicsIf cause r → r ≡ panics → cause
    no_panic cause (ok a) h e = cc
    no_panic cause (err x) h e = cc
    no_panic cause panics h e = h

    -- With a PEM decoder that consumes what it decodes, `NewCertificateAuthority` panics exactly if
    -- the content of the file that its options name, or else the content that they give, decodes
    -- to blocks of which one is labelled as a private key and parses to an RSA key that lacks a
    -- number. For all other options, files and outcomes of the library calls it returns an
    -- authority or an error.
    pub new_certificate_authority-panics_iff :
        (opts : List CertificateAuthorityOption)
        → (new_certificate_authority crypto platform opts ≡ panics)
          ↔ HasPanicking (apply_options empty_ca opts)
    unfolding new_certificate_authority init
    new_certificate_authority-panics_iff opts =
        let given = apply_options empty_ca opts in
        (
          λ h. elim (Bool-cases (no_source given)) [
            | inl e ↦ cc (rw e at h)
            | inr e ↦
                no_panic (HasPanicking given) (init crypto platform given)
                  (init-PanicsIf (HasPanicking given) given
                    (rw (apply_options-certificates opts empty_ca) tt)
                    (read_containers-SoundRead given e))
                  (rw e at h)
          ],
          λ (content, blocks, source, decodes, some_block).
              rw (IsSource-named given content source) (
                rw
                  (read_containers-panics given content source
                    (read_pems-panics content blocks decodes some_block))
                  refl),
        )
