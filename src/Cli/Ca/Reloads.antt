-- ===== src/Cli/Ca/Reloads.antt =====
-- What the commands print can be loaded as an authority.
use camblet.Base.{
  ◌<◌, ◌≡◌, sym, ap, ap₂, ◌∙◌, subst, true, false, List, [], ◌∷◌, ◌++◌, All, map, none, some,
  length, String, ◌==◌, append-nil, map-append,
}
use camblet.Base.Result.{ok, bind-ok_then, ok_inj, deref}
use camblet.Base.Fallible.{value}
use camblet.Tls.Types.{Bytes, Block, Certificate, PrivateKey, X509Certificate, Crypto, rsa_private}
use camblet.Tls.Parser.Blocks.{read_pems, certificate_pem, private_key_block, private_key_pem}
use camblet.Tls.Parser.Blocks.Encoded.{ReadsBack, encode_all}
use camblet.Tls.Authority.Defs.{
  Platform, Ca, CertificateAuthorityOption, with_pem_file, new_certificate_authority, verify_ca,
  get_trust_anchor, get_intermediates,
}
use camblet.Tls.Authority.Issue.{
  CertificateOptions, assert_rsa, create_ca_certificate, create_intermediate,
}
use camblet.Tls.Authority.Parsed.{IsFrom, new_certificate_authority-All}
use camblet.Tls.Authority.Reload.{of_certificate, of_key, Parsed, read_pems-encode_all, reload}
use camblet.Cli.Ca.{print_pair, print_chain, print_intermediate}
use camblet.Cli.Ca.Printed.{
  cert_blocks, chain_blocks, KeyIsFrom, encode_all-append, encoded_certificate, encoded_chain,
  Parsed-append, key_block-Parsed, cert_blocks-Parsed, chain_blocks-Parsed, get_intermediates-All,
  get_trust_anchor-IsFrom, create_ca_certificate-IsFrom,
}

-- The blocks of a certificate and its key, and of what `create-intermediate` prints.
abbrev pub pair_blocks : X509Certificate × PrivateKey → List Block
pair_blocks pair = cert_blocks pair.0 ++ private_key_block pair.1 ∷ []

abbrev pub intermediate_blocks :
    (X509Certificate × PrivateKey) × List X509Certificate → X509Certificate → List Block
intermediate_blocks created ta = pair_blocks created.0 ++ (chain_blocks created.1 ++ cert_blocks ta)

module _ (crypto : Crypto)
    (pem_decode_consumes : (content rest : Bytes) (block : Block)
      → crypto.pem_decode content ≡ some (block, rest)
      → length rest < length content)
    (keeps_raw : (der : Bytes) (cert : Certificate)
      → crypto.parse_certificate der ≡ value cert
      → cert.raw ≡ der)
    (platform : Platform) where
  pub encoded_pair :
      (pair : X509Certificate × PrivateKey) (out : Bytes)
      → print_pair crypto platform pair ≡ ok out
      → encode_all crypto (pair_blocks pair) ≡ out
  encoded_pair (cert, key) out h = bind-ok_then (certificate_pem crypto cert) _ h λ pem e made.
      encode_all-append crypto (cert_blocks cert) (private_key_block key ∷ [])
      ∙ ap₂ ◌++◌ (encoded_certificate crypto cert pem e) (append-nil (private_key_pem crypto key))
      ∙ ok_inj (pem ++ private_key_pem crypto key) out made

  pub pair_blocks-Parsed :
      (cert : X509Certificate) (key : PrivateKey)
      → IsFrom crypto cert
      → KeyIsFrom crypto key
      → Parsed crypto (pair_blocks (cert, key)) (of_certificate cert ∷ of_key key ∷ [])
  pair_blocks-Parsed cert key from key_from =
      Parsed-append crypto (cert_blocks cert) (private_key_block key ∷ [])
        (of_certificate cert ∷ []) (of_key key ∷ []) (cert_blocks-Parsed crypto keeps_raw cert from)
        (key_block-Parsed crypto key key_from)

  encoded_intermediate :
      (created : (X509Certificate × PrivateKey) × List X509Certificate) (ta : X509Certificate)
      (out : Bytes)
      → print_intermediate crypto platform created (some ta) ≡ ok out
      → encode_all crypto (intermediate_blocks created ta) ≡ out
  unfolding print_intermediate
  encoded_intermediate (pair, chain) ta out h =
      bind-ok_then (print_pair crypto platform pair) _ h λ own e h1.
        bind-ok_then (print_chain crypto platform chain) _ h1 λ links e1 h2.
          bind-ok_then (certificate_pem crypto ta) _ h2 λ root e2 made.
            encode_all-append crypto (pair_blocks pair) (chain_blocks chain ++ cert_blocks ta)
            ∙ ap₂ ◌++◌ (encoded_pair pair own e) (
                encode_all-append crypto (chain_blocks chain) (cert_blocks ta)
                ∙ ap₂ ◌++◌ (encoded_chain crypto platform chain links e1)
                    (encoded_certificate crypto ta root e2))
            ∙ ok_inj (own ++ (links ++ root)) out made

  created-IsFrom :
      (ca : Ca) (opts : CertificateOptions) (cert : X509Certificate) (key : PrivateKey)
      (chain : List X509Certificate)
      → create_intermediate crypto platform ca opts ≡ ok ((cert, key), chain)
      → IsFrom crypto cert × KeyIsFrom crypto key × (chain ≡ get_intermediates ca.certificates)
  unfolding create_intermediate
  created-IsFrom ca opts cert key chain h = bind-ok_then (deref ca.private_key) _ h λ own _ h1.
      bind-ok_then (assert_rsa own.key) _ h1 λ pkey _ h2.
        bind-ok_then (deref ca.certificate) _ h2 λ parent _ h3.
          bind-ok_then
            (create_ca_certificate crypto platform opts parent.certificate
              (some (rsa_private pkey)))
            _ h3
            λ made e h4.
              let both = ok_inj (made, get_intermediates ca.certificates) ((cert, key), chain) h4 in
              let (from, key_from) =
                create_ca_certificate-IsFrom crypto platform opts parent.certificate
                  (some (rsa_private pkey)) cert key (e ∙ ap (λ r. ok r.0) both) in
              (from, key_from, sym (ap (λ r. r.1) both))

  -- What `create-intermediate` prints of an intermediate CA that an authority created, read from a
  -- named file, loads that CA, if the blocks are read back, the parsed DER stays with a
  -- certificate, and the new one is that of a CA: loading it comes to the checks of an authority
  -- with the new key and the new certificate, whose certificates are the new one, the intermediate
  -- ones of the authority and its trust anchor.
  pub print_intermediate-reloads :
      (given : List CertificateAuthorityOption) (ca : Ca) (opts : CertificateOptions)
      (cert : X509Certificate) (x509cert : Certificate) (key : PrivateKey)
      (chain : List X509Certificate) (ta : X509Certificate) (content : Bytes) (later : Platform)
      (path : String)
      → new_certificate_authority crypto platform given ≡ ok ca
      → create_intermediate crypto platform ca opts ≡ ok ((cert, key), chain)
      → get_trust_anchor ca.certificates ≡ some ta
      → print_intermediate crypto platform ((cert, key), chain) (some ta) ≡ ok content
      → All (ReadsBack crypto) (intermediate_blocks ((cert, key), chain) ta)
      → (path == "") ≡ false
      → later.read_file path ≡ value content
      → cert.certificate ≡ some x509cert
      → x509cert.is_ca ≡ true
      → new_certificate_authority crypto later (with_pem_file path ∷ [])
        ≡ verify_ca crypto later (record {
          pem = none;
          pem_file = path;
          private_key = some key;
          certificate = some cert;
          certificates = cert ∷ (get_intermediates ca.certificates ++ ta ∷ []);
        })
  print_intermediate-reloads given ca opts cert x509cert key chain ta content later path loaded
        created anchored printed back named reads has is_ca =
      let all = new_certificate_authority-All crypto platform pem_decode_consumes given ca loaded in
      let (from, key_from, links) = created-IsFrom ca opts cert key chain created in
      let chain_from =
        subst (All (IsFrom crypto)) (sym links)
          (get_intermediates-All crypto ca.certificates all) in
      let ta_from = get_trust_anchor-IsFrom crypto ca.certificates ta anchored all in
      let parsed =
        Parsed-append crypto (pair_blocks (cert, key)) (chain_blocks chain ++ cert_blocks ta)
          (of_certificate cert ∷ of_key key ∷ [])
          (map of_certificate chain ++ of_certificate ta ∷ [])
          (pair_blocks-Parsed cert key from key_from)
          (Parsed-append crypto (chain_blocks chain) (cert_blocks ta) (map of_certificate chain)
            (of_certificate ta ∷ []) (chain_blocks-Parsed crypto keeps_raw chain chain_from)
            (cert_blocks-Parsed crypto keeps_raw ta ta_from)) in
      let read =
        ap (read_pems crypto) (sym (encoded_intermediate ((cert, key), chain) ta content printed))
        ∙ read_pems-encode_all crypto pem_decode_consumes _ _ back parsed
        ∙ ap (λ cs. ok (of_certificate cert ∷ of_key key ∷ cs, []))
            (sym (map-append of_certificate chain (ta ∷ []))) in
      reload crypto later path content named reads cert x509cert key (chain ++ ta ∷ []) has is_ca
        read
      ∙ ap
          (λ ims. verify_ca crypto later (record {
            pem = none;
            pem_file = path;
            private_key = some key;
            certificate = some cert;
            certificates = cert ∷ (ims ++ ta ∷ []);
          }))
          links
