-- ===== src/Tls/Authority/Reload.antt =====
-- Authorities that are written as PEM, and loaded again.
use camblet.Base.{
  ◌<◌, ◌≡◌, refl, sym, ap, ap₂, ◌∙◌, true, false, List, [], ◌∷◌, ◌++◌, All, none, some, length, map,
  append-nil, append_assoc, String, ◌==◌, if◌then◌else◌,
}
use camblet.Base.Result.{Error, Result, ok, ◌>>=◌, ◌>>◌, wrap_if, deref}
use camblet.Base.Fallible.{value, bind-value_then, value_inj}
use camblet.Tls.Types.{
  Bytes, Block, Certificate, CertificateCommon, PrivateKey, X509Certificate, Container,
  x509_certificate_container, private_key_container, certificate_object, private_key_object, Crypto,
}
use camblet.Tls.Parser.Keys.{parse_x509_private_key, convert_public_key}
use camblet.Tls.Parser.Certificates.{
  parse_x509_certificate_from_der, convert_x509_certificate, common_of_certificate,
}
use camblet.Tls.Parser.Blocks.{
  contain, contain_private_key, parse_pem, read_pems, read_files, certificate_block,
  private_key_block,
}
use camblet.Tls.Parser.Blocks.Loop.{outcome, and_block}
use camblet.Tls.Parser.Blocks.Encoded.{ReadsBack, encode_all, parse_pems-encode_all}
use camblet.Tls.Parser.Blocks.Reparse.{parse_x509_private_key-raw}
use camblet.Tls.Authority.Defs.{
  Platform, Ca, load, first_ca, verify_ca, empty_ca, read_containers, new_certificate_authority,
  with_pem_file, lift, no_errors,
}

-- The containers of a certificate and of a key.
abbrev pub of_certificate : X509Certificate → Container
of_certificate cert = record {
  type = x509_certificate_container;
  object = certificate_object (some cert);
}

abbrev pub of_key : PrivateKey → Container
of_key key = record { type = private_key_container; object = private_key_object (some key) }

module _ (crypto : Crypto) where
  -- A certificate that was parsed, and its encoding.
  pub record IsParsed (cert : X509Certificate) (common : CertificateCommon) : Type 0 where
    pub has_common : cert.common ≡ some common
    pub x509cert : Certificate
    pub has_certificate : cert.certificate ≡ some x509cert
    pub parses : parse_x509_certificate_from_der crypto common.raw ≡ value cert

  module _
      (keeps_raw : (der : Bytes) (cert : Certificate)
        → crypto.parse_certificate der ≡ value cert
        → cert.raw ≡ der) where
    pub parse_x509_certificate_from_der-IsParsed :
        (der : Bytes) (cert : X509Certificate)
        → parse_x509_certificate_from_der crypto der ≡ value cert
        → (common : CertificateCommon) × IsParsed cert common
    unfolding parse_x509_certificate_from_der convert_x509_certificate
    parse_x509_certificate_from_der-IsParsed der cert h =
        bind-value_then (crypto.parse_certificate der) _ h λ x e h'.
          bind-value_then (convert_public_key x.public_key) _ h' λ key e_key made.
            let is_cert = value_inj _ cert made in
            (
              common_of_certificate crypto x key,
              record {
                has_common = ap (λ c. c.common) (sym is_cert);
                x509cert = x;
                has_certificate = ap (λ c. c.certificate) (sym is_cert);
                parses = ap (parse_x509_certificate_from_der crypto) (keeps_raw der x e) ∙ h;
              },
            )

  pub parse_pem-certificate :
      (cert : X509Certificate) (common : CertificateCommon)
      → IsParsed cert common
      → parse_pem crypto (certificate_block cert.type common)
        ≡ some (some (of_certificate cert), none)
  unfolding parse_pem
  parse_pem-certificate cert common parsed =
      ap (λ r. some (contain x509_certificate_container certificate_object r)) parsed.parses

  pub parse_pem-key :
      (der : Bytes) (key : PrivateKey)
      → parse_x509_private_key crypto der ≡ ok key
      → parse_pem crypto (private_key_block key) ≡ some (some (of_key key), none)
  unfolding parse_pem
  parse_pem-key der key h =
      ap (λ r. contain_private_key (parse_x509_private_key crypto r))
        (parse_x509_private_key-raw crypto der key h)
      ∙ ap contain_private_key h

  -- Blocks, and the container that each parses to.
  abbrev pub Parsed : List Block → List Container → Type 0
  Parsed [] [] = Unit
  Parsed [] (c ∷ cs) = ⊥
  Parsed (b ∷ bs) [] = ⊥
  Parsed (b ∷ bs) (c ∷ cs) = (parse_pem crypto b ≡ some (some c, none)) × Parsed bs cs

  outcome-Parsed :
      (bs : List Block) (cs : List Container) → Parsed bs cs → outcome crypto bs ≡ some (cs, [])
  outcome-Parsed [] [] p = refl
  outcome-Parsed [] (c ∷ cs) p = elim p [ ]
  outcome-Parsed (b ∷ bs) [] p = elim p [ ]
  outcome-Parsed (b ∷ bs) (c ∷ cs) (e, p) = ap₂ (and_block crypto) e (outcome-Parsed bs cs p)

  module _
      (pem_decode_consumes : (content rest : Bytes) (block : Block)
        → crypto.pem_decode content ≡ some (block, rest)
        → length rest < length content) where
    pub read_pems-encode_all :
        (bs : List Block) (cs : List Container)
        → All (ReadsBack crypto) bs
        → Parsed bs cs
        → read_pems crypto (encode_all crypto bs) ≡ ok (cs, [])
    unfolding read_pems
    read_pems-encode_all bs cs back p =
        ap deref (parse_pems-encode_all crypto pem_decode_consumes bs back ∙ outcome-Parsed bs cs p)

  load-certificates :
      (certs : List X509Certificate) (ca : Ca)
      → load (map of_certificate certs) ca
        ≡ ok (record ca { certificates = ca.certificates ++ certs })
  unfolding load
  load-certificates [] ca =
      ap (λ cs. ok (record ca { certificates = cs })) (sym (append-nil ca.certificates))
  load-certificates (cert ∷ certs) ca =
      load-certificates certs (record ca { certificates = ca.certificates ++ cert ∷ [] })
      ∙ ap (λ cs. ok (record ca { certificates = cs }))
          (append_assoc ca.certificates (cert ∷ []) certs)

  module _ (later : Platform) (path : String) (content : Bytes) (named : (path == "") ≡ false)
      (reads : later.read_file path ≡ value content) where
    abbrev given : Ca
    given = record empty_ca { pem_file = path }

    read_files-one : read_files later.read_file (path ∷ []) ≡ value content
    unfolding read_files
    read_files-one = rw (reads, read_files) (ap value (append-nil content))

    read_containers-file : read_containers crypto later given ≡ read_pems crypto content
    unfolding read_containers
    read_containers-file = rw named (ap (λ f. lift f >>= read_pems crypto) read_files-one)

    -- `init` behind the reading.
    abbrev from_read : Result (List Container × List Error) → Result Ca
    from_read found =
        wrap_if "could not start cert signer"
          (found >>= λ parsed. (no_errors crypto later parsed.1 >> ok parsed.0))
        >>= λ parsed.
            (load parsed given >>= λ loaded.
            (first_ca loaded.certificates >>= λ chosen.
            verify_ca crypto later (record loaded { certificate = chosen })))

    init-from_read :
        new_certificate_authority crypto later (with_pem_file path ∷ [])
        ≡ from_read (read_containers crypto later given)
    unfolding new_certificate_authority
    init-from_read = rw named refl

    first_ca-cert :
        (cert : X509Certificate) (x509cert : Certificate) (rest : List X509Certificate)
        → cert.certificate ≡ some x509cert
        → x509cert.is_ca ≡ true
        → first_ca (cert ∷ rest) ≡ ok (some cert)
    unfolding first_ca
    first_ca-cert cert x509cert rest has is_ca =
        ap (λ c. deref c >>= λ x. (if x.is_ca then ok (some cert) else first_ca rest)) has
        ∙ rw is_ca refl

    -- An authority is loaded from a certificate, its key and further certificates.
    pub reload :
        (cert : X509Certificate) (x509cert : Certificate) (key : PrivateKey)
        (rest : List X509Certificate)
        → cert.certificate ≡ some x509cert
        → x509cert.is_ca ≡ true
        → read_pems crypto content
          ≡ ok (of_certificate cert ∷ of_key key ∷ map of_certificate rest, [])
        → new_certificate_authority crypto later (with_pem_file path ∷ [])
          ≡ verify_ca crypto later (record {
            pem = none;
            pem_file = path;
            private_key = some key;
            certificate = some cert;
            certificates = cert ∷ rest;
          })
    unfolding load
    reload cert x509cert key rest has is_ca parsed =
        init-from_read
        ∙ ap from_read (read_containers-file ∙ parsed)
        ∙ ap
            (λ r. r >>= λ loaded.
              (first_ca loaded.certificates >>= λ chosen.
              verify_ca crypto later (record loaded { certificate = chosen })))
            (load-certificates rest
              (record given { private_key = some key; certificates = cert ∷ [] }))
        ∙ ap
            (λ r. r >>= λ chosen. verify_ca crypto later (record {
              pem = none;
              pem_file = path;
              private_key = some key;
              certificate = chosen;
              certificates = cert ∷ rest;
            }))
            (first_ca-cert cert x509cert rest has is_ca)
