-- ===== src/Cli/Authority/Reloaded.antt =====
-- The agent loads the authority that it created.
use mathlib.Core.Option.{some-injective}
use camblet.Base.{
  ◌<◌, ◌≡◌, refl, sym, ap, ◌∙◌, subst, Bool, true, false, Bool-cases, List, [], ◌∷◌, All, Option,
  none, some, inl, inr, length, String, ◌==◌, Option-cases, if◌then◌else◌,
}
use camblet.Base.Result.{Error, Result, ok, err, panics, wrap_if}
use camblet.Base.Fallible.{value}
use camblet.Tls.Types.{Bytes, Block, Certificate, PrivateKey, X509Certificate, Crypto}
use camblet.Tls.Parser.Blocks.{read_pems}
use camblet.Tls.Parser.Blocks.Encoded.{ReadsBack}
use camblet.Tls.Authority.Defs.{Platform, with_pem_file, new_certificate_authority, verify_ca}
use camblet.Tls.Authority.Issue.{create_self_signed_ca_certificate}
use camblet.Tls.Authority.Reload.{read_pems-encode_all, reload}
use camblet.Cli.Authority.{
  create_new, user_readonly, is_there, ensure_ca_certificate, root_ca_options, FileSystem,
  FileEvent, wrote, Run, change_permissions, ca_pem, write_pem, write_new,
}
use camblet.Cli.Ca.Printed.{create_ca_certificate-IsFrom}
use camblet.Cli.Ca.Reloads.{pair_blocks, encoded_pair, pair_blocks-Parsed}

-- What a run wrote to its file, at the end.
abbrev pub written : List FileEvent → Option Bytes
written [] = none
written (wrote path pem ∷ []) = some pem
written (event ∷ events) = written events

module _ (crypto : Crypto) (platform : Platform) (fs : FileSystem) (path : String) where
  written-change_permissions :
      (message : String) (next : Run) (pem : Bytes)
      → written (change_permissions crypto platform fs path message next).1 ≡ some pem
      → written next.1 ≡ some pem
  written-change_permissions message next pem h =
      elim (Option-cases (fs.chmod path user_readonly)) [
        | inl done ↦ rw (done, change_permissions) at h
        | inr (e, failed) ↦ cc (rw (failed, change_permissions) at h)
      ]

  written-write_pem :
      (content : Result Bytes) (pem : Bytes)
      → written (write_pem crypto platform fs path content).1 ≡ some pem
      → content ≡ ok pem
  written-write_pem (err e) pem h = cc
  written-write_pem camblet.Base.Result.panics pem h = cc
  written-write_pem (ok content) pem h = elim (Option-cases (fs.write path content)) [
    | inl done ↦ ap ok (some-injective content pem (rw (done, write_pem) at h))
    | inr (e, failed) ↦ ap ok (some-injective content pem (rw (failed, write_pem) at h))
  ]

  written-write_new :
      (pair : X509Certificate × PrivateKey) (pem : Bytes)
      → written (write_new crypto platform fs path pair).1 ≡ some pem
      → ca_pem crypto platform fs path pair ≡ ok pem
  written-write_new pair pem h = elim (Option-cases (fs.create path)) [
    | inl done ↦ written-write_pem (ca_pem crypto platform fs path pair) pem (
        written-change_permissions _
          (write_pem crypto platform fs path (ca_pem crypto platform fs path pair)) pem
          (rw (done, write_new) at h))
    | inr (e, failed) ↦ cc (rw (failed, write_new) at h)
  ]

  written-create_new :
      (made : Result (X509Certificate × PrivateKey)) (pair : X509Certificate × PrivateKey)
      (pem : Bytes)
      → made ≡ ok pair
      → written (create_new crypto platform fs path made).1 ≡ some pem
      → ca_pem crypto platform fs path pair ≡ ok pem
  written-create_new made pair pem e h =
      written-write_new pair pem
        (ap (λ m. written (create_new crypto platform fs path m).1) (sym e) ∙ h)

  written-ensure_ca_certificate :
      (pair : X509Certificate × PrivateKey) (pem : Bytes)
      → create_self_signed_ca_certificate crypto platform root_ca_options ≡ ok pair
      → written (ensure_ca_certificate crypto platform fs path).1 ≡ some pem
      → ca_pem crypto platform fs path pair ≡ ok pem
  unfolding ensure_ca_certificate
  written-ensure_ca_certificate pair pem e h =
      elim (Bool-cases (is_there crypto platform fs path)) [
        | inl there ↦
            let nothing =
              written-change_permissions _ (ok path, []) pem
                (rw (there, ensure_ca_certificate) at h) in
            cc
        | inr new ↦
            written-create_new (create_self_signed_ca_certificate crypto platform root_ca_options)
              pair pem e (rw (new, ensure_ca_certificate) at h)
      ]

  -- When the file that `ensureCACertificate` wrote is read, the authority that it created is
  -- loaded, if the file is named, its two blocks are read back, the parsed DER stays with a
  -- certificate, and the new one is that of a CA: loading it comes to the checks of an authority
  -- with the new key and the new certificate, which is its only one.
  pub ensure_ca_certificate-reloads :
      (pem_decode_consumes : (content rest : Bytes) (block : Block)
        → crypto.pem_decode content ≡ some (block, rest)
        → length rest < length content)
      (keeps_raw : (der : Bytes) (cert : Certificate)
        → crypto.parse_certificate der ≡ value cert
        → cert.raw ≡ der)
      (cert : X509Certificate) (x509cert : Certificate) (key : PrivateKey) (pem : Bytes)
      (later : Platform)
      → create_self_signed_ca_certificate crypto platform root_ca_options ≡ ok (cert, key)
      → written (ensure_ca_certificate crypto platform fs path).1 ≡ some pem
      → All (ReadsBack crypto) (pair_blocks (cert, key))
      → (path == "") ≡ false
      → later.read_file path ≡ value pem
      → cert.certificate ≡ some x509cert
      → x509cert.is_ca ≡ true
      → new_certificate_authority crypto later (with_pem_file path ∷ [])
        ≡ verify_ca crypto later (record {
          pem = none;
          pem_file = path;
          private_key = some key;
          certificate = some cert;
          certificates = cert ∷ [];
        })
  unfolding create_self_signed_ca_certificate
  ensure_ca_certificate-reloads pem_decode_consumes keeps_raw cert x509cert key pem later made
        wrote_pem back named reads has is_ca =
      let (from, key_from) =
        create_ca_certificate-IsFrom crypto platform root_ca_options none none cert key made in
      let pem_is = written-ensure_ca_certificate (cert, key) pem made wrote_pem in
      let read =
        ap (read_pems crypto)
          (sym (encoded_pair crypto pem_decode_consumes keeps_raw platform (cert, key) pem pem_is))
        ∙ read_pems-encode_all crypto pem_decode_consumes _ _ back (
            pair_blocks-Parsed crypto pem_decode_consumes keeps_raw platform cert key from
              key_from) in
      reload crypto later path pem named reads cert x509cert key [] has is_ca read
