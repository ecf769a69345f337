-- ===== src/Cli/Authority.antt =====
-- `ensureCACertificate` and `changePermissionsToUserReadonly` of internal/cli/cmd/agent/agent.go.
pub mod Guarded
pub mod Reloaded
use camblet.Base.{
  ℕ, ◌*◌, ◌^◌, Bool, true, false, not, ◌&&◌, List, [], ◌∷◌, ◌++◌, Option, none, some, String, ◌==◌,
  if◌then◌else◌,
}
use camblet.Base.Int.{pos}
use camblet.Base.Result.{Error, Result, ok, err, panics, ◌>>=◌, wrap_if, check}
use camblet.Tls.Types.{Bytes, X509Certificate, PrivateKey, Crypto}
use camblet.Tls.Parser.Blocks.{certificate_pem, private_key_pem}
use camblet.Tls.Authority.Defs.{Platform}
use camblet.Tls.Authority.Issue.{CertificateOptions, create_self_signed_ca_certificate}

-- What the calls of os return for the path.
pub record FileSystem : Type 0 where
  pub stat : String → Option Error
  pub chmod : String → ℕ → Option Error
  pub create : String → Option Error
  pub write : String → Bytes → Option Error

-- The calls that change a file, where they succeed; a write may have failed half-way.
pub data FileEvent : Type 0 where
  created : String → FileEvent
  changed_mode : String → ℕ → FileEvent
  wrote : String → Bytes → FileEvent

-- The mode 0600
abbrev pub user_readonly : ℕ
user_readonly = 6 * 8 ^ 2

abbrev pub Run : Type 0
Run = Result String × List FileEvent

abbrev pub root_ca_options : CertificateOptions
root_ca_options = record {
  subject = "CN=Camblet root CA";
  ttl = pos 0;
  key_size = 0;
  dns_names = [];
  email_addresses = [];
  ip_addresses = [];
  uris = [];
}

module _ (crypto : Crypto) (platform : Platform) (fs : FileSystem) (path : String) where
  -- `changePermissionsToUserReadonly`, and what goes on if it succeeds.
  abbrev pub change_permissions : String → Run → Run
  change_permissions message next = elim (fs.chmod path user_readonly) [
    | some e ↦ (wrap_if message (wrap_if "could not change file to user readonly" (err e)), [])
    | none ↦ (next.0, changed_mode path user_readonly ∷ next.1)
  ]

  -- `append(cert.GetPEM(), pkey.GetPEM()...)`
  abbrev pub ca_pem : X509Certificate × PrivateKey → Result Bytes
  ca_pem pair = do cert ← certificate_pem crypto pair.0; ok (cert ++ private_key_pem crypto pair.1)

  abbrev pub write_pem : Result Bytes → Run
  write_pem (err e) = (err e, [])
  write_pem (ok pem) = elim (fs.write path pem) [
    | some e ↦ (
      wrap_if "could not write generated self signed root CA certificate" (err e),
      wrote path pem ∷ [],
    )
    | none ↦ (ok path, wrote path pem ∷ [])
  ]
  write_pem _ = (camblet.Base.Result.panics, [])

  abbrev pub write_new : X509Certificate × PrivateKey → Run
  write_new pair = elim (fs.create path) [
    | some e ↦ (wrap_if "could not write generated self signed root CA certificate" (err e), [])
    | none ↦
        let next =
          change_permissions "could not set permissions for new self signed root CA certificate"
            (write_pem (ca_pem pair)) in
        (next.0, created path ∷ next.1)
  ]

  abbrev pub create_new : Result (X509Certificate × PrivateKey) → Run
  create_new (ok pair) = write_new pair
  create_new (err e) = (wrap_if "could not generate self signed root CA certificate" (err e), [])
  create_new _ = (camblet.Base.Result.panics, [])

  abbrev pub is_there : Bool
  is_there = not (path == "") && elim (fs.stat path) [ none ↦ true | some e ↦ false ]

  unfoldable pub ensure_ca_certificate : Run
  unfolding certificate_pem create_self_signed_ca_certificate
  ensure_ca_certificate =
      let there =
        change_permissions "could not set permissions for existing self signed root CA certificate"
          (ok path, []) in
      let new = create_new (create_self_signed_ca_certificate crypto platform root_ca_options) in
      if is_there then there else new
