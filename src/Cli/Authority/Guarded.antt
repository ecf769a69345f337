-- ===== src/Cli/Authority/Guarded.antt =====
-- The key of the agent's own authority is written to a file of its user only.
use camblet.Base.{
  nat_eq, ◌≡◌, refl, sym, ap, ◌∙◌, Bool, true, false, Bool-cases, List, [], ◌∷◌, Option, none, some,
  inl, inr, String, ◌==◌, Option-cases, if◌then◌else◌,
}
use camblet.Base.Result.{Error, Result, ok, err, panics, wrap_if, ok_inj}
use camblet.Tls.Types.{Bytes, X509Certificate, PrivateKey, Crypto}
use camblet.Tls.Authority.Defs.{Platform}
use camblet.Tls.Authority.Issue.{create_self_signed_ca_certificate}
use camblet.Cli.Authority.{
  create_new, is_there, ensure_ca_certificate, root_ca_options, FileSystem, FileEvent, created,
  changed_mode, wrote, Run, user_readonly, change_permissions, ca_pem, write_pem, write_new,
}

-- Every write comes when the mode was set last to 0600, which is 384, with no creation in between;
-- the Boolean is whether it was before.
abbrev pub IsGuarded : Bool → List FileEvent → Type 0
IsGuarded set [] = Unit
IsGuarded set (created path ∷ events) = IsGuarded false events
IsGuarded set (changed_mode path mode ∷ events) = IsGuarded (nat_eq mode 384) events
IsGuarded set (wrote path content ∷ events) = (set ≡ true) × IsGuarded set events

-- A run that succeeds gives the path.
abbrev pub Gives : String → Result String → Type 0
Gives path result = (p : String) → result ≡ ok p → p ≡ path

module _ (crypto : Crypto) (platform : Platform) (fs : FileSystem) (path : String) where
  abbrev IsSound : Bool → Run → Type 0
  IsSound set run = IsGuarded set run.1 × Gives path run.0

  change_permissions-IsSound :
      (set : Bool) (message : String) (next : Run)
      → IsSound true next
      → IsSound set (change_permissions crypto platform fs path message next)
  change_permissions-IsSound set message next h = go (fs.chmod path user_readonly)
    where
      go :
          (outcome : Option Error)
          → IsSound set (elim outcome as (λ x. Run) [
            | some e ↦
                (wrap_if message (wrap_if "could not change file to user readonly" (err e)), [])
            | none ↦ (next.0, changed_mode path user_readonly ∷ next.1)
          ])
      go none = h
      go (some e) = (tt, λ p e'. cc)

  write_pem-IsSound : (pem : Result Bytes) → IsSound true (write_pem crypto platform fs path pem)
  write_pem-IsSound (err e) = (tt, λ p e'. cc)
  write_pem-IsSound camblet.Base.Result.panics = (tt, λ p e'. cc)
  write_pem-IsSound (ok pem) = elim (Option-cases (fs.write path pem)) [
    | inl done ↦ rw (done, write_pem) ((refl, tt), λ p e. sym (ok_inj path p e))
    | inr (e, failed) ↦ rw (failed, write_pem) ((refl, tt), λ p e'. cc)
  ]

  write_new-IsSound :
      (pair : X509Certificate × PrivateKey) → IsSound false (write_new crypto platform fs path pair)
  write_new-IsSound pair =
      let next =
        change_permissions-IsSound false _
          (write_pem crypto platform fs path (ca_pem crypto platform fs path pair))
          (write_pem-IsSound (ca_pem crypto platform fs path pair)) in
      elim (Option-cases (fs.create path)) [
        | inl done ↦ rw (done, write_new) next
        | inr (e, failed) ↦ rw (failed, write_new) (tt, λ p e'. cc)
      ]

  create_new-IsSound :
      (made : Result (X509Certificate × PrivateKey))
      → IsSound false (create_new crypto platform fs path made)
  create_new-IsSound (ok pair) = write_new-IsSound pair
  create_new-IsSound (err e) = (tt, λ p e'. cc)
  create_new-IsSound camblet.Base.Result.panics = (tt, λ p e'. cc)

  -- Whatever the calls of the system return, `ensureCACertificate` writes to the file of the
  -- certificate and the key only after its mode was set to that of its user alone, since it was
  -- created; and a path that it returns is the configured one.
  pub ensure_ca_certificate-IsGuarded :
      IsGuarded false (ensure_ca_certificate crypto platform fs path).1
      × Gives path (ensure_ca_certificate crypto platform fs path).0
  unfolding ensure_ca_certificate
  ensure_ca_certificate-IsGuarded = elim (Bool-cases (is_there crypto platform fs path)) [
    | inl e ↦
        rw (e, ensure_ca_certificate)
          (change_permissions-IsSound false _ (ok path, []) (tt, λ p e'. sym (ok_inj path p e')))
    | inr e ↦
        rw (e, ensure_ca_certificate)
          (create_new-IsSound (create_self_signed_ca_certificate crypto platform root_ca_options))
  ]
