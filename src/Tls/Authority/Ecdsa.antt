-- ===== src/Tls/Authority/Ecdsa.antt =====
-- What an authority does that is loaded with an ECDSA key.
use camblet.Base.{
  ℕ, ◌≡◌, sym, ap, ◌∙◌, ◌^◌, true, false, List, [], ◌∷◌, Option, some, map, String, ◌==◌,
}
use camblet.Base.Int.{ℤ}
use camblet.Base.Result.{ok, panics}
use camblet.Base.Fallible.{value}
use camblet.Tls.Types.{
  Bytes, Certificate, CertificateRequest, PrivateKey, EcdsaPrivateKey, ecdsa_private,
  X509Certificate, Crypto,
}
use camblet.Tls.Parser.Blocks.{read_pems}
use camblet.Tls.Authority.Defs.{Platform, Ca, new_certificate_authority, with_pem_file}
use camblet.Tls.Authority.Issue.{CertificateOptions, sign_certificate_request, create_intermediate}
use camblet.Tls.Authority.Parsed.{verify_ca-same}
use camblet.Tls.Authority.Reload.{of_certificate, of_key, reload}

module _ (crypto : Crypto) (platform : Platform) where
  -- If `NewCertificateAuthority` accepts a named file from which a CA certificate, an ECDSA key and
  -- further certificates are read, then the authority that it returns panics at every request that
  -- it is asked to sign and at every intermediate certificate that it is asked for, unless the
  -- random source fails before.
  pub new_certificate_authority-panics_later :
      (path : String) (content : Bytes) (cert : X509Certificate) (x509cert : Certificate)
      (key : PrivateKey) (k : EcdsaPrivateKey) (rest : List X509Certificate) (ca : Ca)
      → (path == "") ≡ false
      → platform.read_file path ≡ value content
      → cert.certificate ≡ some x509cert
      → x509cert.is_ca ≡ true
      → read_pems crypto content
        ≡ ok (of_certificate cert ∷ of_key key ∷ map of_certificate rest, [])
      → key.key ≡ some (ecdsa_private k)
      → new_certificate_authority crypto platform (with_pem_file path ∷ []) ≡ ok ca
      → (request : Option CertificateRequest) (ttl : ℤ) (serial : ℕ) (opts : CertificateOptions)
      → platform.rand_int (2 ^ 159) ≡ value serial
      → (sign_certificate_request crypto platform ca request ttl ≡ panics)
        × (create_intermediate crypto platform ca opts ≡ panics)
  unfolding sign_certificate_request create_intermediate
  new_certificate_authority-panics_later path content cert x509cert key k rest ca named reads has
        is_ca found is_ecdsa loaded request ttl serial opts random =
      let checked =
        sym (reload crypto platform path content named reads cert x509cert key rest has is_ca found)
        ∙ loaded in
      let has_key : ca.private_key ≡ some key =
        sym (ap (λ c. c.private_key) (verify_ca-same crypto platform _ ca checked)) in
      (rw (random, has_key, is_ecdsa), rw (has_key, is_ecdsa))
