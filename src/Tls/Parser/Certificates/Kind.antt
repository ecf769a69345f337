-- ===== src/Tls/Parser/Certificates/Kind.antt =====
-- The type that `getX509CertificateType` gives a certificate.
use camblet.Base.{◌≡◌, refl, ◌↔◌, ◌≢◌, true, false, [], ◌∷◌, arith}
use camblet.Tls.Types.{Bytes, Certificate, root_ca, intermediate_ca, leaf, no_type, Crypto}
use camblet.Tls.Parser.Certificates.{bytes_equal, self_signed, get_x509_certificate_type}

bytes_equal-eq : (a b : Bytes) → bytes_equal a b ≡ true → a ≡ b
unfolding bytes_equal
bytes_equal-eq [] [] h = refl
bytes_equal-eq [] (b ∷ bs) h = cc
bytes_equal-eq (a ∷ as') [] h = cc
bytes_equal-eq (a ∷ as') (b ∷ bs) h = ground (arith, bytes_equal-eq as' bs)

bytes_equal_refl : (a : Bytes) → bytes_equal a a ≡ true
unfolding bytes_equal
bytes_equal_refl [] = refl
bytes_equal_refl (a ∷ as') = ground (arith, bytes_equal_refl as')

bytes_equal_complete : (a b : Bytes) → a ≡ b → bytes_equal a b ≡ true
bytes_equal_complete a b h = rw h (bytes_equal_refl b)

module _ (crypto : Crypto) (cert : Certificate) where
  -- A certificate is a root exactly if it is a CA certificate with the issuer for its subject and a
  -- signature that its own key verifies, a leaf exactly if it is no CA certificate, an
  -- intermediate exactly if it is a CA certificate of which one of these fails, and always one
  -- of the three.
  pub get_x509_certificate_type_iff :
      ((get_x509_certificate_type crypto cert ≡ root_ca) ↔ (
        (cert.is_ca ≡ true)
        × (cert.raw_subject ≡ cert.raw_issuer)
        × (crypto.check_signature_from_key cert ≡ true)))
      × ((get_x509_certificate_type crypto cert ≡ leaf) ↔ (cert.is_ca ≡ false))
      × ((get_x509_certificate_type crypto cert ≡ intermediate_ca) ↔ (
          (cert.is_ca ≡ true)
          × ¬ (
              (cert.raw_subject ≡ cert.raw_issuer)
              × (crypto.check_signature_from_key cert ≡ true))))
      × (get_x509_certificate_type crypto cert ≢ no_type)
  unfolding get_x509_certificate_type self_signed
  get_x509_certificate_type_iff =
      let sound = bytes_equal-eq cert.raw_subject cert.raw_issuer in
      let complete = bytes_equal_complete cert.raw_subject cert.raw_issuer in ground arith
