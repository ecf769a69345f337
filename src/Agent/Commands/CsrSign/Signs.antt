-- ===== src/Agent/Commands/CsrSign/Signs.antt =====
-- What the csr_sign handler answers.
use Prim.Native.Nat.{◌^◌}
use camblet.Base.{ℕ, ◌≡◌, refl, ap, ap₂, ◌∙◌, List, [], ◌∷◌, Option, none, some, String}
use camblet.Base.Int.{ℤ}
use camblet.Base.Result.{
  Error, Result, ok, err, panics, deref, check, bind-ok_then, deref-ok, check-ok, ok_inj,
}
use camblet.Base.Fallible.{value}
use camblet.Tls.Types.{
  x509_certificate_container, certificate_object, rsa_private, RsaPrivateKey, PrivateKey,
  X509Certificate, X509CertificateRequest, Container, Crypto, CertificateRequest,
}
use camblet.Tls.Parser.Blocks.{get_x509_certificate_request, read_pems, parse_pems}
use camblet.Tls.Authority.Defs.{Platform, Ca, get_trust_anchor, get_intermediates, lift}
use camblet.Tls.Authority.Issue.{assert_rsa, sign_certificate_request}
use camblet.Tls.Authority.Sign.{
  IssuedLeaf, sign_certificate_request-IssuedLeaf, sign_certificate_request-none, lift-ok,
}
use camblet.Agent.Messenger.{Command}
use camblet.Agent.Commands.CsrSign.{
  CsrData, CsrFormats, combined, single, ca_signer, csr_sign_answer, csr_sign, ttl_of, answer_with,
}

single-ok : (cs : List Container) (c : Container) → single cs ≡ ok c → cs ≡ c ∷ []
single-ok [] c h = cc
single-ok (d ∷ []) c h = cc
single-ok (d ∷ e ∷ cs) c h = cc

combined-none : (crypto : Crypto) (es : List Error) → combined crypto es ≡ none → es ≡ []
combined-none crypto [] h = refl
combined-none crypto (e ∷ es) h = cc

abbrev pub certificate_container : X509Certificate → Container
certificate_container cert = record {
  type = x509_certificate_container;
  object = certificate_object (some cert);
}

module _ (crypto : Crypto) (platform : Platform) (formats : CsrFormats) (c : Ca)
    (default_cert_ttl : ℤ) where
  -- An answer is the JSON text of a certificate for the one request of the data.
  pub record Signed (content js : String) : Type 0 where
    pub given : CsrData
    pub has_given : formats.unmarshal content ≡ value given
    pub container : Container
    pub parsed : parse_pems crypto (formats.bytes given.csr) ≡ some (container ∷ [], [])
    pub request : X509CertificateRequest
    pub has_request : get_x509_certificate_request container ≡ some request
    pub req : CertificateRequest
    pub has_req : request.certificate_request ≡ some req
    pub ttl : ℤ
    pub has_ttl :
        ttl_of crypto formats (ca_signer crypto platform c) default_cert_ttl given.ttl ≡ ok ttl
    pub cert : X509Certificate
    pub issued : IssuedLeaf crypto platform c req ttl cert
    pub text :
        formats.marshal cert
          (get_intermediates c.certificates)
          (get_trust_anchor c.certificates ∷ [])
        ≡ value js

  sign-some :
      (request : Option CertificateRequest) (ttl : ℤ)
      (signed : X509Certificate × List X509Certificate)
      → sign_certificate_request crypto platform c request ttl ≡ ok signed
      → (req : CertificateRequest) × (request ≡ some req)
  unfolding sign_certificate_request
  sign-some (some req) ttl signed h = (req, refl)
  sign-some none ttl signed h = bind-ok_then (lift (platform.rand_int (2 ^ 159))) _ h λ serial _ h1.
      bind-ok_then (deref c.private_key) _ h1
        λ key _ h2. bind-ok_then (assert_rsa key.key) _ h2 λ pkey _ h3. cc

  csr_sign_answer-Signed :
      (content js : String)
      → csr_sign_answer crypto formats (ca_signer crypto platform c) default_cert_ttl content
        ≡ ok js
      → Signed content js
  unfolding csr_sign_answer read_pems ca_signer
  csr_sign_answer-Signed content js h =
      bind-ok_then (lift (formats.unmarshal content)) _ h λ given e_given h1.
        bind-ok_then (deref (parse_pems crypto (formats.bytes given.csr))) _ h1
          λ parsed e_parsed h2.
            bind-ok_then (check (combined crypto parsed.1)) _ h2 λ _ e_combined h3.
              bind-ok_then (single parsed.0) _ h3 λ container e_container h4.
                bind-ok_then
                  (ttl_of crypto formats (ca_signer crypto platform c) default_cert_ttl given.ttl) _
                  h4
                  λ ttl e_ttl h5.
                    bind-ok_then (deref (get_x509_certificate_request container)) _ h5
                      λ request e_request h6.
                        bind-ok_then
                          (sign_certificate_request crypto platform c request.certificate_request
                            ttl)
                          _ h6
                          λ signed e_signed h7.
                            let (req, is_req) =
                              sign-some request.certificate_request ttl signed e_signed in
                            let (issued, chain) =
                              sign_certificate_request-IssuedLeaf crypto platform c req ttl signed.0
                                signed.1 (rw is_req at e_signed) in
                            let only = single-ok parsed.0 container e_container in
                            let no_errors =
                              combined-none crypto parsed.1
                                (check-ok (combined crypto parsed.1) e_combined) in
                            record {
                              given = given;
                              has_given = lift-ok (formats.unmarshal content) given e_given;
                              container = container;
                              parsed =
                                  deref-ok (parse_pems crypto (formats.bytes given.csr)) e_parsed
                                  ∙ ap₂ (λ cs es. some (cs, es)) only no_errors;
                              request = request;
                              has_request =
                                  deref-ok (get_x509_certificate_request container) e_request;
                              req = req;
                              has_req = is_req;
                              ttl = ttl;
                              has_ttl = e_ttl;
                              cert = signed.0;
                              issued = issued;
                              text = rw chain at (
                                  lift-ok
                                    (formats.marshal signed.0 signed.1
                                      (get_trust_anchor c.certificates ∷ []))
                                    js h7);
                            }

  -- An answer of "csr_sign" without an error is the JSON text of a leaf certificate that the
  -- authority issued for the request of the data, which is the only block of its PEM text, with
  -- the TTL of the data, or the default one, and of the authority's intermediate certificates and
  -- its trust anchor.
  pub csr_sign-Signed :
      {S : Type 0} (cmd : Command) (js : String) (s s' : S)
      → csr_sign crypto formats (ca_signer crypto platform c) default_cert_ttl cmd s
        ≡ ok ((js, none), s')
      → Signed cmd.content js
  unfolding csr_sign
  csr_sign-Signed {S} cmd js s s' h = go _ refl h
    where
      go :
          (answer : Result String)
          → csr_sign_answer crypto formats
              (ca_signer crypto platform c)
              default_cert_ttl
              cmd.content
            ≡ answer
          → answer_with crypto formats (ca_signer crypto platform c) default_cert_ttl answer s
            ≡ ok ((js, none), s')
          → Signed cmd.content js
      go (ok text) e h' =
          csr_sign_answer-Signed cmd.content js
            (e ∙ ap (λ r. ok r.0.0) (ok_inj ((text, none), s) ((js, none), s') h'))
      go (err m) e h' = cc
      go panics e h' = cc

  -- Data that hold a single block, which is a certificate, make the handler panic, when the
  -- authority has an RSA key and the random source answers.
  pub csr_sign-panics :
      {S : Type 0} (cmd : Command) (s : S) (given : CsrData) (cert : X509Certificate) (ttl : ℤ)
      (key : PrivateKey) (k : RsaPrivateKey) (serial : ℕ)
      → formats.unmarshal cmd.content ≡ value given
      → parse_pems crypto (formats.bytes given.csr) ≡ some (certificate_container cert ∷ [], [])
      → ttl_of crypto formats (ca_signer crypto platform c) default_cert_ttl given.ttl ≡ ok ttl
      → c.private_key ≡ some key
      → key.key ≡ some (rsa_private k)
      → platform.rand_int (2 ^ 159) ≡ value serial
      → csr_sign crypto formats (ca_signer crypto platform c) default_cert_ttl cmd s ≡ panics
  unfolding csr_sign csr_sign_answer read_pems ca_signer
  csr_sign-panics cmd s given cert ttl key k serial decodes parses has_ttl has_key rsa random =
      rw (decodes, csr_sign_answer)
        (rw (parses, csr_sign_answer)
          (rw has_ttl (
            rw (sign_certificate_request-none crypto platform c key has_key k ttl serial rsa random)
              refl)))
