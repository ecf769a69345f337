-- ===== src/Agent/Commands/CsrSign.antt =====
-- pkg/agent/commands/csrsign.go: the handler of "csr_sign".
pub mod Signs
use Prim.Native.Nat.{◌^◌}
use camblet.Base.{ℕ, List, [], ◌∷◌, Option, none, some, String, ◌==◌, if◌then◌else◌}
use camblet.Base.Int.{ℤ}
use camblet.Base.Result.{Error, Result, ok, err, panics, ◌>>=◌, ◌>>◌, deref, check, wrap_if}
use camblet.Base.Fallible.{Fallible, value, fails}
use camblet.Tls.Types.{Bytes, X509Certificate, Container, Crypto, CertificateRequest}
use camblet.Tls.Parser.Blocks.{get_x509_certificate_request, read_pems}
use camblet.Tls.Authority.Defs.{Platform, Ca, get_trust_anchor, lift}
use camblet.Tls.Authority.Issue.{sign_certificate_request}
use camblet.Agent.Messenger.{Command}
use camblet.Agent.Commands.Dispatch.{Handler}

-- X509CertificateRequestSigner
pub record CertificateSigner : Type 0 where
  pub sign : Option CertificateRequest → ℤ → Result (X509Certificate × List X509Certificate)
  pub trust_anchor : Option X509Certificate

-- The authority, as the signer that `runCommander` passes to `CSRSign`
unfoldable pub ca_signer : Crypto → Platform → Ca → CertificateSigner
unfolding sign_certificate_request get_trust_anchor
ca_signer crypto platform c = record {
  sign = sign_certificate_request crypto platform c;
  trust_anchor = get_trust_anchor c.certificates;
}

pub record CsrData : Type 0 where
  pub csr : String
  pub ttl : String

-- What the handler takes from encoding/json, time and the conversion of a text to its bytes.
pub record CsrFormats : Type 0 where
  pub unmarshal : String → Fallible CsrData
  pub parse_duration : String → Fallible ℤ
  pub bytes : String → Bytes
  pub marshal :
      X509Certificate → List X509Certificate → List (Option X509Certificate) → Fallible String

-- The error of `ParsePEMs`, combined of those of the blocks.
abbrev pub combined : Crypto → List Error → Option Error
combined crypto [] = none
combined crypto (e ∷ es) = some (crypto.combine (e ∷ es))

abbrev pub single : List Container → Result Container
single [] = err "invalid csr"
single (c ∷ []) = ok c
single (c ∷ d ∷ cs) = err "invalid csr"

module _ (crypto : Crypto) (formats : CsrFormats) (signer : CertificateSigner)
    (default_cert_ttl : ℤ) where
  abbrev pub ttl_of : String → Result ℤ
  ttl_of text =
      if text == ""
      then ok default_cert_ttl
      else wrap_if "could not parse ttl value" (lift (formats.parse_duration text))

  unfoldable pub csr_sign_answer : String → Result String
  unfolding read_pems
  csr_sign_answer content = do
    given ← lift (formats.unmarshal content)
    parsed ← read_pems crypto (formats.bytes given.csr)
    check (combined crypto parsed.1)
    container ← single parsed.0
    ttl ← ttl_of given.ttl
    req ← deref (get_x509_certificate_request container)
    signed ← signer.sign req.certificate_request ttl
    lift (formats.marshal signed.0 signed.1 (signer.trust_anchor ∷ []))

  abbrev pub answer_with : {S : Type 0} → Result String → S → Result ((String × Option Error) × S)
  answer_with (ok js) s = ok ((js, none), s)
  answer_with (err e) s = ok (("error", some e), s)
  answer_with panics s = panics

  unfoldable pub csr_sign : {S : Type 0} → Handler S
  unfolding csr_sign_answer
  csr_sign cmd s = answer_with (csr_sign_answer cmd.content) s
