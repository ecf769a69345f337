-- ===== src/Agent/Tests.antt =====
-- The agent's handlers, messages and traces on examples.
use camblet.Base.{
  ◌≡◌, refl, List, [], ◌∷◌, ◌++◌, All, map, none, some, String, ◌==◌, ◌∙◌, eq_refl, if◌then◌else◌,
}
use camblet.Base.Assoc.{Assoc, lookup, insert, lookup-insert}
use camblet.Base.Int.{pos}
use camblet.Base.Result.{ok, panics}
use camblet.Base.Fallible.{value, fails}
use camblet.Tls.Parser.Blocks.{parse_pems, parse_loop, parse_pem, read_pems}
use camblet.Tls.Parser.Keys.{convert_public_key, convert_rsa_private_key}
use camblet.Tls.Parser.Certificates.{
  parse_x509_certificate_request_from_der, convert_x509_certificate_request,
  parse_x509_certificate_from_der, convert_x509_certificate, get_x509_certificate_type, self_signed,
  bytes_equal,
}
use camblet.Tls.Authority.Defs.{get_trust_anchor, get_intermediates}
use camblet.Tls.Authority.Issue.{sign_certificate_request}
use camblet.Agent.Messenger.{Bytes, Message, unique_string, Command, scan_lines}
use camblet.Agent.Messenger.Scan.{message, IsCommand, EndsAt, scan_lines-IsCommand}
use camblet.Agent.Commands.Dispatch.{handle_all}
use camblet.Agent.Commands.Dispatch.Answers.{Answered, handle_all-Answered}
use camblet.Agent.Commands.Log.{log}
use camblet.Agent.Commands.Log.Traced.{Logs, log-Logs}
use camblet.Agent.Commands.Augment.{TtlCache, augment}
use camblet.Agent.Commands.Augment.Cached.{augment-cached}
use camblet.Agent.Commands.CsrSign.{CsrFormats, ca_signer, csr_sign, csr_sign_answer}
use camblet.Agent.Commands.CsrSign.Signs.{
  Signed, certificate_container, csr_sign-Signed, csr_sign-panics,
}
use camblet.Agent.Samples.{context, command, json, messages, handlers, handlers_return}
use camblet.Agent.Trace.{TraceResponse}
use camblet.Tls.Toy.{toy, toy_platform, toy_key, loaded_ca, root_certificate, key_of_block}

handle_all-Answered_example :
    (done : List Message × Unit {0}) × (handle_all json handlers messages tt ≡ ok done)
    × Answered json handlers tt messages done.0 done.1
handle_all-Answered_example =
    handle_all-Answered json handlers (λ answer. (5 ∷ [], refl)) handlers_return messages tt

scan_lines-IsCommand_example :
    (before after : List Bytes) × ((1 ∷ []) ∷ (0 ∷ []) ∷ [] ≡ before ++ after)
    × ((scan_lines json ((1 ∷ []) ∷ (0 ∷ []) ∷ [])).0 ≡ map message before)
    × All (IsCommand json) (map message before)
    × EndsAt json after (scan_lines json ((1 ∷ []) ∷ (0 ∷ []) ∷ [])).1
scan_lines-IsCommand_example = scan_lines-IsCommand json ((1 ∷ []) ∷ (0 ∷ []) ∷ [])

-- A text that moves from the name to the path leaves the key of the augment cache.
shared_key :
    unique_string (record context { command_name = "my-app"; command_path = "x" })
    ≡ unique_string (record context { command_name = "my"; command_path = "app-x" })
unfolding unique_string
shared_key = refl

abbrev logged : Assoc String
logged = ("message", "hello") ∷ ("direction", "input") ∷ []

log-Logs_example :
    (resp : TraceResponse) × (log (λ text. value logged) none (command "log") []
      ≡ ok (("ok", none), [] ++ resp ∷ []))
    × Logs (command "log") logged resp
unfolding lookup
log-Logs_example = log-Logs (λ text. value logged) (command "log") [] logged refl (refl, (refl, tt))

-- A cache that expires nothing.
abbrev cache : TtlCache (Assoc String)
cache = record { delete_expired = λ s. s; get = λ k s. (lookup k s, s); set = insert }

cache-get-set :
    (k js : String) (s : Assoc String)
    → (cache.get k (cache.delete_expired (cache.set k js s))).0 ≡ some js
cache-get-set k js s = lookup-insert k k js s ∙ rw eq_refl refl

augment-cached_example :
    (s : Assoc String) × (augment cache
        (λ pid. [])
        (λ labels. value "{}")
        (command "augment")
        (insert (unique_string context) "{}" [])
      ≡ ok (("{}", none), s))
unfolding augment insert lookup
augment-cached_example =
    augment-cached cache cache-get-set (λ k js s h. h) (λ pid. []) (λ pid. [])
      (λ labels. value "{}") (command "augment") (command "augment") "{}" []
      (insert (unique_string context) "{}" []) refl refl

abbrev formats : CsrFormats
formats = record {
  unmarshal = λ text. value (record { csr = text; ttl = "" });
  parse_duration = λ text. fails "invalid duration";
  bytes = λ text. if text == "request" then 3 ∷ [] else (2 ∷ []);
  marshal = λ cert chain anchors. value "{}";
}

abbrev sign_command : String → Command
sign_command content = record (command "csr_sign") { content = content }

csr_sign-ok :
    csr_sign toy formats (ca_signer toy toy_platform loaded_ca) (pos 60) (sign_command "request") tt
    ≡ ok (("{}", none), tt)
unfolding csr_sign csr_sign_answer ca_signer read_pems parse_pems parse_loop parse_pem
    parse_x509_certificate_request_from_der convert_x509_certificate_request convert_public_key
    convert_rsa_private_key sign_certificate_request get_trust_anchor get_intermediates
    parse_x509_certificate_from_der convert_x509_certificate get_x509_certificate_type self_signed
    bytes_equal root_certificate
csr_sign-ok = refl

csr_sign-Signed_example : Signed toy toy_platform formats loaded_ca (pos 60) "request" "{}"
csr_sign-Signed_example =
    csr_sign-Signed toy toy_platform formats loaded_ca (pos 60) (sign_command "request") "{}" tt tt
      csr_sign-ok

certificate-parses :
    parse_pems toy (formats.bytes "certificate")
    ≡ some (certificate_container root_certificate ∷ [], [])
unfolding parse_pems parse_loop parse_pem parse_x509_certificate_from_der convert_x509_certificate
    convert_public_key root_certificate
certificate-parses = refl

csr_sign-panics_example :
    csr_sign toy formats
      (ca_signer toy toy_platform loaded_ca)
      (pos 60)
      (sign_command "certificate")
      tt
    ≡ panics
unfolding convert_rsa_private_key
csr_sign-panics_example =
    csr_sign-panics toy toy_platform formats loaded_ca (pos 60) (sign_command "certificate") tt
      (record { csr = "certificate"; ttl = "" }) root_certificate (pos 60) key_of_block toy_key 4
      refl certificate-parses refl refl refl refl
