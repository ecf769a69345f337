-- ===== src/Cli/Commander.antt =====
-- `runCommander` of internal/cli/cmd/agent/agent.go: the authority of the agent and the handlers of
-- its commands.
pub mod Registers
mod Tests
use Prim.Native.String.{◌++◌ as concat}
use camblet.Base.{Bool, List, [], ◌∷◌, ◌++◌, Option, none, some, String}
use camblet.Base.Assoc.{Assoc}
use camblet.Base.Int.{ℤ}
use camblet.Base.Result.{Error, Result, ok, err, panics, ◌>>=◌, ◌>>◌, wrap_if, check, deref}
use camblet.Base.Fallible.{Fallible}
use camblet.Tls.Types.{Bytes, Crypto}
use camblet.Tls.Parser.Blocks.{certificate_pem}
use camblet.Tls.Authority.Defs.{
  Platform, Ca, with_pem_file, new_certificate_authority, get_trust_anchor,
}
use camblet.Agent.Commands.Dispatch.{Handler, add_handler, accept, connect}
use camblet.Agent.Commands.Log.{log}
use camblet.Agent.Commands.Augment.{TtlCache, Label, Process, augment, init}
use camblet.Agent.Commands.CsrSign.{CsrFormats, ca_signer, csr_sign}
use camblet.Agent.Trace.{TraceResponse}
use camblet.Config.Collectors.{Collector, get_metadata_collector}
use camblet.Config.Settings.{AgentConfig}
use camblet.Cli.Authority.{FileSystem, FileEvent, wrote, ensure_ca_certificate}

-- The state of the handlers: the responses that "log" publishes, and the cache of "augment".
pub record AgentState (Store : Type 0) : Type 0 where
  pub published : List TraceResponse
  pub cache : Store

module _ {Store : Type 0} where
  abbrev pub with_published :
      Store
      → Result ((String × Option Error) × List TraceResponse)
      → Result ((String × Option Error) × AgentState Store)
  with_published cache done = done >>= λ d. ok (d.0, record { published = d.1; cache = cache })

  abbrev pub with_cache :
      List TraceResponse
      → Result ((String × Option Error) × Store)
      → Result ((String × Option Error) × AgentState Store)
  with_cache published done = done >>= λ d. ok (d.0, record { published = published; cache = d.1 })

  abbrev pub on_published : Handler (List TraceResponse) → Handler (AgentState Store)
  on_published handler cmd s = with_published s.cache (handler cmd s.published)

  abbrev pub on_cache : Handler Store → Handler (AgentState Store)
  on_cache handler cmd s = with_cache s.published (handler cmd s.cache)

-- What the agent is given: its configuration, the libraries, and what the calls of the system
-- return when the authority is ensured, and later when it is loaded.
pub record CommanderParts (Store : Type 0) : Type 0 where
  pub config : AgentConfig
  pub crypto : Crypto
  pub platform : Platform
  pub fs : FileSystem
  pub later : Platform
  pub path_dir : String → String
  pub formats : CsrFormats
  pub unmarshal_log : String → Fallible (Assoc String)
  pub publish_error : Option Error
  pub read_content : Bytes → Fallible Bytes
  pub accepts : Collector → Option Error
  pub get_metadata : List Collector → ℤ → List Label
  pub marshal_labels : Assoc Bool → Fallible String
  pub ttl_cache : TtlCache Store
  pub new_cache : Store
  pub tolerated : Error → Bool
  pub processes : List Process

module _ {Store : Type 0} (parts : CommanderParts Store) where
  open parts use {
    config, crypto, platform, fs, later, path_dir, formats, unmarshal_log, publish_error,
    read_content, accepts, get_metadata, marshal_labels, ttl_cache, new_cache, tolerated, processes,
  }

  abbrev pub public_ca_pem_path : String → String
  public_ca_pem_path ca_pem_path = concat (path_dir ca_pem_path) "/public_ca.crt"

  -- The public certificate: of the trust anchor, which is not nil in an authority.
  abbrev pub public_ca_pem : Ca → Result Bytes
  public_ca_pem ca = do
    trust_anchor ← deref (get_trust_anchor ca.certificates)
    certificate_pem crypto trust_anchor

  -- The registered handlers, for an authority and the collectors
  unfoldable pub handlers_of : Ca → List Collector → Assoc (Handler (AgentState Store))
  unfolding add_handler log ca_signer csr_sign augment
  handlers_of ca collectors =
      add_handler "augment" (on_cache (augment ttl_cache (get_metadata collectors) marshal_labels))
        (add_handler "csr_sign"
          (csr_sign crypto formats (ca_signer crypto later ca) config.default_cert_ttl_duration)
          (add_handler "log" (on_published (log unmarshal_log publish_error))
            (add_handler "connect" connect (add_handler "accept" accept []))))

  abbrev pub Registered : Type 0
  Registered = Assoc (Handler (AgentState Store)) × AgentState Store

  -- Behind the public file: the collectors are put together, and "augment" visits the processes.
  abbrev pub register : Ca → Result Registered
  register ca = do
    collectors ← get_metadata_collector crypto read_content accepts config.metadata_collectors
    cache ← init ttl_cache (get_metadata collectors) marshal_labels tolerated processes new_cache
    ok (handlers_of ca collectors, record { published = []; cache = cache })

  abbrev pub write_public : String → Ca → Result Bytes → Result Registered × List FileEvent
  write_public path ca (err e) = (err e, [])
  write_public path ca (ok pem) = elim (fs.write path pem) [
    | some e ↦ (wrap_if "could not write CA certificate to file" (err e), wrote path pem ∷ [])
    | none ↦ (register ca, wrote path pem ∷ [])
  ]
  write_public path ca _ = (camblet.Base.Result.panics, [])

  abbrev pub with_authority : String → Result Ca → Result Registered × List FileEvent
  with_authority ca_pem_path (ok ca) =
      write_public (public_ca_pem_path ca_pem_path) ca (public_ca_pem ca)
  with_authority ca_pem_path (err e) = (err e, [])
  with_authority ca_pem_path _ = (camblet.Base.Result.panics, [])

  abbrev pub with_path : List FileEvent → Result String → Result Registered × List FileEvent
  with_path events (ok ca_pem_path) =
      let rest =
        with_authority ca_pem_path
          (new_certificate_authority crypto later (with_pem_file ca_pem_path ∷ [])) in
      (rest.0, events ++ rest.1)
  with_path events (err e) = (err e, events)
  with_path events _ = (camblet.Base.Result.panics, events)

  unfoldable pub run_commander : Result Registered × List FileEvent
  unfolding ensure_ca_certificate new_certificate_authority get_trust_anchor certificate_pem
      handlers_of get_metadata_collector init
  run_commander =
      let ensured = ensure_ca_certificate crypto platform fs config.ca_pem_path in
      with_path ensured.1 ensured.0
