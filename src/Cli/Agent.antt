-- ===== src/Cli/Agent.antt =====
-- The command `agent` of internal/cli/cmd/agent/agent.go around `runCommander`, and the server of
-- pkg/agent/server/server.go: their flags, and how they end.
use Prim.Native.String.{◌++◌ as concat}
use camblet.Base.{List, [], ◌∷◌, Option, none, some, String}
use camblet.Base.Result.{Error, Result, ok, ◌>>=◌, ◌>>◌, check}
use camblet.Agent.Messenger.{Bytes, Message, Json, scan_lines}
use camblet.Config.Settings.{default_cert_ttl_text}
use camblet.Cli.Terminal.{BuildInfo}
use camblet.Cli.Commander.{CommanderParts, Registered, run_commander}

-- The flags of `agent` with the texts of their defaults.
unfoldable pub agent_flags : BuildInfo → List (String × String)
agent_flags info =
    ("kernel-module-device", "/dev/camblet")
    ∷ ("policies-path", concat info.config_dir "/policies")
    ∷ ("services-path", concat info.config_dir "/services")
    ∷ ("trust-domain", "camblet")
    ∷ ("local-address", ":50600")
    ∷ ("default-cert-ttl", default_cert_ttl_text)
    ∷ ("ca-pem-path", concat info.config_dir "/ca.pem")
    ∷ []

-- What ends a `select` on an error channel and the context.
pub data Ending : Type 0 where
  received : Option Error → Ending
  cancelled : Ending

abbrev pub ending_error : Ending → Option Error
ending_error (received e) = e
ending_error cancelled = none

-- `ListenAndServe` and `Serve`, with what net.Listen returns
unfoldable pub listen_and_serve : Option Error → Ending → Option Error
listen_and_serve (some e) ending = some e
listen_and_serve none ending = ending_error ending

-- `Run` of the messenger up to its scan, with what the subscription, os.OpenFile and the
-- publication of the start return.
unfoldable pub run_messenger :
    Json → Option Error → Option Error → Option Error → List Bytes → List Message × Option Error
unfolding scan_lines
run_messenger json (some e) open_error publish_error lines = ([], some e)
run_messenger json none (some e) publish_error lines = ([], some e)
run_messenger json none none (some e) lines = ([], some e)
run_messenger json none none none lines = scan_lines json lines

-- `run` of the agent, with what protovalidate.New returns: the registered handlers are in place
-- before anything else starts.
unfoldable pub run_agent :
    {Store : Type 0} (parts : CommanderParts Store)
    → Option Error
    → Ending
    → Result (Registered parts)
unfolding run_commander
run_agent parts validator_error ending = do
  registered ← (run_commander parts).0
  check validator_error
  check (ending_error ending)
  ok registered
