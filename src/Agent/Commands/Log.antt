-- ===== src/Agent/Commands/Log.antt =====
-- pkg/agent/commands/log.go: the handler of "log".
pub mod Traced
use Prim.Native.String.{◌++◌ as concat}
use camblet.Base.{List, [], ◌∷◌, ◌++◌, Option, none, some, String, ◌==◌, if◌then◌else◌}
use camblet.Base.Assoc.{Assoc, lookup}
use camblet.Base.Int.{uint32}
use camblet.Base.Result.{Error, ok, wrap_if, check, err, panics, Result}
use camblet.Base.Fallible.{Fallible, value, fails}
use camblet.Agent.Messenger.{Command, CommandContext}
use camblet.Agent.Commands.Dispatch.{Handler}
use camblet.Agent.Trace.{TraceResponse}

-- `data["message"]`: the zero value of a missing key
abbrev pub or_empty : Option String → String
or_empty none = ""
or_empty (some v) = v

unfoldable pub delete : String → Assoc String → Assoc String
delete k [] = []
delete k ((j, v) ∷ m) = if j == k then m else ((j, v) ∷ delete k m)

unfoldable pub trace_response : CommandContext → Assoc String → TraceResponse
unfolding lookup delete
trace_response c values = record {
  context = some (record {
    pid = uint32 c.pid;
    uid = uint32 c.uid;
    gid = uint32 c.gid;
    command_name = c.command_name;
    command_path = c.command_path;
    cgroup_path = c.cgroup_path;
  });
  message = or_empty (lookup "message" values);
  values = delete "message" values;
}

-- The state is the list of the responses that are published. `unmarshal` is json.Unmarshal into a
-- map, and `publish_error` what the bus returns.
module _ (unmarshal : String → Fallible (Assoc String)) (publish_error : Option Error) where
  abbrev pub publish_response :
      TraceResponse
      → Option Error
      → List TraceResponse
      → (String × Option Error) × List TraceResponse
  publish_response resp none published = (("ok", none), published ++ resp ∷ [])
  publish_response resp (some e) published =
      (("error", some (concat "could not publish trace response: " e)), published)

  unfoldable pub log : Handler (List TraceResponse)
  unfolding trace_response
  log cmd published = elim (unmarshal cmd.content) [
    | fails e ↦ ok (("error", some e), published)
    | value values ↦
        ok (publish_response (trace_response cmd.context values) publish_error published)
  ]
