-- ===== src/Agent/Commands/Log/Traced.antt =====
-- A logged message, as a trace response.
use camblet.Base.{
  ◌≡◌, ◌≢◌, refl, ℕ, ◌<◌, ◌^◌, List, [], ◌∷◌, ◌++◌, none, some, String, ◌==◌, eq_iff, arith,
  if◌then◌else◌,
}
use camblet.Base.Assoc.{Assoc, lookup, IsMap}
use camblet.Base.Int.{ℤ, pos, uint32}
use camblet.Base.Result.{ok}
use camblet.Base.Fallible.{Fallible, value}
use camblet.Agent.Messenger.{Command}
use camblet.Agent.Trace.{TraceContext, TraceResponse}
use camblet.Agent.Commands.Log.{or_empty, delete, trace_response, log}

lookup-delete :
    (k j : String) (m : Assoc String)
    → IsMap m
    → lookup j (delete k m) ≡ (if k == j then none else lookup j m)
unfolding lookup delete
lookup-delete k j [] h = ground arith
lookup-delete k j ((i, v) ∷ m) (fresh, h) =
    ground (arith, eq_iff i k, eq_iff i j, eq_iff k j, lookup-delete k j m h, fresh)

-- The response has the message of the data, every other value of it, and the IDs and names of the
-- context of the command.
pub record Logs (cmd : Command) (data_ : Assoc String) (resp : TraceResponse) : Type 0 where
  pub message : resp.message ≡ or_empty (lookup "message" data_)
  pub no_message : lookup "message" resp.values ≡ none
  pub others : (k : String) → k ≢ "message" → lookup k resp.values ≡ lookup k data_
  pub context : TraceContext
  pub has_context : resp.context ≡ some context
  pub pid : (n : ℕ) → n < 2 ^ 32 → cmd.context.pid ≡ pos n → context.pid ≡ n
  pub uid : (n : ℕ) → n < 2 ^ 32 → cmd.context.uid ≡ pos n → context.uid ≡ n
  pub gid : (n : ℕ) → n < 2 ^ 32 → cmd.context.gid ≡ pos n → context.gid ≡ n
  pub command_name : context.command_name ≡ cmd.context.command_name
  pub command_path : context.command_path ≡ cmd.context.command_path
  pub cgroup_path : context.cgroup_path ≡ cmd.context.cgroup_path

uint32-pos : (z : ℤ) (n : ℕ) → n < 2 ^ 32 → z ≡ pos n → uint32 z ≡ n
uint32-pos z n range e = rw e (omega arith)

-- If the data of a log command decode to a map and the bus takes the response, the handler
-- answers "ok" and publishes exactly one response: it has the message of the data, the other
-- values, and the names and the 32-bit IDs of the context of the command.
pub log-Logs :
    (unmarshal : String → Fallible (Assoc String)) (cmd : Command) (published : List TraceResponse)
    (data_ : Assoc String)
    → unmarshal cmd.content ≡ value data_
    → IsMap data_
    → (resp : TraceResponse) × (log unmarshal none cmd published
        ≡ ok (("ok", none), published ++ resp ∷ []))
      × Logs cmd data_ resp
unfolding log trace_response
log-Logs unmarshal cmd published data_ decodes is_map = (
  trace_response cmd.context data_,
  rw (decodes, log) refl,
  record {
    message = refl;
    no_message = lookup-delete "message" "message" data_ is_map;
    others = λ k ne. ground (arith, lookup-delete "message" k data_ is_map, eq_iff "message" k);
    context = _;
    has_context = refl;
    pid = uint32-pos cmd.context.pid;
    uid = uint32-pos cmd.context.uid;
    gid = uint32-pos cmd.context.gid;
    command_name = refl;
    command_path = refl;
    cgroup_path = refl;
  },
)
