-- ===== src/Agent/Trace.antt =====
-- pkg/agent/api/v1/trace/trace.go and internal/cli/cmd/agent/trace.go: tracing, in the agent and
-- in the command line.
pub mod Requests
pub mod Client
pub mod Stream
mod Tests
use camblet.Base.{
  ℕ, Bool, true, false, not, ◌&&◌, ◌||◌, List, [], ◌∷◌, ◌++◌, Option, none, some, String, ◌==◌,
  if◌then◌else◌, ltb, nat_eq,
}
use camblet.Base.Assoc.{Assoc}
use camblet.Base.Int.{ℤ, pos, negsuc, uint32}
use camblet.Base.Decimal.{itoa}
use camblet.Base.Result.{Error, Result, ok, err, ◌>>=◌, ◌>>◌, wrap_if, check, deref}

-- The messages of api/v1/agent/trace, with the fields that the code reads. An empty text or a
-- zero stands for a field that is not set; the user ID is an optional field.
pub record TraceRequest : Type 0 where
  pub pid : ℕ
  pub uid : Option ℕ
  pub command_name : String

pub record TraceContext : Type 0 where
  pub pid : ℕ
  pub uid : ℕ
  pub gid : ℕ
  pub command_name : String
  pub command_path : String
  pub cgroup_path : String

pub record TraceResponse : Type 0 where
  pub context : Option TraceContext
  pub message : String
  pub values : Assoc String

abbrev differs : Option ℕ → ℕ → Bool
differs none uid = false
differs (some wanted) uid = not (nat_eq wanted uid)

-- `matchResponse` on the context of the response
unfoldable pub match_context : TraceRequest → TraceContext → Bool
match_context req ctx =
    if ltb 0 req.pid && not (nat_eq req.pid ctx.pid)
    then false
    else if differs req.uid ctx.uid
    then false
    else not (not (req.command_name == "") && not (req.command_name == ctx.command_name))

-- Whether `matchResponse` reads the context: a nil pointer is a panic then.
abbrev pub reads_context : TraceRequest → Bool
reads_context req =
    ltb 0 req.pid || elim req.uid [ none ↦ not (req.command_name == "") | some uid ↦ true ]

unfoldable pub match_response : TraceRequest → TraceResponse → Result Bool
unfolding match_context
match_response req resp =
    if reads_context req
    then (deref resp.context >>= λ ctx. ok (match_context req ctx))
    else ok true

pub data TraceAction : Type 0 where
  add_trace_request remove_trace_request clear_all_trace_requests : TraceAction

-- What `Trace` does: it publishes a request message, and sends responses to its stream.
pub data TraceEvent : Type 0 where
  request_published : TraceRequest → TraceAction → TraceEvent
  sent : TraceResponse → TraceEvent

-- The handler on the responses that are published while it is subscribed.
unfoldable pub send_matching : TraceRequest → List TraceResponse → Result (List TraceEvent)
unfolding match_response
send_matching req [] = ok []
send_matching req (resp ∷ resps) = do
  matches ← match_response req resp
  rest ← send_matching req resps
  ok (if matches then sent resp ∷ rest else rest)

-- `Trace`, with what the two calls of PublishSync return.
unfoldable pub trace :
    Option Error → Option Error → TraceRequest → List TraceResponse → Result (List TraceEvent)
unfolding send_matching
trace add_error remove_error req resps = do
  wrap_if "could not publish trace request addition" (check add_error)
  events ← send_matching req resps
  wrap_if "could not publish trace request removal" (check remove_error)
  ok (
      request_published req add_trace_request ∷ events
      ++ request_published req remove_trace_request ∷ [])

-- The command `trace-connection`.
pub record TraceOptions : Type 0 where
  pub uid : ℤ
  pub pid : ℤ
  pub command_name : String
  pub output : String

-- `p >= 1`, and `p < 0`
abbrev pub is_positive : ℤ → Bool
is_positive (pos n) = ltb 0 n
is_positive (negsuc n) = false

abbrev pub is_negative : ℤ → Bool
is_negative (pos n) = false
is_negative (negsuc n) = true

unfoldable pub check_trace_options : TraceOptions → Option Error
check_trace_options opts =
    if opts.command_name == "" && not (is_positive opts.pid) && is_negative opts.uid
    then some "--pid, --uid or --command-name must be used"
    else none

-- The request of `run`, and the parameters that it shows.
unfoldable pub trace_request : TraceOptions → TraceRequest
trace_request opts = record {
  pid = if is_positive opts.pid then uint32 opts.pid else 0;
  uid = if is_positive opts.uid then some (uint32 opts.uid) else none;
  command_name = opts.command_name;
}

unfoldable pub trace_params : TraceOptions → Assoc String
unfolding itoa
trace_params opts =
    (if is_positive opts.pid then ("pid", itoa opts.pid) ∷ [] else [])
    ++ (if is_positive opts.uid then ("uid", itoa opts.uid) ∷ [] else [])
    ++ (if opts.command_name == "" then [] else (("commandName", opts.command_name) ∷ []))

-- `showLog`: the name of the logger, which is the value of the key "id", and the parameters.
-- `to_lower_camel` is strcase.ToLowerCamel.
module _ (to_lower_camel : String → String) where
  unfoldable pub log_values : Assoc String → String → Assoc String → String × Assoc String
  log_values [] id params = (id, params)
  log_values ((k, v) ∷ values) id params =
      let with_id = log_values values v params in
      let with_param = log_values values id (params ++ (to_lower_camel k, v) ∷ []) in
      if k == "id" then with_id else with_param
