-- ===== src/Agent/Trace/Client.antt =====
-- The run of `trace-connection` in internal/cli/cmd/agent/trace.go: the stream of responses, and how
-- each is shown.
use Prim.Native.String.{◌++◌ as concat}
use camblet.Base.{ℕ, Bool, List, [], ◌∷◌, ◌++◌, Option, none, some, String, ◌==◌, if◌then◌else◌}
use camblet.Base.Assoc.{Assoc}
use camblet.Base.Result.{Error, Result, ok, panics}
use camblet.Base.Fallible.{Fallible, value, fails}
use camblet.Agent.Messenger.{Bytes}
use camblet.Agent.Trace.{
  TraceContext, TraceResponse, TraceRequest, TraceOptions, trace_request, trace_params, log_values,
}

-- A parameter of a log line.
pub data LogValue : Type 0 where
  text : String → LogValue
  number : ℕ → LogValue

-- A line of the logger with its name, message and parameters, or bytes on the standard output.
pub data Shown : Type 0 where
  logged : String → String → List (String × LogValue) → Shown
  printed : Bytes → Shown

-- What the command takes from strcase, encoding/json and yaml, and whether it is interactive.
pub record TraceFormats : Type 0 where
  pub to_lower_camel : String → String
  pub marshal : TraceResponse → Fallible Bytes
  pub marshal_indent : TraceResponse → Fallible Bytes
  pub json_to_yaml : Bytes → Fallible Bytes
  pub is_interactive : Bool

abbrev pub context_params : Option TraceContext → List (String × LogValue)
context_params none = []
context_params (some ctx) =
    ("ctx.commandName", text ctx.command_name)
    ∷ ("ctx.commandPath", text ctx.command_path)
    ∷ ("ctx.uid", number ctx.uid)
    ∷ ("ctx.gid", number ctx.gid)
    ∷ []

abbrev text_params : Assoc String → List (String × LogValue)
text_params [] = []
text_params ((k, v) ∷ params) = (k, text v) ∷ text_params params

-- `output, _ := …`
abbrev bytes_or_nil : Fallible Bytes → Bytes
bytes_or_nil (value j) = j
bytes_or_nil (fails e) = []

-- What `run` shows first
abbrev pub started : TraceOptions → TraceResponse
started opts = record { context = none; message = "tracing started"; values = trace_params opts }

module _ (formats : TraceFormats) where
  open formats use {to_lower_camel, marshal, marshal_indent, json_to_yaml, is_interactive}

  unfoldable pub show_log : TraceResponse → Shown
  unfolding log_values
  show_log resp =
      let (id, params) = log_values to_lower_camel resp.values "" [] in
      logged id resp.message (context_params resp.context ++ text_params params)

  -- Errors of the formats are ignored.
  unfoldable pub get_json : TraceResponse → Bytes
  get_json resp =
      if is_interactive then bytes_or_nil (marshal_indent resp) else bytes_or_nil (marshal resp)

  abbrev pub newline : Bytes
  newline = b'\n' ∷ []

  -- `showTrace`: an output format of another name shows nothing.
  unfoldable pub show_trace : String → TraceResponse → List Shown
  unfolding show_log get_json
  show_trace output resp =
      if output == ""
      then show_log resp ∷ []
      else if output == "yaml"
      then printed (bytes_or_nil (json_to_yaml (get_json resp)) ++ newline) ∷ []
      else if output == "json"
      then printed (get_json resp ++ newline) ∷ []
      else []

  unfoldable pub show_all : String → List TraceResponse → List Shown
  unfolding show_trace
  show_all output [] = []
  show_all output (resp ∷ resps) = show_trace output resp ++ show_all output resps

  -- The loop of `run` over what `Recv` returns; it returns io.EOF at the end.
  unfoldable pub receive : String → List (Fallible TraceResponse) → List Shown × Option Error
  unfolding show_trace
  receive output [] = ([], none)
  receive output (fails e ∷ stream) = ([], some (concat "could not receive from stream: " e))
  receive output (value resp ∷ stream) =
      let (shown, e) = receive output stream in (show_trace output resp ++ shown, e)

  abbrev pub with_stream :
      TraceOptions → Fallible (List (Fallible TraceResponse)) → List Shown × Option Error
  with_stream opts (fails e) = ([], some (concat "could not trace: " e))
  with_stream opts (value stream) =
      let (shown, e) = receive opts.output stream in
      (show_trace opts.output (started opts) ++ shown, e)

  -- `run`: with what Dial returns, and what the service answers to the request.
  unfoldable pub run_trace :
      Option Error
      → (TraceRequest → Fallible (List (Fallible TraceResponse)))
      → TraceOptions
      → Result (List Shown × Option Error)
  unfolding receive trace_request trace_params
  run_trace (some e) tc opts = panics
  run_trace none tc opts = ok (with_stream opts (tc (trace_request opts)))
