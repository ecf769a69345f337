-- ===== src/Agent/Trace/Stream.antt =====
-- From the published responses through the trace service to what the command shows.
use camblet.Base.Int.{ℤ, pos, negsuc, uint32, pos_part}
use camblet.Base.{
  zero, suc, ◌<◌, ◌≢◌, ◌↔◌, sym, ◌≡◌, refl, ap, ap₂, ◌∙◌, Bool, true, false, Bool-cases, List, [],
  ◌∷◌, ◌++◌, All, map, Option, none, some, inl, inr, String, if◌then◌else◌, ℕ, eq_iff, arith,
}
use camblet.Base.Result.{Result, ok, err, ◌>>=◌}
use camblet.Base.Fallible.{Fallible, value, fails}
use camblet.Agent.Trace.{
  TraceContext, TraceResponse, TraceRequest, TraceOptions, TraceEvent, add_trace_request,
  remove_trace_request, request_published, sent, match_context, match_response, send_matching,
  trace, trace_request, is_positive,
}
use camblet.Agent.Trace.Requests.{Asks, IsInt32, trace_request-Asks}
use camblet.Agent.Trace.Client.{
  TraceFormats, show_trace, show_all, receive, started, with_stream, run_trace,
}

-- A response of a log command: it has a context.
abbrev pub HasContext : TraceResponse → Type 0
HasContext resp = (ctx : TraceContext) × (resp.context ≡ some ctx)

-- The context has the process ID, the user ID and the command name that are given: a process ID
-- is if it is greater than 0, a user ID if it is not negative, and a name if it is not empty.
pub record Agrees (opts : TraceOptions) (ctx : TraceContext) : Type 0 where
  pub pid : (n : ℕ) → opts.pid ≡ pos n → 0 < n → ctx.pid ≡ n
  pub uid : (n : ℕ) → opts.uid ≡ pos n → ctx.uid ≡ n
  pub command_name : opts.command_name ≢ "" → ctx.command_name ≡ opts.command_name

-- A number of type int32 that is not negative keeps its value as a number of type uint32.
uint32-pos : (z : ℤ) (n : ℕ) → IsInt32 z → z ≡ pos n → uint32 z ≡ n
uint32-pos (pos m) n range h = let same : m ≡ n = ap pos_part h in omega (arith, range, same)
uint32-pos (negsuc m) n range h = cc

is_positive_iff : (z : ℤ) (n : ℕ) → z ≡ pos n → 0 < n → is_positive z ≡ true
is_positive_iff z n h more = rw h (ground arith)

positive-pos : (z : ℤ) → is_positive z ≡ true → (n : ℕ) × (z ≡ pos n) × (0 < n)
positive-pos (pos n) h = (n, refl, ground arith)
positive-pos (negsuc n) h = cc

more_than_0 : (n : ℕ) → n ≢ 0 → 0 < n
more_than_0 zero h = absurd (h refl)
more_than_0 (suc n) h = omega arith

Asks-Agrees :
    (opts : TraceOptions) (ctx : TraceContext)
    → IsInt32 opts.pid
    → IsInt32 opts.uid
    → opts.uid ≢ pos 0
    → Asks opts ctx ↔ Agrees opts ctx
Asks-Agrees opts ctx range range' not_root = (
  λ asks. record {
    pid = λ n is more.
        sym (asks.pid (is_positive_iff opts.pid n is more)) ∙ uint32-pos opts.pid n range is;
    uid = λ n is.
        sym (
          asks.uid
            (is_positive_iff opts.uid n is (more_than_0 n (λ zero. not_root (is ∙ ap pos zero)))))
        ∙ uint32-pos opts.uid n range' is;
    command_name = λ given. sym (asks.command_name given);
  },
  λ agrees. record {
    pid = λ positive.
        let (n, is, more) = positive-pos opts.pid positive in
        uint32-pos opts.pid n range is ∙ sym (agrees.pid n is more);
    uid = λ positive.
        let (n, is, more) = positive-pos opts.uid positive in
        uint32-pos opts.uid n range' is ∙ sym (agrees.uid n is);
    command_name = λ given. sym (agrees.command_name given);
  },
)

-- Of the responses, those whose context agrees with each option that is given, in their order.
pub data Selects (opts : TraceOptions) : List TraceResponse → List TraceResponse → Type 0 where
  end : Selects opts [] []
  takes :
      (resp : TraceResponse) (ctx : TraceContext) {resps selected : List TraceResponse}
      → resp.context ≡ some ctx
      → Agrees opts ctx
      → Selects opts resps selected
      → Selects opts (resp ∷ resps) (resp ∷ selected)
  leaves :
      (resp : TraceResponse) (ctx : TraceContext) {resps selected : List TraceResponse}
      → resp.context ≡ some ctx
      → ¬ (Agrees opts ctx)
      → Selects opts resps selected
      → Selects opts (resp ∷ resps) selected

read_context :
    (pid : ℕ) (uid : Option ℕ) (name : String) (resp : TraceResponse) (ctx : TraceContext)
    → resp.context ≡ some ctx
    → match_response (record { pid = pid; uid = uid; command_name = name }) resp
      ≡ ok (match_context (record { pid = pid; uid = uid; command_name = name }) ctx)
unfolding match_response
read_context pid none name resp ctx h = ground (arith, eq_iff name "", eq_iff name ctx.command_name)
read_context pid (some uid) name resp ctx h =
    ground (arith, eq_iff name "", eq_iff name ctx.command_name)

send_matching-cons :
    (req : TraceRequest) (resp : TraceResponse) (resps : List TraceResponse) (matches : Bool)
    (events : List TraceEvent)
    → match_response req resp ≡ ok matches
    → send_matching req resps ≡ ok events
    → send_matching req (resp ∷ resps) ≡ ok (if matches then sent resp ∷ events else events)
unfolding send_matching
send_matching-cons req resp resps matches events h k =
    ap₂ (λ m es. m >>= λ b. (es >>= λ rest. ok (if b then sent resp ∷ rest else rest))) h k

-- What the service sends of responses with a context.
abbrev pub Sends : TraceOptions → List TraceResponse → Type 0
Sends opts resps =
    (selected : List TraceResponse) × Selects opts resps selected
    × (send_matching (trace_request opts) resps ≡ ok (map sent selected))

send_matching-Selects :
    (opts : TraceOptions) (resps : List TraceResponse)
    → IsInt32 opts.pid
    → IsInt32 opts.uid
    → opts.uid ≢ pos 0
    → All HasContext resps
    → Sends opts resps
unfolding send_matching
send_matching-Selects opts [] range range' not_root all = ([], end, refl)
send_matching-Selects opts (resp ∷ resps) range range' not_root ((ctx, has), all) =
    let (selected, selects, sends) = send_matching-Selects opts resps range range' not_root all in
    let req = trace_request opts in
    let reads = read_context req.pid req.uid req.command_name resp ctx has in
    let asks = trace_request-Asks opts ctx range in
    let agrees = Asks-Agrees opts ctx range range' not_root in
    elim (Bool-cases (match_context req ctx)) [
      | inl e ↦ (
        resp ∷ selected,
        takes resp ctx has (agrees.0 (asks.0 e)) selects,
        send_matching-cons req resp resps true (map sent selected) (reads ∙ ap ok e) sends,
      )
      | inr e ↦ (
        selected,
        leaves resp ctx has (λ a. let both = asks.1 (agrees.1 a) in cc) selects,
        send_matching-cons req resp resps false (map sent selected) (reads ∙ ap ok e) sends,
      )
    ]

receive-values :
    (formats : TraceFormats) (output : String) (resps : List TraceResponse)
    → receive formats output (map value resps) ≡ (show_all formats output resps, none)
unfolding receive show_all
receive-values formats output [] = refl
receive-values formats output (resp ∷ resps) =
    ap (λ r. (show_trace formats output resp ++ r.0, r.1)) (receive-values formats output resps)

-- The stream of a client: what the service sends.
abbrev pub sent_of : List TraceEvent → List (Fallible TraceResponse)
sent_of [] = []
sent_of (request_published req action ∷ events) = sent_of events
sent_of (sent resp ∷ events) = value resp ∷ sent_of events

abbrev pub stream_of : Result (List TraceEvent) → Fallible (List (Fallible TraceResponse))
stream_of (ok events) = value (sent_of events)
stream_of (err e) = fails e
stream_of _ = fails "the agent panics"

sent_of-map :
    (resps : List TraceResponse) (req : TraceRequest)
    → sent_of (map sent resps ++ request_published req remove_trace_request ∷ []) ≡ map value resps
sent_of-map [] req = refl
sent_of-map (resp ∷ resps) req = ap (λ rs. value resp ∷ rs) (sent_of-map resps req)

trace-ok :
    (req : TraceRequest) (resps : List TraceResponse) (events : List TraceEvent)
    → send_matching req resps ≡ ok events
    → trace none none req resps
      ≡ ok (
          request_published req add_trace_request
          ∷ (events ++ request_published req remove_trace_request ∷ []))
unfolding trace
trace-ok req resps events h =
    ap
      (λ r. r >>= λ es. ok (
        (request_published req add_trace_request ∷ es)
        ++ request_published req remove_trace_request ∷ []))
      h

-- For IDs of type int32, and unless the user ID that is given is 0, if the responses have contexts,
-- as those of log commands have, and no call fails: the service adds the request, sends exactly the
-- responses whose context has the process ID greater than 0, the user ID that is not negative and
-- the name that is not empty, if they are given, in their order, and removes the request; and the
-- command, which gets what the service sends, shows that it started and then each of these
-- responses, in the format that is asked for.
pub trace-shows :
    (formats : TraceFormats) (opts : TraceOptions) (resps : List TraceResponse)
    → IsInt32 opts.pid
    → IsInt32 opts.uid
    → opts.uid ≢ pos 0
    → All HasContext resps
    → (selected : List TraceResponse) × Selects opts resps selected
      × (trace none none (trace_request opts) resps
          ≡ ok (
              request_published (trace_request opts) add_trace_request
              ∷ (map sent selected
                  ++ request_published (trace_request opts) remove_trace_request ∷ [])))
      × (run_trace formats none (λ req. stream_of (trace none none req resps)) opts
          ≡ ok (show_all formats opts.output (started opts ∷ selected), none))
unfolding run_trace show_all
trace-shows formats opts resps range range' not_root all =
    let (selected, selects, sends) = send_matching-Selects opts resps range range' not_root all in
    let traced = trace-ok (trace_request opts) resps (map sent selected) sends in
    (
      selected,
      selects,
      traced,
      ap (λ r. ok (with_stream formats opts (stream_of r))) traced
          ∙ ap (λ rs. ok (with_stream formats opts (value rs)))
              (sent_of-map selected (trace_request opts))
          ∙ ap (λ r. ok (show_trace formats opts.output (started opts) ++ r.0, r.1))
              (receive-values formats opts.output selected),
    )
