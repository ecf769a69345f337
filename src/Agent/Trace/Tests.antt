-- ===== src/Agent/Trace/Tests.antt =====
-- Tracing on examples.
use camblet.Base.{◌≡◌, ◌≢◌, ◌↔◌, refl, ap, true, false, List, [], ◌∷◌, ◌++◌, map, none, some, arith}
use camblet.Base.Int.{pos, negsuc, pos_part}
use camblet.Base.Result.{ok}
use camblet.Base.Fallible.{value, fails}
use camblet.Agent.Trace.{
  TraceContext, TraceResponse, TraceOptions, match_context, trace_request, check_trace_options,
  is_positive, add_trace_request, remove_trace_request, request_published, sent, trace,
}
use camblet.Agent.Trace.Requests.{trace_request-matches_all}
use camblet.Agent.Trace.Client.{TraceFormats, logged, text, number, started, show_all, run_trace}
use camblet.Agent.Trace.Stream.{Selects, stream_of, trace-shows}

abbrev opts : TraceOptions
opts = record { uid = pos 33; pid = negsuc 0; command_name = "nginx"; output = "" }

abbrev nginx_context : TraceContext
nginx_context = record {
  pid = 12;
  uid = 33;
  gid = 33;
  command_name = "nginx";
  command_path = "/usr/sbin/nginx";
  cgroup_path = "";
}

abbrev root_opts : TraceOptions
root_opts = record { uid = pos 0; pid = negsuc 0; command_name = ""; output = "" }

trace_request-matches_all_example :
    ((ctx : TraceContext) → match_context (trace_request root_opts) ctx ≡ true) ↔ (
      (root_opts.uid ≡ pos 0) × (is_positive root_opts.pid ≡ false) × (root_opts.command_name ≡ ""))
unfolding check_trace_options
trace_request-matches_all_example = trace_request-matches_all root_opts (omega arith) refl

abbrev formats : TraceFormats
formats = record {
  to_lower_camel = λ k. k;
  marshal = λ resp. value (1 ∷ []);
  marshal_indent = λ resp. value (2 ∷ []);
  json_to_yaml = λ j. fails "no YAML";
  is_interactive = false;
}

abbrev nginx_response : TraceResponse
nginx_response = record {
  context = some nginx_context;
  message = "accepted";
  values = ("id", "7") ∷ ("direction", "input") ∷ [];
}

abbrev other_response : TraceResponse
other_response = record nginx_response { context = some (record nginx_context { uid = 1000 }) }

uid-not_root : opts.uid ≢ pos 0
uid-not_root h = let same : 33 ≡ 0 = ap pos_part h in absurd (omega (arith, same))

trace-shows_example :
    (selected : List TraceResponse) × Selects opts (other_response ∷ nginx_response ∷ []) selected
    × (trace none none (trace_request opts) (other_response ∷ nginx_response ∷ [])
        ≡ ok (
            request_published (trace_request opts) add_trace_request
            ∷ (map sent selected
                ++ request_published (trace_request opts) remove_trace_request ∷ [])))
    × (run_trace formats none
          (λ req. stream_of (trace none none req (other_response ∷ nginx_response ∷ [])))
          opts
        ≡ ok (show_all formats opts.output (started opts ∷ selected), none))
trace-shows_example =
    trace-shows formats opts (other_response ∷ nginx_response ∷ []) (omega arith) (omega arith)
      uid-not_root ((_, refl), ((_, refl), tt))

shown-nginx :
    run_trace formats none
      (λ req. stream_of (trace none none req (other_response ∷ nginx_response ∷ [])))
      opts
    ≡ ok (
      logged "" "tracing started" (("uid", text "33") ∷ ("commandName", text "nginx") ∷ [])
          ∷ logged "7" "accepted" (
              ("ctx.commandName", text "nginx")
              ∷ ("ctx.commandPath", text "/usr/sbin/nginx")
              ∷ ("ctx.uid", number 33)
              ∷ ("ctx.gid", number 33)
              ∷ ("direction", text "input")
              ∷ [])
          ∷ [],
      none,
    )
unfolding run_trace trace
shown-nginx = refl
