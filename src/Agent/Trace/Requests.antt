-- ===== src/Agent/Trace/Requests.antt =====
-- Which responses a trace request of the command line matches.
use camblet.Base.{
  ℕ, suc, ◌<◌, ◌^◌, ◌≡◌, ◌≢◌, ◌↔◌, refl, true, false, Option, none, some, inl, inr, String, eq_iff,
  Bool-cases, arith, if◌then◌else◌,
}
use camblet.Base.Int.{ℤ, pos, negsuc, uint32}
use camblet.Agent.Trace.{
  TraceContext, match_context, TraceOptions, check_trace_options, trace_request, is_positive,
  is_negative,
}

-- What the options ask of a context.
pub record Asks (opts : TraceOptions) (ctx : TraceContext) : Type 0 where
  pub pid : is_positive opts.pid ≡ true → uint32 opts.pid ≡ ctx.pid
  pub uid : is_positive opts.uid ≡ true → uint32 opts.uid ≡ ctx.uid
  pub command_name : opts.command_name ≢ "" → opts.command_name ≡ ctx.command_name

match_context_iff :
    (pid : ℕ) (uid : Option ℕ) (name : String) (ctx : TraceContext)
    → (match_context (record { pid = pid; uid = uid; command_name = name }) ctx ≡ true) ↔ (
        (0 < pid → pid ≡ ctx.pid)
        × ((id : ℕ) → uid ≡ some id → id ≡ ctx.uid)
        × (name ≢ "" → name ≡ ctx.command_name))
unfolding match_context
match_context_iff pid none name ctx = (
  λ h. (
    λ p. ground (arith, eq_iff name "", eq_iff name ctx.command_name),
    λ id e. cc,
    λ ne. ground (arith, eq_iff name "", eq_iff name ctx.command_name),
  ),
  λ (hp, hu, hn). ground (arith, hp, hn, eq_iff name "", eq_iff name ctx.command_name),
)
match_context_iff pid (some uid) name ctx = (
  λ h. (
    λ p. ground (arith, eq_iff name "", eq_iff name ctx.command_name),
    λ id e. ground (arith, eq_iff name "", eq_iff name ctx.command_name),
    λ ne. ground (arith, eq_iff name "", eq_iff name ctx.command_name),
  ),
  λ (hp, hu, hn). ground (arith, hp, hu uid refl, hn, eq_iff name "", eq_iff name ctx.command_name),
)

-- A number of type int32.
abbrev pub IsInt32 : ℤ → Type 0
IsInt32 (pos n) = n < 2 ^ 31
IsInt32 (negsuc n) = n < 2 ^ 31

uint32-positive : (z : ℤ) → IsInt32 z → is_positive z ≡ true → 0 < uint32 z
uint32-positive (pos n) range h = ground arith
uint32-positive (negsuc n) range h = cc

pid_asks :
    (z : ℤ) (pid : ℕ)
    → IsInt32 z
    → (0 < (if is_positive z then uint32 z else 0) → (if is_positive z then uint32 z else 0) ≡ pid)
      ↔ (is_positive z ≡ true → uint32 z ≡ pid)
pid_asks z pid range = elim (Bool-cases (is_positive z)) [
  | inl e ↦ rw e (λ h _. h (uint32-positive z range e), λ h _. h refl)
  | inr e ↦ rw e (λ h f. cc, λ h p. elim p [ ])
]

uid_asks :
    (z : ℤ) (uid : ℕ)
    → ((id : ℕ) → (if is_positive z then some (uint32 z) else none) ≡ some id → id ≡ uid)
      ↔ (is_positive z ≡ true → uint32 z ≡ uid)
uid_asks z uid = elim (Bool-cases (is_positive z)) [
  | inl e ↦ rw e (λ h _. h (uint32 z) refl, λ h id same. let k = h refl in cc)
  | inr e ↦ rw e (λ h f. cc, λ h id same. cc)
]

-- For options of type int32, the request of `trace-connection` matches the responses that agree
-- with each option that is given: a process ID and a user ID that are greater than 0, and a name
-- that is not empty.
pub trace_request-Asks :
    (opts : TraceOptions) (ctx : TraceContext)
    → IsInt32 opts.pid
    → (match_context (trace_request opts) ctx ≡ true) ↔ Asks opts ctx
unfolding trace_request
trace_request-Asks opts ctx range =
    let (only, if_) =
      match_context_iff (trace_request opts).pid (trace_request opts).uid opts.command_name ctx in
    let p = pid_asks opts.pid ctx.pid range in
    let u = uid_asks opts.uid ctx.uid in
    (
      λ h. let (hp, hu, hn) = only h in record { pid = p.0 hp; uid = u.0 hu; command_name = hn },
      λ a. if_ (p.1 a.pid, u.1 a.uid, a.command_name),
    )

-- A context that has other IDs and another name than the given ones.
other : ℕ → ℕ → String → TraceContext
other pid uid name = record {
  pid = pid;
  uid = uid;
  gid = 0;
  command_name = name;
  command_path = "";
  cgroup_path = "";
}

zero_if : (z : ℤ) → is_positive z ≡ false → is_negative z ≡ false → z ≡ pos 0
zero_if (pos n) p q = ground arith
zero_if (negsuc n) p q = cc

not_negative :
    (opts : TraceOptions)
    → check_trace_options opts ≡ none
    → is_positive opts.pid ≡ false
    → opts.command_name ≡ ""
    → is_negative opts.uid ≡ false
unfolding check_trace_options
not_negative opts accepted no_pid no_name =
    ground (arith, eq_iff opts.command_name "", accepted, no_pid, no_name)

pos_0 : (z : ℤ) → z ≡ pos 0 → ¬ (is_positive z ≡ true)
pos_0 z e h = cc (rw e at h)

-- For options that `trace-connection` accepts, with a process ID of type int32, the request
-- matches every response exactly if no process ID and no command name is given and the user ID
-- is 0: tracing the commands of root traces those of every user.
pub trace_request-matches_all :
    (opts : TraceOptions)
    → IsInt32 opts.pid
    → check_trace_options opts ≡ none
    → ((ctx : TraceContext) → match_context (trace_request opts) ctx ≡ true)
      ↔ ((opts.uid ≡ pos 0) × (is_positive opts.pid ≡ false) × (opts.command_name ≡ ""))
unfolding check_trace_options other
trace_request-matches_all opts range accepted = (
  λ every.
      let a1 = (trace_request-Asks opts (other 0 0 "") range).0 (every (other 0 0 "")) in
      let a2 =
        (trace_request-Asks opts (other (suc (uint32 opts.pid)) (suc (uint32 opts.uid)) "x")
            range).0
          (every (other (suc (uint32 opts.pid)) (suc (uint32 opts.uid)) "x")) in
      let no_name : opts.command_name ≡ "" =
        ground (arith, eq_iff opts.command_name "", a1.command_name) in
      let no_pid : is_positive opts.pid ≡ false = ground (arith, a2.pid) in
      let no_uid : is_positive opts.uid ≡ false = ground (arith, a2.uid) in
      (zero_if opts.uid no_uid (not_negative opts accepted no_pid no_name), no_pid, no_name),
  λ (zero_uid, no_pid, no_name) ctx. (trace_request-Asks opts ctx range).1 (record {
    pid = λ h. cc;
    uid = λ h. absurd (pos_0 opts.uid zero_uid h);
    command_name = λ ne. absurd (ne no_name);
  }),
)
