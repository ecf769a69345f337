-- ===== src/Cli/GeneratePolicy.antt =====
-- internal/cli/cmd/agent/generate_policy.go: the policy for a process.
pub mod Selects
use Prim.Native.Nat.{◌-◌}
use Prim.Native.String.{◌++◌ as concat, slice, len}
use text.Mathlib.Text.{starts_with}
use camblet.Base.{
  ℕ, Bool, true, false, not, ◌&&◌, ◌||◌, List, [], ◌∷◌, ◌++◌, Option, none, some, String, ◌==◌,
  if◌then◌else◌, any, ltb,
}
use camblet.Base.Result.{Error}
use camblet.Base.Fallible.{Fallible, value, fails, ◌>>=◌}
use camblet.Agent.Commands.Augment.{Label}
use camblet.Policy.Types.{
  Value, string_value, Fields, no_fields, field, Certificate, MutualTlsMode, disable, strict,
  Connection, RawPolicy, raw_policy, no_raw,
}

abbrev pub default_labels : List String
default_labels =
    "process:uid" ∷ "process:gid" ∷ "process:binary:path" ∷ "process:name" ∷ "k8s:pod:name"
    ∷ "k8s:pod:namespace" ∷ "k8s:pod:serviceaccount" ∷ "k8s:container:name" ∷ "k8s:container:image"
    ∷ "docker:name" ∷ "docker:image:name" ∷ []

pub record GeneratePolicyOptions : Type 0 where
  pub labels : List String
  pub additional_labels : List String
  pub dns_names : List String
  pub ttl : ℕ
  pub allowed_spiffe_ids : List String
  pub disable_mtls : Bool

-- strings.HasSuffix(l, "*") and strings.HasPrefix(label, l[:len(l)-1])
abbrev pub matches_star : String → String → Bool
matches_star l label =
    let body = len l - 1 in
    ltb 0 (len l) && slice l body (len l) == "*" && starts_with label (slice l 0 body)

unfoldable pub match_label : GeneratePolicyOptions → String → Bool
match_label opts label =
    any (opts.labels ++ opts.additional_labels) (λ l. matches_star l label || l == label)

-- `Fields[name] = value`
unfoldable pub set_field : String → Value → Fields → Fields
set_field k v no_fields = field k v no_fields
set_field k v (field j w fs) =
    let rest = set_field k v fs in if j == k then field k v fs else field j w rest

-- The loop over the labels of the metadata
unfoldable pub selector_of : GeneratePolicyOptions → Fields → List Label → Fields
unfolding match_label set_field
selector_of opts fs [] = fs
selector_of opts fs (label ∷ labels) =
    let with_it = selector_of opts (set_field label.name (string_value label.value) fs) labels in
    let without_it = selector_of opts fs labels in
    if match_label opts label.name then with_it else without_it

abbrev pub policy_of : GeneratePolicyOptions → String → Fields → RawPolicy
policy_of opts workload_id fs =
    raw_policy (fs ∷ [])
      (some (record { workload_id = workload_id; dns_names = opts.dns_names; ttl = some opts.ttl }))
      (some (record {
        mtls = if opts.disable_mtls then disable else strict;
        passthrough = none;
        allowed_spiffe_ids = opts.allowed_spiffe_ids;
      }))
      no_raw

abbrev pub policy_with : GeneratePolicyOptions → String → Fields → Fallible RawPolicy
policy_with opts workload_id no_fields = fails "could not find selectors"
policy_with opts workload_id (field k v fs) = value (policy_of opts workload_id (field k v fs))

-- `run` up to the policy that is written, for the labels of the metadata of the process.
unfoldable pub generate_policy : GeneratePolicyOptions → String → List Label → Fallible RawPolicy
unfolding selector_of
generate_policy opts workload_id labels =
    policy_with opts workload_id (selector_of opts no_fields labels)

-- The checks before `run`; whether a text is a domain and a SPIFFE ID is asked of the libraries.
module _ (is_valid_domain : String → Bool) (spiffe_id_error : String → Option Error) where
  abbrev pub first_invalid_domain : List String → Option Error
  first_invalid_domain [] = none
  first_invalid_domain (name ∷ names) =
      let later = first_invalid_domain names in
      if is_valid_domain name then later else some (concat "invalid dns name: " name)

  abbrev pub first_invalid_id : List String → Option Error
  first_invalid_id [] = none
  first_invalid_id (id ∷ ids) = elim (spiffe_id_error id) [
    | some e ↦ some (concat "could not parse spiffe id: " e)
    | none ↦ first_invalid_id ids
  ]

  unfoldable pub check_options : GeneratePolicyOptions → Option Error
  check_options opts = elim (first_invalid_domain opts.dns_names) [
    | some e ↦ some e
    | none ↦ first_invalid_id opts.allowed_spiffe_ids
  ]
