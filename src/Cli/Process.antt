-- ===== src/Cli/Process.antt =====
-- The commands on a running process: `augment` of internal/cli/cmd/agent/augment.go, and the run of
-- `generate-policy` of internal/cli/cmd/agent/generate_policy.go around the policy.
use Prim.Native.String.{◌++◌ as concat}
use camblet.Base.{List, [], ◌∷◌, Option, String}
use camblet.Base.Result.{Error, Result, ok, ◌>>=◌}
use camblet.Tls.Authority.Defs.{lift}
use camblet.Base.Int.{ℤ, uint32, int32}
use camblet.Base.Fallible.{Fallible, value, fails}
use camblet.Tls.Types.{Bytes, Crypto}
use camblet.Config.Collectors.{Collector, CollectorsConfig, get_metadata_collector}
use camblet.Agent.Commands.Augment.{Label}
use camblet.Policy.Types.{RawPolicy}
use camblet.Cli.GeneratePolicy.{GeneratePolicyOptions, generate_policy}

-- What the commands take from strconv and from the collectors, whose errors are only logged: the
-- number that a text is, whether a collector is accepted, and the labels of a process.
pub record Metadata : Type 0 where
  pub crypto : Crypto
  pub read_content : Bytes → Fallible Bytes
  pub accepts : Collector → Option Error
  pub config : CollectorsConfig
  pub atoi : String → Fallible ℤ
  pub get_metadata : List Collector → ℤ → List Label

-- The labels of the process with the number in the argument
unfoldable pub process_labels : Metadata → String → Result (List Label)
unfolding get_metadata_collector
process_labels metadata arg = do
  collectors ←
      get_metadata_collector metadata.crypto metadata.read_content metadata.accepts metadata.config
  pid ← lift (metadata.atoi arg)
  ok (metadata.get_metadata collectors (int32 (uint32 pid)))

abbrev pub label_lines : List Label → List String
label_lines [] = []
label_lines (label ∷ labels) = concat label.name (concat "=" label.value) ∷ label_lines labels

-- `augment`: the lines that are printed.
unfoldable pub augment_lines : Metadata → String → Result (List String)
unfolding process_labels
augment_lines metadata arg = do labels ← process_labels metadata arg; ok (label_lines labels)

-- What `generate-policy` takes from protojson and yaml.
pub record PolicyPrinter : Type 0 where
  pub marshal : RawPolicy → Fallible String
  pub json_to_yaml : String → Fallible String

abbrev pub with_message {ℓ} : {A : Type ℓ} → String → Fallible A → Fallible A
with_message message (value a) = value a
with_message message (fails e) = fails (concat message (concat ": " e))

abbrev pub print_policy : PolicyPrinter → Fallible RawPolicy → Fallible String
print_policy printer (fails e) = fails e
print_policy printer (value policy) =
    elim (with_message "could not marshal json" (printer.marshal policy)) [
      | fails e ↦ fails e
      | value json ↦
          with_message "could not marshal yaml"
            (printer.json_to_yaml (concat "[" (concat json "]")))
    ]

-- `run` of `generate-policy`: what is printed for a process and a workload.
unfoldable pub generate_policy_text :
    Metadata → PolicyPrinter → GeneratePolicyOptions → String → String → Result String
unfolding process_labels generate_policy
generate_policy_text metadata printer opts arg workload_id = do
  labels ← process_labels metadata arg
  lift (print_policy printer (generate_policy opts workload_id labels))
