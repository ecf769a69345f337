-- ===== src/Cli/Tests.antt =====
-- A policy that is generated, and the file of the agent's own authority, on examples.
use camblet.Tls.Toy.{toy, toy_platform}
use camblet.Cli.Authority.{FileSystem, ensure_ca_certificate}
use camblet.Cli.Authority.Guarded.{IsGuarded, Gives, ensure_ca_certificate-IsGuarded}
use camblet.Config.Environment.{not_found, bind_envs, dump}
use camblet.Config.Samples.{given, read_file, parse_duration, collectors}
use camblet.Config.Settings.{validate_agent}
use camblet.Config.Kubernetes.{validate_kubernetes, kubelet_options}
use camblet.Config.Collectors.{
  validate_collectors, validate_procfs, validate_docker, defaults, get_metadata_collector,
}
use camblet.Base.Int.{pos}
use camblet.Base.Result.{ok, err}
use camblet.Cli.Terminal.{
  Terminal, if_confirmed, input_password, logger, create_logger, bind_cmd_flags,
}
use camblet.Cli.Root.{DumpFormats, exits, persistent_pre_run}
use camblet.Cli.Process.{Metadata, augment_lines, generate_policy_text}
use camblet.Base.{ℕ, ◌+◌, true, ◌==◌, ◌≡◌, refl, false, List, [], ◌∷◌, none, some, String}
use camblet.Base.Fallible.{value, fails}
use camblet.Agent.Commands.Augment.{Label}
use camblet.Policy.Types.{string_value, no_fields, field, RawPolicy, no_raw, raws, Policies}
use camblet.Policy.Convert.{Formats, convert_policies}
use camblet.Cli.GeneratePolicy.{
  GeneratePolicyOptions, default_labels, match_label, set_field, selector_of, policy_of,
  generate_policy,
}
use camblet.Cli.GeneratePolicy.Selects.{SelectsAlone, in_response, generate_policy-SelectsAlone}

abbrev formats : Formats
formats = record { number = λ n. "0"; marshal = λ certificate. none; sha1_uuid = λ y. "id" }

abbrev opts : GeneratePolicyOptions
opts = record {
  labels = default_labels;
  additional_labels = "linuxos:*" ∷ [];
  dns_names = [];
  ttl = 86400;
  allowed_spiffe_ids = [];
  disable_mtls = false;
}

abbrev labels : List Label
labels =
    record { name = "process:name"; value = "nginx" }
    ∷ record { name = "linuxos:name"; value = "ubuntu" }
    ∷ record { name = "other"; value = "x" }
    ∷ []

abbrev generated : RawPolicy
generated = policy_of opts "workload" (
    field "process:name" (string_value "nginx")
      (field "linuxos:name" (string_value "ubuntu") no_fields))

generate_policy-generated : generate_policy opts "workload" labels ≡ value generated
unfolding generate_policy selector_of match_label set_field
generate_policy-generated = refl

generate_policy-SelectsAlone_example :
    (qs : Policies) × (convert_policies formats (raws generated no_raw) ≡ some qs)
    × SelectsAlone formats opts "workload" (in_response labels) qs
generate_policy-SelectsAlone_example =
    generate_policy-SelectsAlone formats opts "workload" labels generated generate_policy-generated

-- A system on which the file does not exist, and every call succeeds.
abbrev fs : FileSystem
fs = record {
  stat = λ path. some "no such file";
  chmod = λ path mode. none;
  create = λ path. none;
  write = λ path content. none;
}

ensure_ca_certificate-IsGuarded_example :
    IsGuarded false (ensure_ca_certificate toy toy_platform fs "ca.pem").1
    × Gives "ca.pem" (ensure_ca_certificate toy toy_platform fs "ca.pem").0
ensure_ca_certificate-IsGuarded_example =
    ensure_ca_certificate-IsGuarded toy toy_platform fs "ca.pem"

-- A terminal whose user says no.
abbrev terminal : Terminal
terminal = record {
  stdout_is_terminal = true;
  stdin_is_terminal = true;
  get_bool = λ flag. flag == "no-color";
  ask_confirm = λ message default_option. value false;
  ask_input = λ message default_value. value "answer";
  ask_password = λ message. fails "interrupt";
}

declined : if_confirmed terminal "delete?" true (λ (s : ℕ). (none, s + 1)) 4 ≡ (none, 4)
unfolding if_confirmed
declined = refl

without_questions :
    if_confirmed
      (record terminal { stdin_is_terminal = false })
      "delete?"
      true
      (λ (s : ℕ). (none, s + 1))
      4
    ≡ (none, 5)
unfolding if_confirmed
without_questions = refl

no_password : input_password terminal "password:" ≡ fails "failed getting user password: interrupt"
unfolding input_password
no_password = refl

kept_logger :
    (logger terminal none).1
    ≡ some (record { add_caller = true; colorize = false; humanize = true; caller_skip = 2 })
unfolding logger create_logger
kept_logger = refl

-- A flag that starts with the name of its command is bound twice.
bound_flags :
    bind_cmd_flags (λ part. part) (λ key flag. false) "agent" ("agent-id" ∷ "port" ∷ []) []
    ≡ ("agent.agent-id", "agent-id") ∷ ("agent.id", "agent-id") ∷ ("agent.port", "port") ∷ []
unfolding bind_cmd_flags
bound_flags = refl

-- The configuration as the text of its address.
abbrev dump_formats : DumpFormats String
dump_formats = record {
  marshal = λ c. value c.local_address;
  unmarshal = λ text. value text;
  to_yaml = λ text. value text;
}

dumped :
    (persistent_pre_run toy read_file parse_duration
      (λ file. record {
        read_in_config = not_found;
        bind_error = λ key. none;
        unmarshal = λ keys. value given;
      })
      (fails "no YAML")
      dump_formats
      (record {
        verbosity = pos 1;
        config = "";
        dump_viper_settings = false;
        dump_config = true;
      })).1
    ≡ ok (exits ":50600")
unfolding persistent_pre_run bind_envs validate_agent validate_collectors validate_procfs
    validate_docker validate_kubernetes defaults dump
dumped = refl

abbrev metadata : List Label → Metadata
metadata found = record {
  crypto = toy;
  read_content = read_file;
  accepts = λ c. none;
  config = collectors;
  atoi = λ arg. value (pos 7);
  get_metadata = λ cs pid. found;
}

augmented :
    augment_lines (metadata labels) "7"
    ≡ ok ("process:name=nginx" ∷ "linuxos:name=ubuntu" ∷ "other=x" ∷ [])
unfolding augment_lines get_metadata_collector kubelet_options
augmented = refl

printed_policy :
    generate_policy_text
      (metadata [])
      (record { marshal = λ p. value "{}"; json_to_yaml = λ j. value j })
      opts
      "7"
      "workload"
    ≡ err "could not find selectors"
unfolding generate_policy_text get_metadata_collector kubelet_options selector_of
printed_policy = refl
