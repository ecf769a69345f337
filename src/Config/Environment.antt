-- ===== src/Config/Environment.antt =====
-- pkg/config/configuration.go and config.go: how the configuration is put together, and the keys that
-- environment variables set.
pub mod Leaves
use camblet.Base.{List, [], ◌∷◌, ◌++◌, Option, none, some, String, ◌==◌, if◌then◌else◌}
use camblet.Base.Result.{Error, Result, ok, err, panics, ◌>>=◌, ◌>>◌}
use camblet.Base.Fallible.{Fallible, value, fails}
use camblet.Base.Text.{join, before}
use camblet.Base.Int.{ℤ}
use camblet.Tls.Types.{Bytes, Crypto}
use camblet.Config.Settings.{AgentConfig, validate_agent}

-- What reflection shows of a type: the kind of each field, with its tag `json`, if it has one.
mutual
  pub data Kind : Type 0 where
    value_kind : Kind
    struct_kind : Shape → Kind

  pub data Shape : Type 0 where
    no_fields : Shape
    field : Option String → Kind → Shape → Shape

abbrev value_field : String → Shape → Shape
value_field tag rest = field (some tag) value_kind rest

abbrev struct_field : String → Shape → Shape → Shape
struct_field tag shape rest = field (some tag) (struct_kind shape) rest

-- BaseConfig is embedded, without a name.
abbrev base_field : Shape → Shape
base_field rest = struct_field ",inline" (value_field "enabled,omitempty" no_fields) rest

abbrev kubernetes_shape : Shape
kubernetes_shape = base_field (
    value_field "kubeletHost,omitempty" (
      value_field "kubeletPort,omitempty" (
        value_field "kubeletCA,omitempty" (
          value_field "skipKubeletVerification,omitempty"
            (value_field "credentials,omitempty" no_fields)))))

abbrev collectors_shape : Shape
collectors_shape =
    struct_field "procfs,omitempty" (base_field (value_field "extractEnvs,omitempty" no_fields)) (
      struct_field "linuxos,omitempty" (base_field no_fields) (
        struct_field "sysfsdmi,omitempty" (base_field no_fields) (
          struct_field "azure,omitempty" (base_field no_fields) (
            struct_field "ec2,omitempty" (base_field no_fields) (
              struct_field "gcp,omitempty" (base_field no_fields) (
                struct_field "docker,omitempty"
                  (base_field (value_field "socketPath,omitempty" no_fields))
                  (struct_field "kubernetes,omitempty" kubernetes_shape no_fields)))))))

abbrev agent_shape : Shape
agent_shape = value_field "localAddress,omitempty" (
    value_field "kernelModuleDevice,omitempty" (
      struct_field "metadataCollectors,omitempty" collectors_shape (
        value_field "trustDomain,omitempty" (
          value_field "defaultCertTTL,omitempty" (
            value_field "-" (
              value_field "caPEMPath,omitempty" (
                value_field "policiesPath,omitempty"
                  (value_field "servicesPath,omitempty" no_fields))))))))

-- The type Config
abbrev pub config_shape : Shape
config_shape = struct_field "agent,omitemtpy" agent_shape no_fields

-- `_parts` for a struct with a tag
abbrev pub inner_parts : List String → String → List String
inner_parts parts tag = if tag == "" then parts else (parts ++ tag ∷ [])

-- `bindEnvs`: the keys that are bound, in their order; `bind_error` is what BindEnv returns.
module _ (bind_error : String → Option Error) where
  abbrev pub bind_env : String → Result (List String)
  bind_env key = elim (bind_error key) [ none ↦ ok (key ∷ []) | some e ↦ panics ]

  unfoldable mutual
    unfolding before

    pub bind_field : List String → Kind → String → Result (List String)
    bind_field parts value_kind tag = bind_env (join "." (parts ++ tag ∷ []))
    bind_field parts (struct_kind shape) tag = bind_envs (inner_parts parts tag) shape

    pub bind_envs : List String → Shape → Result (List String)
    bind_envs parts no_fields = ok []
    bind_envs parts (field none kind rest) = bind_envs parts rest
    bind_envs parts (field (some tag) kind rest) =
        bind_field parts kind (before tag ",") >>= λ bound.
        bind_envs parts rest >>= λ others. ok (bound ++ others)

-- `DefaultConfigLocations`, and the paths that `setupViper` adds
abbrev pub default_config_locations : List String
default_config_locations = "." ∷ "/.config" ∷ []

unfoldable pub config_paths : String → List String
config_paths config_dir =
    default_config_locations ++ (if config_dir == "." then [] else (config_dir ∷ []))

-- What ReadInConfig returns.
pub data ReadError : Type 0 where
  no_error not_found other_error : ReadError

-- What `Configure` takes from viper: the file and the environment, and the configuration that they
-- make, given the bound keys.
pub record Viper : Type 0 where
  pub read_in_config : ReadError
  pub bind_error : String → Option Error
  pub unmarshal : List String → Fallible AgentConfig

abbrev pub read_config : ReadError → Result (Unit {0})
read_config no_error = ok tt
read_config not_found = ok tt
read_config other_error = panics

abbrev pub or_panic {ℓ} : {A : Type ℓ} → Result A → Result A
or_panic (ok a) = ok a
or_panic (err e) = panics
or_panic _ = panics

abbrev pub value_or_panic {ℓ} : {A : Type ℓ} → Fallible A → Result A
value_or_panic (value a) = ok a
value_or_panic (fails e) = panics

-- `Configure`, which panics on an error, also of `Validate` of Config.
unfoldable pub configure :
    Crypto → (Bytes → Fallible Bytes) → (String → Fallible ℤ) → Viper → Result AgentConfig
unfolding bind_envs validate_agent
configure crypto read_file parse_duration viper = do
  read_config viper.read_in_config
  bound ← bind_envs viper.bind_error [] config_shape
  configuration ← value_or_panic (viper.unmarshal bound)
  or_panic (validate_agent crypto read_file parse_duration configuration)

-- `Dump`: the empty text on an error
unfoldable pub dump :
    {Values : Type 0}
    → (AgentConfig → Fallible String)
    → (String → Fallible Values)
    → (Values → Fallible String)
    → AgentConfig
    → String
dump marshal unmarshal to_yaml c = elim (marshal c) [
  | fails e ↦ ""
  | value j ↦ elim (unmarshal j) [
    | fails e ↦ ""
    | value values ↦ elim (to_yaml values) [ fails e ↦ "" | value y ↦ y ]
  ]
]
