-- ===== src/Cli/Root.antt =====
-- internal/cli/cmd/root.go: the flags that are read before a command runs.
use camblet.Base.{Bool, List, [], ◌∷◌, ◌++◌, Option, none, some, String, ◌==◌, if◌then◌else◌}
use camblet.Base.Int.{ℤ}
use camblet.Base.Result.{Result, ok, panics, ◌>>=◌}
use camblet.Base.Fallible.{Fallible, value, fails}
use camblet.Agent.Trace.{is_negative}
use camblet.Tls.Types.{Bytes, Crypto}
use camblet.Config.Settings.{AgentConfig}
use camblet.Config.Environment.{Viper, configure, dump}
use camblet.Cli.Terminal.{BuildInfo}

abbrev pub common_flags : List String
common_flags =
    "config" ∷ "verbosity" ∷ "version" ∷ "no-color" ∷ "force-color" ∷ "non-interactive"
    ∷ "force-interactive" ∷ []

-- The persistent flags; the last two are there in a build for development only.
unfoldable pub persistent_flags : BuildInfo → List String
persistent_flags info =
    common_flags
    ++ (if info.version == "dev" then "dump-viper-settings" ∷ "dump-config" ∷ [] else [])

-- The values of the flags; a flag that is not there is false.
pub record RootFlags : Type 0 where
  pub verbosity : ℤ
  pub config : String
  pub dump_viper_settings : Bool
  pub dump_config : Bool

-- What happens before the command: it goes on with a configuration, or exits after printing.
pub data PreRun : Type 0 where
  goes_on : AgentConfig → PreRun
  exits : String → PreRun

-- The verbosity that is set, and the file that is configured.
pub record RootEffects : Type 0 where
  pub set_verbosity : Option ℤ
  pub set_config_file : Option String

-- What `Dump` takes from encoding/json and yaml, whose values are of one type.
pub record DumpFormats (Values : Type 0) : Type 0 where
  pub marshal : AgentConfig → Fallible String
  pub unmarshal : String → Fallible Values
  pub to_yaml : Values → Fallible String

-- `PersistentPreRunE`: `viper_for` is viper with the configured file, and `settings` the YAML of all
-- settings.
module _ {Values : Type 0} (crypto : Crypto) (read_file : Bytes → Fallible Bytes)
    (parse_duration : String → Fallible ℤ) (viper_for : Option String → Viper)
    (settings : Fallible String) (formats : DumpFormats Values) where
  abbrev pub root_effects : RootFlags → RootEffects
  root_effects flags = record {
    set_verbosity = if is_negative flags.verbosity then none else some flags.verbosity;
    set_config_file = if flags.config == "" then none else some flags.config;
  }

  abbrev pub settings_or_panic : Fallible String → Result PreRun
  settings_or_panic (value y) = ok (exits y)
  settings_or_panic (fails e) = panics

  abbrev pub after_configure : RootFlags → AgentConfig → Result PreRun
  after_configure flags c =
      if flags.dump_viper_settings
      then settings_or_panic settings
      else if flags.dump_config
      then ok (exits (dump formats.marshal formats.unmarshal formats.to_yaml c))
      else ok (goes_on c)

  unfoldable pub persistent_pre_run : RootFlags → RootEffects × Result PreRun
  unfolding configure dump
  persistent_pre_run flags =
      let effects = root_effects flags in
      (
        effects,
        configure crypto read_file parse_duration (viper_for effects.set_config_file) >>= λ c.
            after_configure flags c,
      )
