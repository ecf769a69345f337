-- ===== src/Cli/Terminal.antt =====
-- internal/cli/cli.go: the questions that the command line asks, its colours and its logger; and
-- internal/cli/util.go: the keys of its flags.
use Prim.Native.String.{◌++◌ as concat}
use text.Mathlib.Text.{starts_with}
use camblet.Base.{
  ℕ, Bool, true, false, not, ◌&&◌, List, [], ◌∷◌, ◌++◌, map, Option, none, some, String,
  if◌then◌else◌,
}
use camblet.Base.Result.{Error}
use camblet.Base.Fallible.{Fallible, value, fails}
use camblet.Base.Text.{join, trim_prefix, split}

pub record BuildInfo : Type 0 where
  pub version : String
  pub commit_hash : String
  pub build_date : String
  pub config_dir : String

-- `String` of BuildInfo
unfoldable pub build_info_text : BuildInfo → String
build_info_text i = concat "version " (
    concat i.version
      (concat " (" (concat i.commit_hash (concat ") built on " (concat i.build_date "\n")))))

-- What the code takes from go-isatty, viper and survey: whether the two streams are terminals, the
-- flags that are set, and what the user answers to a question, by its message and its default.
pub record Terminal : Type 0 where
  pub stdout_is_terminal : Bool
  pub stdin_is_terminal : Bool
  pub get_bool : String → Bool
  pub ask_confirm : String → Bool → Fallible Bool
  pub ask_input : String → String → Fallible String
  pub ask_password : String → Fallible String

-- errors.Wrapf
abbrev pub wrapped {ℓ} : {A : Type ℓ} → String → Fallible A → Fallible A
wrapped message (value a) = value a
wrapped message (fails e) = fails (concat message (concat ": " e))

-- The options of logfmtr that `createLogger` sets.
pub record LoggerOptions : Type 0 where
  pub add_caller : Bool
  pub colorize : Bool
  pub humanize : Bool
  pub caller_skip : ℕ

module _ (terminal : Terminal) where
  open terminal use {
    stdout_is_terminal, stdin_is_terminal, get_bool, ask_confirm, ask_input, ask_password,
  }

  unfoldable pub interactive : Bool
  interactive =
      if stdout_is_terminal && stdin_is_terminal
      then not (get_bool "non-interactive")
      else get_bool "force-interactive"

  unfoldable pub color : Bool
  color = if stdout_is_terminal then not (get_bool "no-color") else get_bool "force-color"

  unfoldable pub create_logger : LoggerOptions
  unfolding interactive color
  create_logger = record {
    add_caller = true;
    colorize = color;
    humanize = interactive;
    caller_skip = 2;
  }

  -- `Logger`: the logger, and the field that keeps it.
  unfoldable pub logger : Option LoggerOptions → LoggerOptions × Option LoggerOptions
  logger (some kept) = (kept, some kept)
  logger none = (create_logger, some create_logger)

  unfoldable pub confirm : String → Bool → Fallible Bool
  unfolding interactive
  confirm message default_option =
      if interactive
      then wrapped "failed to get confirmation" (ask_confirm message default_option)
      else value default_option

  -- `IfConfirmed`, with an action on a state.
  abbrev pub act : {S : Type 0} → Fallible Bool → (S → Option Error × S) → S → Option Error × S
  act (fails e) action s = (some e, s)
  act (value true) action s = action s
  act (value false) action s = (none, s)

  unfoldable pub if_confirmed :
      {S : Type 0} → String → Bool → (S → Option Error × S) → S → Option Error × S
  unfolding confirm
  if_confirmed message default_option action s = act (confirm message default_option) action s

  unfoldable pub input : String → String → Fallible String
  unfolding interactive
  input message default_value =
      if interactive
      then wrapped "failed getting user input" (ask_input message default_value)
      else value default_value

  unfoldable pub input_password : String → Fallible String
  unfolding interactive
  input_password message =
      if interactive
      then wrapped "failed getting user password" (ask_password message)
      else value ""

-- `BindCMDFlags`: `to_lower_camel` is strcase.ToLowerCamel, and `refuses` whether BindPFlag returns
-- an error for a key and a flag.
module _ (to_lower_camel : String → String) (refuses : String → String → Bool) where
  unfoldable pub camelize : String → String
  unfolding split
  camelize str = join "." (map to_lower_camel (split str "."))

  -- `getKey`
  abbrev pub get_key : String → String → String → String → String
  get_key cmd_name flag_name prefix_separator trim_separator =
      concat cmd_name (
        concat prefix_separator (camelize (trim_prefix flag_name (concat cmd_name trim_separator))))

  -- The second binding of a flag whose name starts with that of the command
  abbrev pub prefixed_binding : String → String → List (String × String)
  prefixed_binding cmd_name flag_name =
      let key = get_key cmd_name flag_name "." "-" in
      if starts_with flag_name (concat cmd_name "-") && not (refuses key flag_name)
      then (key, flag_name) ∷ []
      else []

  -- The bindings of a flag; where the first is refused, the second is left out.
  unfoldable pub flag_bindings : String → String → List (String × String)
  unfolding camelize
  flag_bindings cmd_name flag_name =
      let key = get_key cmd_name flag_name "." "." in
      if refuses key flag_name then [] else ((key, flag_name) ∷ prefixed_binding cmd_name flag_name)

  abbrev pub visit_all : String → List String → List (String × String)
  visit_all cmd_name [] = []
  visit_all cmd_name (flag ∷ flags) = flag_bindings cmd_name flag ++ visit_all cmd_name flags

  -- The flags of the command and then its persistent flags
  unfoldable pub bind_cmd_flags : String → List String → List String → List (String × String)
  unfolding flag_bindings
  bind_cmd_flags cmd_name flags persistent_flags =
      visit_all cmd_name flags ++ visit_all cmd_name persistent_flags
