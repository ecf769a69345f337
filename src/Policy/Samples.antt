-- ===== src/Policy/Samples.antt =====
-- A policy, and the files that hold it, for the examples.
use camblet.Base.Fallible.{Fallible, value, fails}
use camblet.Policy.Loader.{PolicyFormats}
use camblet.Base.{ℕ, nat_eq, if◌then◌else◌, [], ◌∷◌, none}
use camblet.Policy.Types.{
  RawPolicy, string_value, list_value, no_values, values, Fields, no_fields, field, raw_policy,
  no_raw,
}
use camblet.Policy.Convert.{Formats}

abbrev pub formats : Formats
formats = record { number = λ n. "0"; marshal = λ certificate. none; sha1_uuid = λ y. "id" }

abbrev pub nginx : Fields
nginx = field "docker:image:name" (string_value "nginx") (
    field "user" (list_value (values (string_value "root") (values (string_value "www") no_values)))
      no_fields)

-- An item of a file is the number of a policy, and only the number 1 is one.
abbrev pub parse_item : ℕ → Fallible RawPolicy
parse_item n =
    if nat_eq n 1 then value (raw_policy (nginx ∷ []) none none no_raw) else fails "no policy"

abbrev pub parsers : PolicyFormats ℕ
parsers = record { yaml = λ content. value content; policy = parse_item }
