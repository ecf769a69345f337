-- ===== src/Base/Text.antt =====
-- The functions of package strings that the code uses on keys and flags.
use Prim.Native.String.{String, ◌++◌ as concat, slice, len}
use Prim.Native.Nat.{ℕ, zero, suc, ◌+◌}
use mathlib.Core.Path.{◌≡◌, refl}
use mathlib.Core.List.{List, [], ◌∷◌}
use text.Mathlib.Text.{◌==◌, starts_with}
use camblet.Base.Tests.{if◌then◌else◌}

-- strings.Join
abbrev pub join : String → List String → String
join sep [] = ""
join sep (s ∷ []) = s
join sep (s ∷ t ∷ rest) = concat s (concat sep (join sep (t ∷ rest)))

-- strings.TrimPrefix
abbrev pub trim_prefix : String → String → String
trim_prefix s prefix = if starts_with s prefix then slice s (len prefix) (len s) else s

-- The text from a position on, up to the first separator, with what was read before: on fuel for
-- the positions that are left.
unfoldable pub split_from : String → String → ℕ → ℕ → ℕ → List String
split_from sep s from at zero = slice s from at ∷ []
split_from sep s from at (suc left) =
    let apart = slice s from at ∷ split_from sep s (at + 1) (at + 1) left in
    let later = split_from sep s from (at + 1) left in
    if slice s at (at + 1) == sep then apart else later

-- strings.Split for a separator of one character
unfoldable pub split : String → String → List String
unfolding split_from
split s sep = split_from sep s 0 0 (len s)

abbrev first : List String → String
first [] = ""
first (s ∷ rest) = s

-- What strings.Cut gives before the separator
unfoldable pub before : String → String → String
unfolding split
before s sep = first (split s sep)

split_keys : split "agent.localAddress" "." ≡ "agent" ∷ "localAddress" ∷ []
unfolding split
split_keys = refl

before_comma : before "trustDomain,omitempty" "," ≡ "trustDomain"
unfolding before
before_comma = refl

before_nothing : before ",inline" "," ≡ ""
unfolding before
before_nothing = refl

trim_both : trim_prefix "agent-local" "agent-" ≡ "local"
trim_both = refl
