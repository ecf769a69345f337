-- ===== src/Policy/Convert.antt =====
-- internal/policy/convert.go, apart from `makeArrayPermutations`.
pub mod Matching
pub mod Total
use Prim.Native.String.{◌++◌ as concat}
use camblet.Base.{ℕ, Bool, true, List, [], ◌∷◌, ◌++◌, map, Option, none, some, String}
use camblet.Base.Assoc.{insert}
use camblet.Policy.Permutations.{◌>>=◌, make_array_permutations}
use camblet.Policy.Types.{
  Value, null_value, number_value, string_value, bool_value, struct_value, list_value, Values,
  no_values, values, Fields, no_fields, field, Certificate, RawPolicy, raw_policy, RawPolicies,
  no_raw, raws, Selector, Selectors, Policy, policy, Policies, no_policies, policies,
}

-- fmt.Sprintf("%s=%s", k, val)
unfoldable pub selector_label : String → String → String
selector_label k val = concat k (concat "=" val)

-- `m[value] = true` for the values of the array
pub set_all : Selector → List String → Selector
set_all m [] = m
set_all m (value ∷ array) = set_all (insert value true m) array

pub convert_string_arrays_selectors_to_map : List (List String) → Selectors
convert_string_arrays_selectors_to_map = map (set_all [])

-- What the code takes from fmt, encoding/json and google/uuid: the text of a float64 under
-- "%0.0f", the JSON of a certificate, if it has one, and the name-based UUID of that JSON.
pub record Formats : Type 0 where
  pub number : ℕ → String
  pub marshal : Option Certificate → Option (List ℕ)
  pub sha1_uuid : List ℕ → String

module _ (formats : Formats) where
  unfoldable mutual
    pub get_value_for_kind : Value → List String
    get_value_for_kind null_value = []
    get_value_for_kind (number_value n) = formats.number n ∷ []
    get_value_for_kind (string_value s) = s ∷ []
    get_value_for_kind (bool_value b) = []
    get_value_for_kind (struct_value fs) = []
    get_value_for_kind (list_value vs) = get_values vs

    -- the loop over `val.ListValue.GetValues()`
    pub get_values : Values → List String
    get_values no_values = []
    get_values (values v vs) = get_value_for_kind v ++ get_values vs

  -- `if len(m) > 0 { results = append(results, m) }`
  abbrev pub cons_nonempty : List String → List (List String) → List (List String)
  cons_nonempty [] results = results
  cons_nonempty (x ∷ xs) results = (x ∷ xs) ∷ results

  unfoldable pub flatten_and_stringify_selectors : Fields → List (List String)
  flatten_and_stringify_selectors no_fields = []
  flatten_and_stringify_selectors (field k v fs) =
      cons_nonempty (map (selector_label k) (get_value_for_kind v))
        (flatten_and_stringify_selectors fs)

  unfoldable pub convert_selectors_to_raw_selectors : Fields → Option Selectors
  convert_selectors_to_raw_selectors selectors = do
    arrays ← make_array_permutations (flatten_and_stringify_selectors selectors)
    some (convert_string_arrays_selectors_to_map arrays)

  pub get_policy_id : Option Certificate → String
  get_policy_id certificate = elim (formats.marshal certificate) [
    | none ↦ ""
    | some y ↦ formats.sha1_uuid y
  ]

  -- the loop over `policy.GetSelectors()`
  pub convert_all : List Fields → Option Selectors
  convert_all [] = some []
  convert_all (sel ∷ sels) = do
    first ← convert_selectors_to_raw_selectors sel
    rest ← convert_all sels
    some (first ++ rest)

  unfoldable mutual
    pub convert_policy : RawPolicy → Option Policy
    convert_policy (raw_policy selectors certificate connection egress) = do
      converted ← convert_policies egress
      all ← convert_all selectors
      some (policy 0 (get_policy_id certificate) all certificate connection converted)

    pub convert_policies : RawPolicies → Option Policies
    convert_policies no_raw = some no_policies
    convert_policies (raws p ps) = do
      first ← convert_policy p
      rest ← convert_policies ps
      some (policies first rest)
