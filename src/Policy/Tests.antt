-- ===== src/Policy/Tests.antt =====
-- The conversion and the ordering of policies on examples.
use mathlib.Core.List.{Perm}
use camblet.Base.Assoc.{Assoc}
use camblet.Policy.Loader.{of_raw_list, run}
use camblet.Base.Result.{Error}
use camblet.Policy.Loader.Valid.{Reads, run-Reads}
use camblet.Policy.Samples.{formats, nginx, parsers}
use camblet.Base.{
  Option, ℕ, eq_iff, ◌≡◌, refl, ◌↔◌, Bool, true, List, [], ◌∷◌, map, any, arith, none, some, String,
}
use camblet.Base.Assoc.{lookup}
use camblet.Policy.Types.{
  RawPolicy, bool_value, Fields, no_fields, field, raw_policy, RawPolicies, no_raw, raws, Selector,
  Selectors, Policy, policy, Policies, no_policies, policies, to_list, of_list,
}
use camblet.Policy.Permutations.{make_array_permutations}
use camblet.Policy.Permutations.Product.{product, make_array_permutations-product}
use camblet.Policy.Convert.{convert_selectors_to_raw_selectors, convert_policies}
use camblet.Policy.Convert.Matching.{
  selects, fields_select, convert_selectors-selects, convert_selectors-OnlyFlags,
}
use camblet.Policy.Convert.Total.{AreConverted, convert_policies-AreConverted}
use camblet.Policy.Subset.{is_map_subset, Includes, is_map_subset-Includes}
use camblet.Policy.Organize.{bool_same, less, insertion_sort, organize}
use camblet.Policy.Organize.Numbered.{NumberedFrom, unplaced, organize-NumberedFrom, organize-perm}
use camblet.Policy.Organize.Order.{
  IsMoreSpecific, AreInOrder, insertion_sort-perm, insertion_sort-less-AreInOrder,
  insertion_sort-less_misses,
}

abbrev two_arrays : List (List String)
two_arrays = ("a=1" ∷ "a=2" ∷ []) ∷ ("b=3" ∷ []) ∷ []

make_array_permutations-product_example :
    make_array_permutations two_arrays ≡ some (product two_arrays)
make_array_permutations-product_example =
    make_array_permutations-product two_arrays (omega arith, (omega arith, tt))

convert_selectors-selects_example :
    (sels : Selectors) × (convert_selectors_to_raw_selectors formats nginx ≡ some sels)
    × ((p : String → Bool) → any sels (selects p) ≡ fields_select formats p nginx)
convert_selectors-selects_example = convert_selectors-selects formats nginx

abbrev two_raw_policies : RawPolicies
two_raw_policies =
    raws
      (raw_policy (nginx ∷ []) none none (raws (raw_policy (nginx ∷ []) none none no_raw) no_raw))
      (raws (raw_policy [] none none no_raw) no_raw)

convert_policies-AreConverted_example :
    (qs : Policies) × (convert_policies formats two_raw_policies ≡ some qs)
    × AreConverted formats two_raw_policies qs
convert_policies-AreConverted_example = convert_policies-AreConverted formats two_raw_policies

abbrev general : Selector
general = ("a", true) ∷ []

abbrev unrelated : Selector
unrelated = ("c", true) ∷ []

abbrev specific : Selector
specific = ("a", true) ∷ ("b", true) ∷ []

bool_same_iff : (a b : Bool) → (bool_same a b ≡ true) ↔ (a ≡ b)
bool_same_iff a b = ground arith

is_map_subset-Includes_example :
    (is_map_subset bool_same specific general ≡ true) ↔ Includes specific general
unfolding lookup
is_map_subset-Includes_example =
    is_map_subset-Includes bool_same bool_same_iff specific general (refl, tt)

abbrev with_selector : String → Selector → Policy
with_selector id sel = policy 7 id (sel ∷ []) none none no_policies

abbrev three : List Policy
three = with_selector "g" general ∷ with_selector "u" unrelated ∷ with_selector "s" specific ∷ []

abbrev nested : Policies
nested =
    policies (policy 9 "outer" (general ∷ []) none none (of_list three))
      (policies (with_selector "s" specific) no_policies)

organize-NumberedFrom_example : NumberedFrom 0 (organize insertion_sort nested)
organize-NumberedFrom_example =
    organize-NumberedFrom insertion_sort (insertion_sort-perm less) nested

organize-perm_example :
    Perm
      (map (unplaced (λ e. e)) (to_list (organize insertion_sort nested)))
      (map (unplaced (organize insertion_sort)) (to_list nested))
organize-perm_example = organize-perm insertion_sort (insertion_sort-perm less) nested

insertion_sort-perm_example : Perm (insertion_sort less three) three
insertion_sort-perm_example = insertion_sort-perm less three

specific-IsMoreSpecific : IsMoreSpecific specific general
unfolding lookup
specific-IsMoreSpecific =
    (λ k v h. ground (arith, eq_iff "a" k), λ h. let b = h "b" true refl in cc)

not-IsMoreSpecific : ¬ (IsMoreSpecific unrelated general)
unfolding lookup
not-IsMoreSpecific (h, lacks) = let a = h "a" true refl in cc

not-IsMoreSpecific-unrelated : ¬ (IsMoreSpecific specific unrelated)
unfolding lookup
not-IsMoreSpecific-unrelated (h, lacks) = let c = h "c" true refl in cc

insertion_sort-less-AreInOrder_example :
    AreInOrder (insertion_sort less three) × Perm (insertion_sort less three) three
unfolding lookup
insertion_sort-less-AreInOrder_example = insertion_sort-less-AreInOrder three (
  (general, (refl, (refl, tt))),
  ((unrelated, (refl, (refl, tt))), ((specific, (refl, (refl, (refl, tt)))), tt)),
)

insertion_sort-less_misses_example :
    (insertion_sort less (with_selector "g" general ∷ with_selector "s" specific ∷ [])
      ≡ with_selector "s" specific ∷ with_selector "g" general ∷ [])
    × (insertion_sort less three ≡ three)
unfolding lookup
insertion_sort-less_misses_example =
    insertion_sort-less_misses (with_selector "g" general) (with_selector "u" unrelated)
      (with_selector "s" specific) general unrelated specific (refl, (refl, tt)) (refl, (refl, tt))
      (refl, (refl, (refl, tt))) specific-IsMoreSpecific not-IsMoreSpecific
      not-IsMoreSpecific-unrelated

-- A selector that is written as `docker:image:name:nginx: true`.
abbrev with_flag : Fields
with_flag = field "docker:image:name:nginx" (bool_value true) no_fields

convert_selectors-OnlyFlags_example :
    convert_selectors_to_raw_selectors formats with_flag ≡ some ([] ∷ [])
convert_selectors-OnlyFlags_example = convert_selectors-OnlyFlags formats with_flag tt

abbrev contents : Assoc (List ℕ)
contents = ("a.yaml", 1 ∷ 2 ∷ []) ∷ ("b.yaml", 1 ∷ []) ∷ []

-- A validator that accepts every policy.
abbrev validator : Option (RawPolicy → Option Error)
validator = some (λ p. none)

run-Reads_example :
    (ps : List RawPolicy) × Reads parsers validator formats none contents ps
    × (found : List Policy) × AreConverted formats (of_raw_list ps) (of_list found)
    × (run formats parsers none validator insertion_sort contents
        ≡ some (organize insertion_sort (of_list found)))
    × NumberedFrom 0 (organize insertion_sort (of_list found))
run-Reads_example =
    run-Reads parsers validator formats none insertion_sort (insertion_sort-perm less) contents
