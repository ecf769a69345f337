-- ===== src/Policy/Organize.antt =====
-- `Policies.Organize` of internal/policy/policy.go. `sort.SliceStable` is an argument: it calls
-- `less` on the policies that it compares. Up to 20 elements it is the insertion sort below.
pub mod Numbered
pub mod Order
use camblet.Base.{
  ℕ, zero, suc, ◌+◌, ◌≡◌, Bool, true, false, not, ◌&&◌, List, [], ◌∷◌, length, any, nat_eq,
  if◌then◌else◌,
}
use camblet.Base.Assoc.{lookup}
use camblet.Policy.Types.{
  Selector, Selectors, Policy, policy, Policies, no_policies, policies, to_list, of_list,
}
use camblet.Policy.Subset.{entries_in, is_map_subset}
use Prim.Native.Nat.{max}

abbrev pub bool_same : Bool → Bool → Bool
bool_same true b = b
bool_same false b = not b

-- reflect.DeepEqual on two maps: as many entries, and every one of the first in the second
abbrev pub deep_equal : Selector → Selector → Bool
deep_equal sel sel2 = nat_eq (length sel) (length sel2) && entries_in bool_same sel2 sel

abbrev pub selectors : Policy → Selectors
selectors (policy position id sels certificate connection egress) = sels

-- `continue` for equal selectors, and then the test that returns true
abbrev pub narrower : Selector → Selector → Bool
narrower sel sel2 = not (deep_equal sel sel2) && is_map_subset bool_same sel sel2

-- The comparison of the sort: true at the first pair that passes.
unfoldable pub less : Policy → Policy → Bool
unfolding is_map_subset entries_in lookup
less p q = any (selectors p) (λ sel. any (selectors q) (narrower sel))

-- From the last element first to the first one first.
module _ {ℓ} {A : Type ℓ} where
  pub turn : List A → List A → List A
  turn acc [] = acc
  turn acc (x ∷ xs) = turn (x ∷ acc) xs

module _ {ℓ} {A : Type ℓ} (before : A → A → Bool) where
  -- `for j := i; j > a && less(data[j], data[j-1]); j-- { swap }`; the sorted part stands with
  -- its last element first.
  pub sift : A → List A → List A
  sift x [] = x ∷ []
  sift x (y ∷ sorted) = let rest = sift x sorted in if before x y then y ∷ rest else x ∷ y ∷ sorted

  pub sort_onto : List A → List A → List A
  sort_onto sorted [] = sorted
  sort_onto sorted (x ∷ xs) = sort_onto (sift x sorted) xs

  unfoldable pub insertion_sort : List A → List A
  unfolding sift sort_onto turn
  insertion_sort xs = turn [] (sort_onto [] xs)

-- `for k, policy := range p { policy.Position = k; policy.Egress.Organize() }`
pub place : (Policies → Policies) → ℕ → List Policy → Policies
place organize_egress k [] = no_policies
place organize_egress k (policy position id sels certificate connection egress ∷ ps) =
    policies (policy k id sels certificate connection (organize_egress egress))
      (place organize_egress (suc k) ps)

module _ (slice_stable : (Policy → Policy → Bool) → List Policy → List Policy) where
  pub organize_within : ℕ → Policies → Policies
  organize_within zero ps = ps
  organize_within (suc fuel) ps = place (organize_within fuel) 0 (slice_stable less (to_list ps))

-- How deep the egress policies go.
unfoldable pub depth : Policies → ℕ
depth no_policies = 0
depth (policies (policy position id sels certificate connection egress) ps) =
    max (suc (depth egress)) (depth ps)

-- `Organize`
unfoldable pub organize :
    ((Policy → Policy → Bool) → List Policy → List Policy) → Policies → Policies
unfolding place organize_within depth
organize slice_stable ps = organize_within slice_stable (depth ps) ps
