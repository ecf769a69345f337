-- ===== src/Policy/Permutations.antt =====
-- `makeArrayPermutations` of internal/policy/convert.go: an odometer over the arrays' indices.
-- An index out of range, where Go panics, gives `none`, and so does fuel that runs out.
pub mod Step
pub mod Product
use camblet.Base.{
  ◌≡◌, refl, ℕ, zero, suc, ◌+◌, ◌*◌, Bool, List, [], ◌∷◌, ◌++◌, map, Option, none, some, length,
  get_elem?, get_or, set, replicate, leb, if◌then◌else◌,
}

infixl 5 ◌>>=◌
abbrev pub ◌>>=◌ {ℓ κ} : {A : Type ℓ} {B : Type κ} → Option A → (A → Option B) → Option B
none >>= f = none
some a >>= f = f a

-- `for i := k; i < n; i++ { indicies[i] = 0 }`
pub zero_from : ℕ → List ℕ → List ℕ
zero_from k [] = []
zero_from zero (i ∷ indicies) = 0 ∷ zero_from zero indicies
zero_from (suc k) (i ∷ indicies) = i ∷ zero_from k indicies

-- After the scan: index -1 (zero here) breaks the loop, and any other one is advanced, and those
-- behind it set back to 0.
pub bump : List ℕ → ℕ → Option (List ℕ)
unfolding zero_from
bump indicies zero = none
bump indicies (suc next) =
    some (zero_from (suc next) (set indicies next (get_or indicies next 0 + 1)))

module _ {ℓ} {A : Type ℓ} where
  -- `r = append(r, arrays[i][indicies[i]])` for i from 0 to n - 1
  pub row : List (List A) → List ℕ → Option (List A)
  row [] indicies = some []
  row (array ∷ arrays) [] = none
  row (array ∷ arrays) (i ∷ indicies) = do
    value ← get_elem? array i
    rest ← row arrays indicies
    some (value ∷ rest)

  -- The test of the scan: the index is the last one of its array.
  abbrev pub at_end : List (List A) → List ℕ → ℕ → Bool
  at_end arrays indicies next = leb (length (get_or arrays next [])) (get_or indicies next 0 + 1)

  -- The scan `for next >= 0 && ... { next-- }`. The argument and the result are `next + 1`, so
  -- that zero stands for the index -1.
  pub scan : List (List A) → List ℕ → ℕ → ℕ
  scan arrays indicies zero = zero
  scan arrays indicies (suc next) =
      let lower = scan arrays indicies next in
      if at_end arrays indicies next then lower else suc next

  -- One round behind the row: the indices of the next row, or none where the loop breaks.
  pub next_indicies : List (List A) → List ℕ → Option (List ℕ)
  unfolding scan bump
  next_indicies arrays indicies = bump indicies (scan arrays indicies (length arrays))

  pub loop : ℕ → List (List A) → List ℕ → List (List A) → Option (List (List A))
  loop zero arrays indicies rest = none
  loop (suc fuel) arrays indicies rest = elim (row arrays indicies) [
    | none ↦ none
    | some r ↦ elim (next_indicies arrays indicies) [
      | none ↦ some (rest ++ r ∷ [])
      | some indicies' ↦ loop fuel arrays indicies' (rest ++ r ∷ [])
    ]
  ]

  -- The number of rows when no array is empty.
  pub size : List (List A) → ℕ
  size [] = 1
  size (array ∷ arrays) = length array * size arrays

  unfoldable pub make_array_permutations : List (List A) → Option (List (List A))
  unfolding loop row next_indicies size
  make_array_permutations arrays = loop (suc (size arrays)) arrays (replicate (length arrays) 0) []
