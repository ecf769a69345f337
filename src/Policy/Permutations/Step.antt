-- ===== src/Policy/Permutations/Step.antt =====
-- One round of the odometer, by recursion over the arrays.
use camblet.Base.{
  ℕ, zero, suc, ◌+◌, ◌≡◌, refl, inl, inr, List, ◌∷◌, Option, none, some, length, leb, if◌then◌else◌,
  Bool-cases, arith,
}
use camblet.Policy.Permutations.{zero_from, bump, at_end, scan, next_indicies}

module _ {ℓ} {A : Type ℓ} (array : List A) (arrays : List (List A)) (i : ℕ)
    (indicies : List ℕ) where
  abbrev shifted : ℕ → ℕ
  shifted zero = if leb (length array) (i + 1) then zero else 1
  shifted (suc k) = suc (suc k)

  scan-cons :
      (m : ℕ) → scan (array ∷ arrays) (i ∷ indicies) (suc m) ≡ shifted (scan arrays indicies m)
  unfolding scan
  scan-cons zero = refl
  scan-cons (suc m) = elim (Bool-cases (at_end arrays indicies m)) [
    | inl e ↦ rw (e, scan-cons m)
    | inr e ↦ rw e
  ]

  -- The digits behind the first one advance; if they cannot, the first one does and they restart.
  abbrev pub carry : Option (List ℕ) → Option (List ℕ)
  carry (some indicies') = some (i ∷ indicies')
  carry none = if leb (length array) (i + 1) then none else some ((i + 1) ∷ zero_from zero indicies)

  bump-cons : (k : ℕ) → bump (i ∷ indicies) (shifted k) ≡ carry (bump indicies k)
  unfolding bump zero_from
  bump-cons zero = ground arith
  bump-cons (suc k) = refl

  pub next_indicies-cons :
      next_indicies (array ∷ arrays) (i ∷ indicies) ≡ carry (next_indicies arrays indicies)
  unfolding next_indicies
  next_indicies-cons =
      rw (scan-cons (length arrays)) (bump-cons (scan arrays indicies (length arrays)))
