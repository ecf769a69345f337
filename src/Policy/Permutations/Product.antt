-- ===== src/Policy/Permutations/Product.antt =====
-- The rows are the Cartesian product of the arrays, in the order of nested loops over them.
use native.Mathlib.Numerals.{add-one}
use camblet.Base.{
  ℕ, zero, suc, ◌+◌, ◌*◌, ◌≤◌, ◌<◌, ◌≡◌, refl, sym, ap, ◌∙◌, inl, inr, List, [], ◌∷◌, ◌++◌, map,
  Option, none, some, length, drop, drop_at, drop_all, replicate, leb, leb→lt, All, length-append,
  length-map, append_assoc, Bool-cases, Option-cases, arith,
}
use camblet.Policy.Permutations.{zero_from, row, next_indicies, loop, size, make_array_permutations}
use camblet.Policy.Permutations.Step.{next_indicies-cons, carry}

zero_from-replicate : (n : ℕ) → zero_from zero (replicate n 0) ≡ replicate n 0
unfolding zero_from
zero_from-replicate zero = refl
zero_from-replicate (suc n) = ap (λ is. 0 ∷ is) (zero_from-replicate n)

module _ {ℓ} {A : Type ℓ} where
  abbrev pub cross : List A → List (List A) → List (List A)
  cross [] rows = []
  cross (x ∷ xs) rows = map (λ r. x ∷ r) rows ++ cross xs rows

  -- The reference: all ways to pick one element of each array.
  abbrev pub product : List (List A) → List (List A)
  product [] = [] ∷ []
  product (array ∷ arrays) = cross array (product arrays)

  -- The odometer stands at indices of existing elements.
  abbrev InRange : List (List A) → List ℕ → Type 0
  InRange [] [] = Unit
  InRange [] (i ∷ indicies) = ⊥
  InRange (array ∷ arrays) [] = ⊥
  InRange (array ∷ arrays) (i ∷ indicies) = (i < length array) × InRange arrays indicies

  abbrev resume : List A → List (List A) → List (List A) → List (List A)
  resume [] rows full = []
  resume (x ∷ xs) rows full = map (λ r. x ∷ r) rows ++ cross xs full

  -- The rows that are still to come, from the one at the given indices on.
  abbrev rows_from : List (List A) → List ℕ → List (List A)
  rows_from [] indicies = [] ∷ []
  rows_from (array ∷ arrays) [] = []
  rows_from (array ∷ arrays) (i ∷ indicies) =
      resume (drop i array) (rows_from arrays indicies) (product arrays)

  resume-product : (xs : List A) (rows : List (List A)) → resume xs rows rows ≡ cross xs rows
  resume-product [] rows = refl
  resume-product (x ∷ xs) rows = refl

  rows_from-zero :
      (arrays : List (List A)) (indicies : List ℕ)
      → InRange arrays indicies
      → rows_from arrays (zero_from zero indicies) ≡ product arrays
  unfolding zero_from
  rows_from-zero [] [] h = refl
  rows_from-zero [] (i ∷ indicies) h = elim h [ ]
  rows_from-zero (array ∷ arrays) [] h = elim h [ ]
  rows_from-zero (array ∷ arrays) (i ∷ indicies) h =
      rw (rows_from-zero arrays indicies h.1) (resume-product array (product arrays))

  zero_from-InRange :
      (arrays : List (List A)) (indicies : List ℕ)
      → InRange arrays indicies
      → InRange arrays (zero_from zero indicies)
  unfolding zero_from
  zero_from-InRange [] [] h = tt
  zero_from-InRange [] (i ∷ indicies) h = elim h [ ]
  zero_from-InRange (array ∷ arrays) [] h = elim h [ ]
  zero_from-InRange (array ∷ arrays) (i ∷ indicies) h =
      (omega arith, zero_from-InRange arrays indicies h.1)

  abbrev rows_after : List (List A) → Option (List ℕ) → List (List A)
  rows_after arrays none = []
  rows_after arrays (some indicies) = rows_from arrays indicies

  abbrev NextInRange : List (List A) → Option (List ℕ) → Type 0
  NextInRange arrays none = Unit
  NextInRange arrays (some indicies) = InRange arrays indicies

  module _ (array : List A) (arrays : List (List A)) (i : ℕ) (indicies : List ℕ) where
    carry-InRange :
        (o : Option (List ℕ))
        → InRange (array ∷ arrays) (i ∷ indicies)
        → NextInRange arrays o
        → NextInRange (array ∷ arrays) (carry array arrays i indicies o)
    carry-InRange (some indicies') h next = (h.0, next)
    carry-InRange none h next = elim (Bool-cases (leb (length array) (i + 1))) [
      | inl stop ↦ rw stop tt
      | inr more ↦ rw more (leb→lt _ _ more, zero_from-InRange arrays indicies h.1)
    ]

    carry-rows :
        (o : Option (List ℕ)) (x : A) (r : List A)
        → InRange (array ∷ arrays) (i ∷ indicies)
        → drop i array ≡ x ∷ drop (suc i) array
        → rows_from arrays indicies ≡ r ∷ rows_after arrays o
        → rows_from (array ∷ arrays) (i ∷ indicies)
          ≡ (x ∷ r) ∷ rows_after (array ∷ arrays) (carry array arrays i indicies o)
    carry-rows (some indicies') x r h dropped rows = rw (dropped, rows)
    carry-rows none x r h dropped rows = elim (Bool-cases (leb (length array) (i + 1))) [
      | inl stop ↦ rw (stop, dropped, rows, drop_all (suc i) array (ground arith))
      | inr more ↦
          rw (more, dropped, rows, add-one, rows_from-zero arrays indicies h.1)
            (sym (ap (λ rs. (x ∷ r) ∷ rs) (resume-product (drop (suc i) array) (product arrays))))
    ]

  -- One round appends the first of the rows to come, and leaves the others to come.
  round :
      (arrays : List (List A)) (indicies : List ℕ)
      → InRange arrays indicies
      → (r : List A) × (row arrays indicies ≡ some r)
        × (rows_from arrays indicies ≡ r ∷ rows_after arrays (next_indicies arrays indicies))
        × NextInRange arrays (next_indicies arrays indicies)
  unfolding row
  round [] [] h = ([], refl, unfold next_indicies in refl, unfold next_indicies in tt)
  round [] (i ∷ indicies) h = elim h [ ]
  round (array ∷ arrays) [] h = elim h [ ]
  round (array ∷ arrays) (i ∷ indicies) h =
      let (x, at, dropped) = drop_at i array h.0 in
      let (r, rest, rows, inside) = round arrays indicies h.1 in
      let o = next_indicies arrays indicies in
      rw (next_indicies-cons array arrays i indicies) (
        x ∷ r,
        rw (at, rest),
        carry-rows array arrays i indicies o x r h dropped rows,
        carry-InRange array arrays i indicies o h inside,
      )

  loop-rows :
      (fuel : ℕ) (arrays : List (List A)) (indicies : List ℕ) (rest : List (List A))
      → InRange arrays indicies
      → length (rows_from arrays indicies) ≤ fuel
      → loop fuel arrays indicies rest ≡ some (rest ++ rows_from arrays indicies)
  unfolding loop
  loop-rows zero arrays indicies rest h enough =
      let (r, _, rows, _) = round arrays indicies h in absurd (omega (arith, ap length rows))
  loop-rows (suc fuel) arrays indicies rest h enough =
      let (r, at, rows, inside) = round arrays indicies h in
      elim (Option-cases (next_indicies arrays indicies)) [
        | inl stop ↦ rw (at, loop) (rw (stop, loop) (rw rows (rw stop)))
        | inr (indicies', more) ↦
            let next = rw more at rows in
            rw (at, loop)
              (rw (more, loop)
                (rw next (
                  loop-rows fuel arrays indicies' (rest ++ r ∷ []) (rw more at inside)
                    (omega (arith, ap length next))
                  ∙ ap some (append_assoc rest (r ∷ []) (rows_from arrays indicies')))))
      ]

  length-cross :
      (xs : List A) (rows : List (List A)) → length (cross xs rows) ≡ length xs * length rows
  length-cross [] rows = omega arith
  length-cross (x ∷ xs) rows = simp (length-append, length-map, length-cross xs rows) (omega arith)

  length-product : (arrays : List (List A)) → length (product arrays) ≡ size arrays
  unfolding size
  length-product [] = refl
  length-product (array ∷ arrays) = simp (length-cross, length-product arrays)

  abbrev pub IsNonempty : List A → Type 0
  IsNonempty array = 0 < length array

  start-InRange :
      (arrays : List (List A))
      → All IsNonempty arrays
      → InRange arrays (replicate (length arrays) 0)
  start-InRange [] h = tt
  start-InRange (array ∷ arrays) h = (h.0, start-InRange arrays h.1)

  rows_from-start :
      (arrays : List (List A))
      → All IsNonempty arrays
      → rows_from arrays (replicate (length arrays) 0) ≡ product arrays
  rows_from-start arrays h =
      rw (zero_from-replicate (length arrays)) at
        (rows_from-zero arrays (replicate (length arrays) 0) (start-InRange arrays h))

  -- If no array is empty, the odometer ends, without a panic, with the product of the arrays.
  pub make_array_permutations-product :
      (arrays : List (List A))
      → All IsNonempty arrays
      → make_array_permutations arrays ≡ some (product arrays)
  unfolding make_array_permutations
  make_array_permutations-product arrays h =
      let start = rows_from-start arrays h in
      loop-rows (suc (size arrays)) arrays (replicate (length arrays) 0) [] (start-InRange arrays h)
        (rw start (rw (length-product arrays) (omega arith)))
      ∙ ap some start
