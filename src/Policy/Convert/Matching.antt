-- ===== src/Policy/Convert/Matching.antt =====
-- What the converted selectors select.
use camblet.Base.{
  ◌≡◌, refl, ap, ◌∙◌, Bool, true, false, ◌&&◌, ◌||◌, List, [], ◌∷◌, map, some, String, eq_iff, any,
  all, All, any-append, any-map, arith,
}
use camblet.Base.Assoc.{insert}
use camblet.Policy.Permutations.Product.{
  cross, product, IsNonempty, make_array_permutations-product,
}
use camblet.Policy.Types.{
  null_value, number_value, string_value, bool_value, struct_value, list_value, Fields, no_fields,
  field, Selector, Selectors,
}
use camblet.Policy.Convert.{
  Formats, selector_label, set_all, convert_string_arrays_selectors_to_map, get_value_for_kind,
  cons_nonempty, flatten_and_stringify_selectors, convert_selectors_to_raw_selectors,
}

module _ {ℓ} {A : Type ℓ} (p : A → Bool) where
  any-cons_rows :
      (x : A) (rows : List (List A))
      → any (map (λ r. x ∷ r) rows) (λ r. all r p) ≡ (p x && any rows (λ r. all r p))
  any-cons_rows x [] = ground arith
  any-cons_rows x (r ∷ rows) = ground (arith, any-cons_rows x rows)

  any-cross :
      (xs : List A) (rows : List (List A))
      → any (cross xs rows) (λ r. all r p) ≡ (any xs p && any rows (λ r. all r p))
  any-cross [] rows = refl
  any-cross (x ∷ xs) rows =
      simp (any-append, any-cons_rows x rows, any-cross xs rows) (ground arith)

  -- A row of the product satisfies a test throughout iff each array has an element that does.
  any-product :
      (arrays : List (List A))
      → any (product arrays) (λ r. all r p) ≡ all arrays (λ array. any array p)
  any-product [] = refl
  any-product (array ∷ arrays) =
      any-cross array (product arrays) ∙ ap (λ b. any array p && b) (any-product arrays)

module _ (p : String → Bool) where
  -- The labels of a selector all pass the test.
  abbrev pub selects : Selector → Bool
  selects sel = all sel (λ e. p e.0)

  selects-insert : (k : String) (m : Selector) → selects (insert k true m) ≡ (p k && selects m)
  unfolding insert
  selects-insert k [] = refl
  selects-insert k ((j, b) ∷ m) = ground (arith, eq_iff j k, selects-insert k m)

  selects-set_all :
      (m : Selector) (array : List String) → selects (set_all m array) ≡ (selects m && all array p)
  unfolding set_all
  selects-set_all m [] = ground arith
  selects-set_all m (x ∷ array) =
      ground (arith, selects-set_all (insert x true m) array, selects-insert x m)

  any-convert_string_arrays :
      (arrays : List (List String))
      → any (convert_string_arrays_selectors_to_map arrays) selects
        ≡ any arrays (λ array. all array p)
  unfolding convert_string_arrays_selectors_to_map
  any-convert_string_arrays [] = refl
  any-convert_string_arrays (array ∷ arrays) =
      ground (arith, selects-set_all [] array, any-convert_string_arrays arrays)

module _ (formats : Formats) where
  flatten-IsNonempty : (fs : Fields) → All IsNonempty (flatten_and_stringify_selectors formats fs)
  unfolding flatten_and_stringify_selectors
  flatten-IsNonempty no_fields = tt
  flatten-IsNonempty (field k v fs) =
      go (map (selector_label k) (get_value_for_kind formats v)) _ (flatten-IsNonempty fs)
    where
      go :
          (m : List String) (results : List (List String))
          → All IsNonempty results
          → All IsNonempty (cons_nonempty formats m results)
      go [] results h = h
      go (x ∷ xs) results h = (omega arith, h)

  -- The conversion never panics: it gives one selector for each row of the product.
  pub convert_selectors-product :
      (fs : Fields)
      → convert_selectors_to_raw_selectors formats fs
        ≡ some (
            convert_string_arrays_selectors_to_map
              (product (flatten_and_stringify_selectors formats fs)))
  unfolding convert_selectors_to_raw_selectors
  convert_selectors-product fs = rw (make_array_permutations-product _ (flatten-IsNonempty fs))

  abbrev pub is_empty : List String → Bool
  is_empty [] = true
  is_empty (x ∷ xs) = false

  -- The reading of a selector struct: each field that has values has one whose label passes.
  abbrev pub fields_select : (String → Bool) → Fields → Bool
  fields_select p no_fields = true
  fields_select p (field k v fs) =
      let vals = get_value_for_kind formats v in
      (is_empty vals || any vals (λ val. p (selector_label k val))) && fields_select p fs

  all-cons_nonempty :
      (p : String → Bool) (k : String) (vals : List String) (results : List (List String))
      → all (cons_nonempty formats (map (selector_label k) vals) results) (λ array. any array p) ≡ (
          (is_empty vals || any vals (λ val. p (selector_label k val)))
          && all results (λ array. any array p))
  all-cons_nonempty p k [] results = refl
  all-cons_nonempty p k (v ∷ vals) results = rw (any-map vals (selector_label k) p)

  all-flatten :
      (p : String → Bool) (fs : Fields)
      → all (flatten_and_stringify_selectors formats fs) (λ array. any array p) ≡ fields_select p fs
  unfolding flatten_and_stringify_selectors
  all-flatten p no_fields = refl
  all-flatten p (field k v fs) =
      all-cons_nonempty p k (get_value_for_kind formats v)
        (flatten_and_stringify_selectors formats fs)
      ∙ ap
          (λ b.
            (is_empty (get_value_for_kind formats v)
              || any (get_value_for_kind formats v) (λ val. p (selector_label k val)))
            && b)
          (all-flatten p fs)

  -- The conversion of a selector struct never panics, and for every test of labels one of the
  -- selectors that it gives has only labels that pass exactly if each field of the struct that has
  -- values has one whose label passes.
  pub convert_selectors-selects :
      (fs : Fields)
      → (sels : Selectors) × (convert_selectors_to_raw_selectors formats fs ≡ some sels)
        × ((p : String → Bool) → any sels (selects p) ≡ fields_select p fs)
  convert_selectors-selects fs = (
    convert_string_arrays_selectors_to_map (product (flatten_and_stringify_selectors formats fs)),
    convert_selectors-product fs,
    λ p. any-convert_string_arrays p _ ∙ any-product p _ ∙ all-flatten p fs,
  )

  -- Every value is true or false.
  abbrev pub OnlyFlags : Fields → Type 0
  OnlyFlags no_fields = Unit
  OnlyFlags (field k (bool_value b) fs) = OnlyFlags fs
  OnlyFlags (field k null_value fs) = ⊥
  OnlyFlags (field k (number_value n) fs) = ⊥
  OnlyFlags (field k (string_value s) fs) = ⊥
  OnlyFlags (field k (struct_value m) fs) = ⊥
  OnlyFlags (field k (list_value vs) fs) = ⊥

  flatten-OnlyFlags : (fs : Fields) → OnlyFlags fs → flatten_and_stringify_selectors formats fs ≡ []
  unfolding flatten_and_stringify_selectors get_value_for_kind
  flatten-OnlyFlags no_fields h = refl
  flatten-OnlyFlags (field k (bool_value b) fs) h = flatten-OnlyFlags fs h
  flatten-OnlyFlags (field k null_value fs) h = elim h [ ]
  flatten-OnlyFlags (field k (number_value n) fs) h = elim h [ ]
  flatten-OnlyFlags (field k (string_value s) fs) h = elim h [ ]
  flatten-OnlyFlags (field k (struct_value m) fs) h = elim h [ ]
  flatten-OnlyFlags (field k (list_value vs) fs) h = elim h [ ]

  -- A selector struct of which every value is true or false is converted to one selector without
  -- any label, whatever its keys.
  pub convert_selectors-OnlyFlags :
      (fs : Fields) → OnlyFlags fs → convert_selectors_to_raw_selectors formats fs ≡ some ([] ∷ [])
  unfolding convert_string_arrays_selectors_to_map set_all
  convert_selectors-OnlyFlags fs h =
      convert_selectors-product fs
      ∙ ap (λ m. some (convert_string_arrays_selectors_to_map (product m))) (flatten-OnlyFlags fs h)
