-- ===== src/Cli/GeneratePolicy/Selects.antt =====
-- The policy that is generated for a process selects it.
use Prim.Native.String.{◌++◌ as concat}
use camblet.Base.{
  ◌≡◌, refl, sym, ap, subst, ◌∙◌, Bool, true, false, ◌||◌, Bool-cases, List, [], ◌∷◌, All, any,
  Option, none, some, inl, inr, String, ◌==◌, eq_refl, arith, if◌then◌else◌,
}
use camblet.Base.Assoc.{lookup}
use camblet.Base.Fallible.{value, value_inj}
use camblet.Agent.Commands.Augment.{Label, response_labels}
use camblet.Agent.Commands.Augment.Cached.{names, lookup-response_labels}
use camblet.Policy.Types.{
  string_value, Fields, no_fields, field, RawPolicy, no_raw, raws, policy, no_policies, policies,
  Policies,
}
use camblet.Policy.Convert.{Formats, selector_label, get_value_for_kind, convert_policies}
use camblet.Policy.Convert.Matching.{selects, fields_select}
use camblet.Policy.Convert.Total.{AreConverted, convert_policies-AreConverted}
use camblet.Policy.Organize.{selectors}
use camblet.Cli.GeneratePolicy.{
  GeneratePolicyOptions, match_label, set_field, selector_of, policy_of, policy_with,
  generate_policy,
}

module _ (formats : Formats) (p : String → Bool) where
  -- Every field is a text whose label passes.
  data Passes : Fields → Type 0 where
    none_left : Passes no_fields
    one_more :
        (k v : String) (fs : Fields)
        → p (selector_label k v) ≡ true
        → Passes fs
        → Passes (field k (string_value v) fs)

  Passes-select : (fs : Fields) → Passes fs → fields_select formats p fs ≡ true
  unfolding get_value_for_kind
  Passes-select no_fields h = refl
  Passes-select (field _ _ _) (one_more k s fs good rest) = rw (good, Passes-select fs rest) refl

  set_field-Passes :
      (k v : String) (fs : Fields)
      → p (selector_label k v) ≡ true
      → Passes fs
      → Passes (set_field k (string_value v) fs)
  unfolding set_field
  set_field-Passes k v no_fields good h = one_more k v no_fields good none_left
  set_field-Passes k v (field _ _ _) good (one_more j s fs one rest) = elim (Bool-cases (j == k)) [
    | inl same ↦ rw same (one_more k v fs good rest)
    | inr other ↦
        rw other
          (one_more j s (set_field k (string_value v) fs) one (set_field-Passes k v fs good rest))
  ]

  selector_of-Passes :
      (opts : GeneratePolicyOptions) (fs : Fields) (labels : List Label)
      → All (λ l. p (selector_label l.name l.value) ≡ true) labels
      → Passes fs
      → Passes (selector_of opts fs labels)
  unfolding selector_of
  selector_of-Passes opts fs [] all h = h
  selector_of-Passes opts fs (l ∷ labels) all h = elim (Bool-cases (match_label opts l.name)) [
    | inl e ↦
        rw (e, selector_of)
          (selector_of-Passes opts (set_field l.name (string_value l.value) fs) labels all.1
            (set_field-Passes l.name l.value fs all.0 h))
    | inr e ↦ rw (e, selector_of) (selector_of-Passes opts fs labels all.1 h)
  ]

abbrev pub is_true : Option Bool → Bool
is_true none = false
is_true (some b) = b

-- The text of a label is a key of the labels that the augment handler answers with.
abbrev pub in_response : List Label → String → Bool
in_response labels text = is_true (lookup text (response_labels [] labels))

weaken-All {ℓ} :
    {A : Type ℓ} (P Q : A → Type 0) (xs : List A) → ((a : A) → P a → Q a) → All P xs → All Q xs
weaken-All P Q [] f h = tt
weaken-All P Q (x ∷ xs) f h = (f x h.0, weaken-All P Q xs f h.1)

named :
    (labels : List Label)
    → All (λ l. any labels (names (concat l.name (concat "=" l.value))) ≡ true) labels
named [] = tt
named (l ∷ labels) =
    (rw eq_refl refl, weaken-All _ _ labels (λ a h. ground (arith, h)) (named labels))

in_response-named :
    (labels : List Label) (l : Label)
    → any labels (names (concat l.name (concat "=" l.value))) ≡ true
    → in_response labels (selector_label l.name l.value) ≡ true
unfolding selector_label lookup
in_response-named labels l h = ap is_true (
    lookup-response_labels (concat l.name (concat "=" l.value)) [] labels
    ∙ ap (λ b. if b then some true else none) h)

module _ (formats : Formats) (opts : GeneratePolicyOptions) (workload_id : String) where
  -- The policies are one policy, and one of its selectors selects.
  abbrev pub SelectsAlone : (String → Bool) → Policies → Type 0
  SelectsAlone p no_policies = ⊥
  SelectsAlone p (policies q no_policies) = any (selectors q) (selects p) ≡ true
  SelectsAlone p (policies q (policies r rs)) = ⊥

  converted-SelectsAlone :
      (p : String → Bool) (q : RawPolicy) (fs : Fields) (qs : Policies)
      → policy_with opts workload_id fs ≡ value q
      → fields_select formats p fs ≡ true
      → AreConverted formats (raws q no_raw) qs
      → SelectsAlone p qs
  converted-SelectsAlone p q no_fields qs made h converted = cc
  converted-SelectsAlone p q (field k v fs) qs made h converted =
      go qs
        (subst (λ x. AreConverted formats (raws x no_raw) qs) (sym (value_inj _ q made)) converted)
    where
      go :
          (qs : Policies)
          → AreConverted formats (raws (policy_of opts workload_id (field k v fs)) no_raw) qs
          → SelectsAlone p qs
      go no_policies c = elim c [ ]
      go (policies (policy pos id sels cert conn eg) no_policies) c =
          c.0.4 p ∙ ap (λ b. b || false) h
      go (policies (policy pos id sels cert conn eg) (policies r rs)) c = elim c.1 [ ]

  -- A policy that is generated for a process is converted to one policy, with a selector of which
  -- every label is among those that the augment handler answers for the process: the policy
  -- applies to the process that it was generated for.
  pub generate_policy-SelectsAlone :
      (labels : List Label) (q : RawPolicy)
      → generate_policy opts workload_id labels ≡ value q
      → (qs : Policies) × (convert_policies formats (raws q no_raw) ≡ some qs)
        × SelectsAlone (in_response labels) qs
  unfolding generate_policy
  generate_policy-SelectsAlone labels q h =
      let p = in_response labels in
      let fs = selector_of opts no_fields labels in
      let passes =
        selector_of-Passes formats p opts no_fields labels
          (weaken-All _ _ labels (λ l. in_response-named labels l) (named labels)) none_left in
      let (qs, ok, converted) = convert_policies-AreConverted formats (raws q no_raw) in
      (qs, ok, converted-SelectsAlone p q fs qs h (Passes-select formats p fs passes) converted)
