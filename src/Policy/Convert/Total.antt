-- ===== src/Policy/Convert/Total.antt =====
-- `ConvertPolicy` and `ConvertPolicies` on every tree of policies.
use camblet.Base.{
  ◌≡◌, refl, ap₂, ◌∙◌, Bool, ◌||◌, List, [], ◌∷◌, ◌++◌, some, String, any, any-append,
}
use camblet.Policy.Types.{
  Fields, RawPolicy, raw_policy, RawPolicies, no_raw, raws, Selectors, Policy, policy, Policies,
  no_policies, policies,
}
use camblet.Policy.Convert.{Formats, get_policy_id, convert_all, convert_policy, convert_policies}
use camblet.Policy.Convert.Matching.{selects, fields_select, convert_selectors-selects}

module _ (formats : Formats) where
  -- One of the selectors selects iff one of the structs does, for every test of labels.
  abbrev pub SameSelection : List Fields → Selectors → Type 0
  SameSelection structs sels =
      (p : String → Bool) → any sels (selects p) ≡ any structs (fields_select formats p)

  abbrev mutual
    pub IsConverted : RawPolicy → Policy → Type 0
    IsConverted (raw_policy structs certificate connection egress)
          (policy pos id sels cert conn eg) =
        (pos ≡ 0)
        × (id ≡ get_policy_id formats certificate)
        × (cert ≡ certificate)
        × (conn ≡ connection)
        × SameSelection structs sels
        × AreConverted egress eg

    pub AreConverted : RawPolicies → Policies → Type 0
    AreConverted no_raw no_policies = Unit
    AreConverted no_raw (policies q qs) = ⊥
    AreConverted (raws p ps) no_policies = ⊥
    AreConverted (raws p ps) (policies q qs) = IsConverted p q × AreConverted ps qs

  pub convert_all-selects :
      (structs : List Fields)
      → (sels : Selectors) × (convert_all formats structs ≡ some sels) × SameSelection structs sels
  unfolding convert_all
  convert_all-selects [] = ([], refl, λ p. refl)
  convert_all-selects (fs ∷ structs) =
      let (sels, converted, first) = convert_selectors-selects formats fs in
      let (rest, done, same) = convert_all-selects structs in
      (
        sels ++ rest,
        rw (converted, done),
        λ p. any-append sels rest (selects p) ∙ ap₂ (λ a b. a || b) (first p) (same p),
      )

  mutual
    unfolding convert_policy

    convert_policy_total :
        (p : RawPolicy) → (q : Policy) × (convert_policy formats p ≡ some q) × IsConverted p q
    convert_policy_total (raw_policy structs certificate connection egress) =
        let (converted, ok, each) = convert_policies_total egress in
        let (all, done, same) = convert_all-selects structs in
        (
          policy 0 (get_policy_id formats certificate) all certificate connection converted,
          rw (ok, done),
          (refl, refl, refl, refl, same, each),
        )

    convert_policies_total :
        (ps : RawPolicies)
        → (qs : Policies) × (convert_policies formats ps ≡ some qs) × AreConverted ps qs
    convert_policies_total no_raw = (no_policies, refl, tt)
    convert_policies_total (raws p ps) =
        let (first, ok, here) = convert_policy_total p in
        let (rest, done, there) = convert_policies_total ps in
        (policies first rest, rw (ok, done), (here, there))

  -- The conversion of a list of policies never panics and keeps them in order, at each depth of
  -- egress policies: each has position 0, the identifier of its certificate, the certificate and
  -- the connection of the raw policy, and, for every test of labels, a selector that selects
  -- exactly if one of the raw selector structs does.
  pub convert_policies-AreConverted :
      (ps : RawPolicies)
      → (qs : Policies) × (convert_policies formats ps ≡ some qs) × AreConverted ps qs
  convert_policies-AreConverted ps = convert_policies_total ps
