-- ===== src/Policy/Subset.antt =====
-- `IsMapSubset` of internal/policy/policy.go.
use camblet.Base.{
  suc, ◌≤◌, ◌≡◌, refl, ◌≢◌, ◌∙◌, ap, ◌↔◌, Bool, true, false, ◌&&◌, [], ◌∷◌, Option, none, some,
  String, ◌==◌, eq_iff, eq_refl, length, ltb, if◌then◌else◌, arith,
}
use camblet.Base.Assoc.{Assoc, IsMap, lookup}

module _ {ℓ} {V : Type ℓ} (same : V → V → Bool) where
  -- `vm, found := m[k]; found && vm == vsub`
  abbrev pub agrees : Option V → V → Bool
  agrees none vsub = false
  agrees (some vm) vsub = same vm vsub

  -- the loop over `sub`, which returns false at the first entry that m lacks
  unfoldable pub entries_in : Assoc V → Assoc V → Bool
  entries_in m [] = true
  entries_in m ((k, vsub) ∷ sub) = agrees (lookup k m) vsub && entries_in m sub

  unfoldable pub is_map_subset : Assoc V → Assoc V → Bool
  unfolding entries_in lookup
  is_map_subset m sub = if ltb (length m) (length sub) then false else entries_in m sub

module _ {ℓ} {V : Type ℓ} where
  -- Every entry of the second map is one of the first.
  abbrev pub Includes : Assoc V → Assoc V → Type ℓ
  Includes m sub = (k : String) (v : V) → lookup k sub ≡ some v → lookup k m ≡ some v

  remove : String → Assoc V → Assoc V
  remove k [] = []
  remove k ((j, v) ∷ m) = if j == k then m else (j, v) ∷ remove k m

  length-remove :
      (k : String) (v : V) (m : Assoc V)
      → lookup k m ≡ some v
      → suc (length (remove k m)) ≡ length m
  unfolding remove lookup
  length-remove k v [] h = cc
  length-remove k v ((j, w) ∷ m) h = ground (arith, eq_iff j k, length-remove k v m)

  lookup-remove : (k j : String) (m : Assoc V) → k ≢ j → lookup j (remove k m) ≡ lookup j m
  unfolding remove lookup
  lookup-remove k j [] h = refl
  lookup-remove k j ((i, w) ∷ m) h = ground (arith, eq_iff i k, eq_iff i j, lookup-remove k j m)

  fresh-eq :
      (k j : String) (w : V) (sub : Assoc V)
      → lookup k sub ≡ none
      → lookup j sub ≡ some w
      → (k == j) ≡ false
  fresh-eq k j w sub fresh e = ground (arith, eq_iff k j)

  -- An entry behind the first one is an entry of the whole map.
  lookup_behind :
      (k j : String) (v w : V) (sub : Assoc V)
      → lookup k sub ≡ none
      → lookup j sub ≡ some w
      → lookup j ((k, v) ∷ sub) ≡ some w
  lookup_behind k j v w sub fresh e = unfold lookup in rw (fresh-eq k j w sub fresh e) e

  -- A map includes no larger one.
  Includes-length : (m sub : Assoc V) → IsMap sub → Includes m sub → length sub ≤ length m
  Includes-length m [] h inc = omega arith
  Includes-length m ((k, v) ∷ sub) h inc = omega (
    arith,
    length-remove k v m (inc k v (unfold lookup in rw eq_refl)),
    Includes-length (remove k m) sub h.1 inc',
  )
    where
      inc' : Includes (remove k m) sub
      inc' j w e =
          lookup-remove k j m (ground (arith, fresh-eq k j w sub h.0 e, eq_iff k j))
          ∙ inc j w (lookup_behind k j v w sub h.0 e)

  module _ (same : V → V → Bool) (same_iff : (a b : V) → (same a b ≡ true) ↔ (a ≡ b)) where
    agrees-eq : (o : Option V) (w : V) → agrees same o w ≡ true → o ≡ some w
    agrees-eq none w h = cc
    agrees-eq (some a) w h = ap some ((same_iff a w).0 h)

    entries_in_sound :
        (m sub : Assoc V) (k : String) (v : V)
        → entries_in same m sub ≡ true
        → lookup k sub ≡ some v
        → lookup k m ≡ some v
    unfolding entries_in lookup
    entries_in_sound m [] k v h e = cc
    entries_in_sound m ((j, w) ∷ sub) k v h e =
        ground (arith, eq_iff j k, agrees-eq (lookup j m) w, entries_in_sound m sub k v)

    entries_in_complete :
        (m sub : Assoc V) → IsMap sub → Includes m sub → entries_in same m sub ≡ true
    unfolding entries_in
    entries_in_complete m [] h inc = refl
    entries_in_complete m ((k, v) ∷ sub) h inc =
        rw (inc k v (unfold lookup in rw eq_refl), (same_iff v v).1 refl)
          (entries_in_complete m sub h.1 (λ j w e. inc j w (lookup_behind k j v w sub h.0 e)))

    -- For Go maps, which hold no key twice, the test says exactly whether every entry of the second
    -- map is an entry of the first.
    pub is_map_subset-Includes :
        (m sub : Assoc V) → IsMap sub → (is_map_subset same m sub ≡ true) ↔ Includes m sub
    unfolding is_map_subset
    is_map_subset-Includes m sub h = (
      λ e k v. entries_in_sound m sub k v (ground arith),
      λ inc.
          let fits = Includes-length m sub h inc in
          let found = entries_in_complete m sub h inc in ground arith,
    )
