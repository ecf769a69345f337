-- ===== src/Policy/Organize/Order.antt =====
-- The order that the insertion sort of `Organize` does and does not establish.
use mathlib.Core.List.{Perm, perm_middle}
use mathlib.Core.List.Perm
use camblet.Base.{
  refl, ◌↔◌, ◌∙◌, ◌≡◌, true, false, All, append-nil, arith, inl, inr, Bool, List, [], ◌∷◌, ◌++◌,
  Bool-cases,
}
use camblet.Base.Assoc.{IsMap}
use camblet.Policy.Types.{Policy, Selector}
use camblet.Policy.Organize.{
  sift, sort_onto, turn, insertion_sort, selectors, bool_same, deep_equal, narrower, less,
}
use camblet.Policy.Subset.{is_map_subset, Includes, is_map_subset-Includes}
use mathlib.Core.Bool.{or-false}

module _ {ℓ} {A : Type ℓ} (before : A → A → Bool) where
  sift-perm : (x : A) (sorted : List A) → Perm (sift before x sorted) (x ∷ sorted)
  unfolding sift
  sift-perm x [] = Perm.rfl
  sift-perm x (y ∷ sorted) = elim (Bool-cases (before x y)) [
    | inl e ↦ rw e (Perm.trans (Perm.cons y (sift-perm x sorted)) (Perm.swap x y sorted))
    | inr e ↦ rw e Perm.rfl
  ]

  sort_onto-perm : (sorted xs : List A) → Perm (sort_onto before sorted xs) (xs ++ sorted)
  unfolding sort_onto
  sort_onto-perm sorted [] = Perm.rfl
  sort_onto-perm sorted (x ∷ xs) =
      Perm.trans (sort_onto-perm (sift before x sorted) xs)
        (Perm.trans (Perm.append_left xs (sift-perm x sorted)) (perm_middle xs sorted))

module _ {ℓ} {A : Type ℓ} where
  turn-perm : (acc xs : List A) → Perm (turn acc xs) (xs ++ acc)
  unfolding turn
  turn-perm acc [] = Perm.rfl
  turn-perm acc (x ∷ xs) = Perm.trans (turn-perm (x ∷ acc) xs) (perm_middle xs acc)

-- The insertion sort permutes, whatever the comparison.
pub insertion_sort-perm {ℓ} :
    {A : Type ℓ} (before : A → A → Bool) (xs : List A) → Perm (insertion_sort before xs) xs
unfolding insertion_sort
insertion_sort-perm before xs =
    Perm.trans (turn-perm [] (sort_onto before [] xs)) (
      rw (append-nil (sort_onto before [] xs))
        (rw (append-nil xs) at (sort_onto-perm before [] xs)))

module _ {ℓ} {A : Type ℓ} (before : A → A → Bool) where
  -- The last element first: none is before the one that stands right in front of it.
  abbrev Descending : List A → Type 0
  Descending [] = Unit
  Descending (x ∷ []) = Unit
  Descending (x ∷ y ∷ s) = (before x y ≡ false) × Descending (y ∷ s)

  -- No element is before the one that stands right in front of it.
  abbrev pub Ascending : List A → Type 0
  Ascending [] = Unit
  Ascending (x ∷ []) = Unit
  Ascending (x ∷ y ∷ s) = (before y x ≡ false) × Ascending (y ∷ s)

module _ {ℓ} {A : Type ℓ} (before : A → A → Bool) (P : A → Type ℓ)
    (asym : (x y : A) → P x → P y → before x y ≡ true → before y x ≡ false) where
  sift-Descending :
      (x : A) (s : List A)
      → P x
      → All P s
      → Descending before s
      → Descending before (sift before x s)
  unfolding sift
  sift-Descending x [] px ps d = tt
  sift-Descending x (y ∷ []) px ps d = ground (arith, asym x y px ps.0)
  sift-Descending x (y ∷ z ∷ s) px ps d =
      ground (arith, asym x y px ps.0, sift-Descending x (z ∷ s) px ps.1 d.1)

  sift-All : (x : A) (s : List A) → P x → All P s → All P (sift before x s)
  unfolding sift
  sift-All x [] px ps = (px, tt)
  sift-All x (y ∷ s) px ps = elim (Bool-cases (before x y)) [
    | inl e ↦ rw e (ps.0, sift-All x s px ps.1)
    | inr e ↦ rw e (px, ps)
  ]

  sort_onto-Descending :
      (s xs : List A)
      → All P s
      → All P xs
      → Descending before s
      → Descending before (sort_onto before s xs)
  unfolding sort_onto
  sort_onto-Descending s [] ps pxs d = d
  sort_onto-Descending s (x ∷ xs) ps pxs d =
      sort_onto-Descending (sift before x s) xs (sift-All x s pxs.0 ps) pxs.1
        (sift-Descending x s pxs.0 ps d)

  turn-Ascending :
      (x : A) (acc xs : List A)
      → Ascending before (x ∷ acc)
      → Descending before (x ∷ xs)
      → Ascending before (turn (x ∷ acc) xs)
  unfolding turn
  turn-Ascending x acc [] a d = a
  turn-Ascending x acc (y ∷ xs) a d = turn-Ascending y (x ∷ acc) xs (d.0, a) d.1

  insertion_sort-Ascending : (xs : List A) → All P xs → Ascending before (insertion_sort before xs)
  unfolding insertion_sort
  insertion_sort-Ascending xs pxs =
      go (sort_onto before [] xs) (sort_onto-Descending [] xs tt pxs tt)
    where
      go : (s : List A) → Descending before s → Ascending before (turn [] s)
      go [] d = tt
      go (x ∷ s) d = turn-Ascending x [] s tt d

-- A selector is more specific than another one if it has all its labels with their values, and
-- the other one lacks one of its own.
abbrev pub IsMoreSpecific : Selector → Selector → Type 0
IsMoreSpecific a b = Includes a b × ¬ (Includes b a)

-- A policy with exactly one selector, which is a map.
abbrev pub HasSelector : Policy → Selector → Type 0
HasSelector p sel = (selectors p ≡ sel ∷ []) × IsMap sel

abbrev pub IsSingle : Policy → Type 0
IsSingle p = (sel : Selector) × HasSelector p sel

bool_same_iff : (a b : Bool) → (bool_same a b ≡ true) ↔ (a ≡ b)
bool_same_iff true true = (λ h. refl, λ h. refl)
bool_same_iff true false = (λ h. cc, λ h. cc)
bool_same_iff false true = (λ h. cc, λ h. cc)
bool_same_iff false false = (λ h. refl, λ h. refl)

subset_iff : (a b : Selector) → IsMap b → (is_map_subset bool_same a b ≡ true) ↔ Includes a b
subset_iff a b = is_map_subset-Includes bool_same bool_same_iff a b

deep_equal-both :
    (a b : Selector)
    → is_map_subset bool_same a b ≡ true
    → is_map_subset bool_same b a ≡ true
    → deep_equal a b ≡ true
unfolding is_map_subset
deep_equal-both a b h k = ground arith

deep_equal-subset : (a b : Selector) → deep_equal a b ≡ true → is_map_subset bool_same b a ≡ true
unfolding is_map_subset
deep_equal-subset a b h = ground arith

narrower-true :
    (a b : Selector)
    → deep_equal a b ≡ false
    → is_map_subset bool_same a b ≡ true
    → narrower a b ≡ true
narrower-true a b h k = rw (h, k) refl

-- The test of the comparison on maps of labels.
narrower_iff : (a b : Selector) → IsMap a → IsMap b → (narrower a b ≡ true) ↔ IsMoreSpecific a b
narrower_iff a b map_a map_b = (
  λ h.
      let included : is_map_subset bool_same a b ≡ true = ground arith in
      let differ : deep_equal a b ≡ false = ground arith in
      (
        (subset_iff a b map_b).0 included,
        λ back. let equal = deep_equal-both a b included ((subset_iff b a map_a).1 back) in cc,
      ),
  λ (included, lacks). elim (Bool-cases (deep_equal a b)) [
    | inl equal ↦ absurd (lacks ((subset_iff b a map_a).0 (deep_equal-subset a b equal)))
    | inr differ ↦ narrower-true a b differ ((subset_iff a b map_b).1 included)
  ],
)

less_single :
    (p q : Policy) (a b : Selector)
    → selectors p ≡ a ∷ []
    → selectors q ≡ b ∷ []
    → less p q ≡ narrower a b
unfolding less
less_single p q a b e e' = rw (e, e') (or-false _ ∙ or-false _)

less_iff :
    (p q : Policy) (a b : Selector)
    → HasSelector p a
    → HasSelector q b
    → (less p q ≡ true) ↔ IsMoreSpecific a b
less_iff p q a b (e, map_a) (e', map_b) =
    rw (less_single p q a b e e') (narrower_iff a b map_a map_b)

less_asym : (p q : Policy) → IsSingle p → IsSingle q → less p q ≡ true → less q p ≡ false
less_asym p q (a, has_a) (b, has_b) h = elim (Bool-cases (less q p)) [
  | inl back ↦
      absurd (((less_iff p q a b has_a has_b).0 h).1 ((less_iff q p b a has_b has_a).0 back).0)
  | inr e ↦ e
]

-- The selector of the second policy is not more specific than that of the first.
abbrev pub InOrder : Policy → Policy → Type 0
InOrder p q = (a b : Selector) → HasSelector p a → HasSelector q b → ¬ (IsMoreSpecific b a)

-- Each policy is in order with the one right behind it.
abbrev pub AreInOrder : List Policy → Type 0
AreInOrder [] = Unit
AreInOrder (p ∷ []) = Unit
AreInOrder (p ∷ q ∷ ps) = InOrder p q × AreInOrder (q ∷ ps)

less-InOrder : (p q : Policy) → less q p ≡ false → InOrder p q
less-InOrder p q h a b has_a has_b specific =
    let back = (less_iff q p b a has_b has_a).1 specific in cc

Ascending-AreInOrder : (ps : List Policy) → Ascending less ps → AreInOrder ps
Ascending-AreInOrder [] h = tt
Ascending-AreInOrder (p ∷ []) h = tt
Ascending-AreInOrder (p ∷ q ∷ ps) (first, rest) =
    (less-InOrder p q first, Ascending-AreInOrder (q ∷ ps) rest)

-- Sorting policies that have one selector each, as `Organize` does with up to 20 policies, leaves
-- no policy right behind one that its selector is more specific than: one whose labels it has with
-- their values, and a label besides. The result has the same policies.
pub insertion_sort-less-AreInOrder :
    (ps : List Policy)
    → All IsSingle ps
    → AreInOrder (insertion_sort less ps) × Perm (insertion_sort less ps) ps
insertion_sort-less-AreInOrder ps h = (
  Ascending-AreInOrder (insertion_sort less ps)
      (insertion_sort-Ascending less IsSingle less_asym ps h),
  insertion_sort-perm less ps,
)

not_less :
    (p q : Policy) (a b : Selector)
    → HasSelector p a
    → HasSelector q b
    → ¬ (IsMoreSpecific a b)
    → less p q ≡ false
not_less p q a b has_a has_b h = elim (Bool-cases (less p q)) [
  | inl e ↦ absurd (h ((less_iff p q a b has_a has_b).0 e))
  | inr e ↦ e
]

-- Of policies with one selector each, one that is more specific than a general one is sorted before
-- it if only these two are there; but if a third policy stands between them, which is not more
-- specific than the general one, and which the specific one is not more specific than, then the
-- sort of `Organize` leaves the general one first.
pub insertion_sort-less_misses :
    (p q r : Policy) (general unrelated specific : Selector)
    → HasSelector p general
    → HasSelector q unrelated
    → HasSelector r specific
    → IsMoreSpecific specific general
    → ¬ (IsMoreSpecific unrelated general)
    → ¬ (IsMoreSpecific specific unrelated)
    → (insertion_sort less (p ∷ r ∷ []) ≡ r ∷ p ∷ [])
      × (insertion_sort less (p ∷ q ∷ r ∷ []) ≡ p ∷ q ∷ r ∷ [])
unfolding insertion_sort
insertion_sort-less_misses p q r general unrelated specific has_p has_q has_r more not_first
      not_second =
    (
      rw ((less_iff r p specific general has_r has_p).1 more) refl,
      rw
          (
            not_less q p unrelated general has_q has_p not_first,
            not_less r q specific unrelated has_r has_q not_second,
          )
          refl,
    )
