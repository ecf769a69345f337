-- ===== src/Policy/Organize/Numbered.antt =====
-- Positions after `Organize`, at every depth, and what it leaves of the policies.
use mathlib.Core.List.{Perm, Mem, mem-cons, mem-cons_self, mem-cons_of_mem, not-mem-nil}
use mathlib.Core.List.Perm
use mathlib.Core.Logic.Or
use native.Mathlib.Bridge.{le_prop}
use camblet.Base.{ℕ, zero, suc, ◌≤◌, ◌<◌, ◌≡◌, refl, sym, ap, ap₂, map, Bool, List, [], ◌∷◌, arith}
use camblet.Policy.Types.{Policy, policy, Policies, no_policies, policies, to_list}
use camblet.Policy.Organize.{less, place, organize_within, depth, organize}

abbrev pub egress_of : Policy → Policies
egress_of (policy position id sels certificate connection egress) = egress

-- The positions count from k, and from 0 in the egress policies at every depth.
abbrev pub NumberedFrom : ℕ → Policies → Type 0
NumberedFrom k no_policies = Unit
NumberedFrom k (policies (policy position id sels certificate connection egress) ps) =
    (position ≡ k) × NumberedFrom 0 egress × NumberedFrom (suc k) ps

-- A policy with no position, and the given egress policies.
abbrev pub unplaced : (Policies → Policies) → Policy → Policy
unplaced change (policy position id sels certificate connection egress) =
    policy 0 id sels certificate connection (change egress)

depth-mem : (ps : Policies) (p : Policy) → Mem p (to_list ps) → depth (egress_of p) < depth ps
unfolding depth
depth-mem no_policies p m = absurd (not-mem-nil m)
depth-mem (policies (policy pos id sels cert conn egress) ps) p m =
    Or.elim le_prop (mem-cons.0 m) (λ e. rw e (omega arith))
      (λ there. omega (arith, depth-mem ps p there))

place-NumberedFrom :
    (organize_egress : Policies → Policies) (k : ℕ) (l : List Policy)
    → ((p : Policy) → Mem p l → NumberedFrom 0 (organize_egress (egress_of p)))
    → NumberedFrom k (place organize_egress k l)
unfolding place
place-NumberedFrom organize_egress k [] h = tt
place-NumberedFrom organize_egress k (policy pos id sels cert conn egress ∷ l) h = (
  refl,
  h _ mem-cons_self,
  place-NumberedFrom organize_egress (suc k) l (λ p m. h p (mem-cons_of_mem _ m)),
)

place_congr :
    (f g : Policies → Policies) (k : ℕ) (l : List Policy)
    → ((p : Policy) → Mem p l → f (egress_of p) ≡ g (egress_of p))
    → place f k l ≡ place g k l
unfolding place
place_congr f g k [] h = refl
place_congr f g k (policy pos id sels cert conn egress ∷ l) h =
    ap₂ (λ e ps. policies (policy k id sels cert conn e) ps) (h _ mem-cons_self)
      (place_congr f g (suc k) l (λ p m. h p (mem-cons_of_mem _ m)))

map-place :
    (f : Policies → Policies) (k : ℕ) (l : List Policy)
    → map (unplaced (λ e. e)) (to_list (place f k l)) ≡ map (unplaced f) l
unfolding place
map-place f k [] = refl
map-place f k (policy pos id sels cert conn egress ∷ l) =
    ap (λ ps. policy 0 id sels cert conn (f egress) ∷ ps) (map-place f (suc k) l)

map_congr :
    (f g : Policies → Policies) (l : List Policy)
    → ((p : Policy) → Mem p l → f (egress_of p) ≡ g (egress_of p))
    → map (unplaced f) l ≡ map (unplaced g) l
map_congr f g [] h = refl
map_congr f g (policy pos id sels cert conn egress ∷ l) h =
    ap₂ (λ e ps. policy 0 id sels cert conn e ∷ ps) (h _ mem-cons_self)
      (map_congr f g l (λ p m. h p (mem-cons_of_mem _ m)))

module _ (slice_stable : (Policy → Policy → Bool) → List Policy → List Policy)
    (slice_stable-perm : (l : List Policy) → Perm (slice_stable less l) l) where
  organize_within-NumberedFrom :
      (fuel : ℕ) (ps : Policies)
      → depth ps ≤ fuel
      → NumberedFrom 0 (organize_within slice_stable fuel ps)
  unfolding organize_within
  organize_within-NumberedFrom zero no_policies h = tt
  organize_within-NumberedFrom zero (policies (policy pos id sels cert conn egress) ps) h =
      absurd (unfold depth in omega arith)
  organize_within-NumberedFrom (suc fuel) ps h =
      place-NumberedFrom (organize_within slice_stable fuel) 0 (slice_stable less (to_list ps))
        (λ p m.
          organize_within-NumberedFrom fuel (egress_of p)
            (omega (arith, depth-mem ps p ((Perm.mem_iff (slice_stable-perm (to_list ps))).0 m))))

  -- At every depth the positions are 0, 1, 2, ... in the order of the result.
  pub organize-NumberedFrom : (ps : Policies) → NumberedFrom 0 (organize slice_stable ps)
  unfolding organize
  organize-NumberedFrom ps = organize_within-NumberedFrom (depth ps) ps (omega arith)

  sorted-depth :
      (ps : Policies) (p : Policy)
      → Mem p (slice_stable less (to_list ps))
      → depth (egress_of p) < depth ps
  sorted-depth ps p m = depth-mem ps p ((Perm.mem_iff (slice_stable-perm (to_list ps))).0 m)

  organize_empty :
      (g : ℕ) (ps : Policies) → depth ps ≤ 0 → organize_within slice_stable (suc g) ps ≡ ps
  unfolding organize_within place
  organize_empty g no_policies h = rw (Perm.eq-nil (slice_stable-perm []))
  organize_empty g (policies (policy pos id sels cert conn egress) ps) h =
      absurd (unfold depth in omega arith)

  -- More fuel than the depth changes nothing.
  organize_within_enough :
      (f g : ℕ) (ps : Policies)
      → depth ps ≤ f
      → depth ps ≤ g
      → organize_within slice_stable f ps ≡ organize_within slice_stable g ps
  unfolding organize_within
  organize_within_enough zero zero ps hf hg = refl
  organize_within_enough zero (suc g) ps hf hg = sym (organize_empty g ps hf)
  organize_within_enough (suc f) zero ps hf hg = organize_empty f ps hg
  organize_within_enough (suc f) (suc g) ps hf hg =
      place_congr _ _ 0 (slice_stable less (to_list ps)) (λ p m.
        organize_within_enough f g (egress_of p) (omega (arith, sorted-depth ps p m))
          (omega (arith, sorted-depth ps p m)))

  organize_within-organize :
      (n : ℕ) (ps : Policies)
      → depth ps ≤ n
      → organize_within slice_stable n ps ≡ organize slice_stable ps
  unfolding organize
  organize_within-organize n ps h = organize_within_enough n (depth ps) ps h (omega arith)

  -- But for the positions, the result is a permutation of the policies, each with its egress
  -- policies organized.
  pub organize-perm :
      (ps : Policies)
      → Perm
          (map (unplaced (λ e. e)) (to_list (organize slice_stable ps)))
          (map (unplaced (organize slice_stable)) (to_list ps))
  unfolding organize_within
  organize-perm ps =
      let n = depth ps in
      let sorted = slice_stable less (to_list ps) in
      rw (← organize_within-organize (suc n) ps (omega arith)) (
        rw (map-place (organize_within slice_stable n) 0 sorted) (
          rw
            (map_congr (organize_within slice_stable n) (organize slice_stable) sorted (λ p m.
              organize_within-organize n (egress_of p) (omega (arith, sorted-depth ps p m))))
            (Perm.map (unplaced (organize slice_stable)) (slice_stable-perm (to_list ps)))))
