-- ===== src/Base/Assoc.antt =====
-- A Go map with string keys, as the list of its entries in the order in which the run ranges over it.
use Prim.Native.String.{String}
use mathlib.Core.Path.{◌≡◌, refl}
use mathlib.Core.List.{List, [], ◌∷◌}
use mathlib.Core.Option.{Option, none, some}
use native.Mathlib.Omega.{arith}
use text.Mathlib.Text.{◌==◌}
use text.Mathlib.TextEquality.{eq_iff}
use camblet.Base.Tests.{if◌then◌else◌}

abbrev pub Assoc {ℓ} : Type ℓ → Type ℓ
Assoc V = List (String × V)

module _ {ℓ} {V : Type ℓ} where
  unfoldable pub lookup : String → Assoc V → Option V
  lookup wanted [] = none
  lookup wanted ((key, held) ∷ others) =
      let later = lookup wanted others in if key == wanted then some held else later

  -- An entry with the key is replaced where it stands.
  unfoldable pub insert : String → V → Assoc V → Assoc V
  insert key new [] = (key, new) ∷ []
  insert key new ((first, old) ∷ others) =
      let later = insert key new others in
      if first == key then (key, new) ∷ others else (first, old) ∷ later

  pub lookup-insert :
      (key wanted : String) (new : V) (entries : Assoc V)
      → lookup wanted (insert key new entries)
        ≡ (if key == wanted then some new else lookup wanted entries)
  unfolding lookup insert
  lookup-insert key wanted new [] = refl
  lookup-insert key wanted new ((first, old) ∷ rest) =
      let later = lookup-insert key wanted new rest in
      ground (arith, later, eq_iff first wanted, eq_iff first key, eq_iff key wanted)

  -- No key stands twice, as in every Go map.
  abbrev pub IsMap : Assoc V → Type ℓ
  IsMap [] = Unit
  IsMap ((k, v) ∷ m) = (lookup k m ≡ none) × IsMap m

  pub insert-IsMap : (k : String) (v : V) (m : Assoc V) → IsMap m → IsMap (insert k v m)
  unfolding lookup insert
  insert-IsMap k v [] h = (refl, tt)
  insert-IsMap k v ((j, w) ∷ m) h =
      ground (arith, insert-IsMap k v m h.1, lookup-insert k j v m, eq_iff j k, eq_iff k j)
