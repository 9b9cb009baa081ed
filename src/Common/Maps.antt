-- ===== src/Common/Maps.antt =====
-- Godot's HashMap, Dictionary and HashSet as association lists in insertion order, over the
-- library's `lookup`: a write to a key that is there keeps its place, a new key goes last.
use mathlib.Core.Path.{◌≡◌}
use mathlib.Core.Logic.{ite}
use mathlib.Core.List.{List, [], ◌∷◌, lookup}
use mathlib.Core.Option.{none, some}
use native.Mathlib.Omega.{arith}

module _ {ℓ} {K V : Type ℓ} (dec : Discrete K) where
  unfoldable pub insert : K → V → List (K × V) → List (K × V)
  insert k v [] = (k, v) ∷ []
  insert k v (e ∷ m) = ite (dec k e.0) ((k, v) ∷ m) (e ∷ insert k v m)

  unfoldable pub erase : K → List (K × V) → List (K × V)
  erase k [] = []
  erase k (e ∷ m) = let rest = erase k m in ite (dec k e.0) rest (e ∷ rest)

  -- A read of a key gives what was last written under it.
  pub lookup-insert :
      (k q : K) (v : V) (m : List (K × V))
      → lookup dec q (insert k v m) ≡ ite (dec q k) (some v) (lookup dec q m)
  unfolding insert lookup
  lookup-insert k q v [] = ground arith
  lookup-insert k q v (e ∷ m) = ground (arith, lookup-insert k q v m)

  pub lookup-erase :
      (k q : K) (m : List (K × V)) → lookup dec q (erase k m) ≡ ite (dec q k) none (lookup dec q m)
  unfolding erase lookup
  lookup-erase k q [] = ground arith
  lookup-erase k q (e ∷ m) = ground (arith, lookup-erase k q m)
