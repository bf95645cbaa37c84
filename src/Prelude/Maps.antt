-- ===== src/Prelude/Maps.antt =====
-- Go maps as association lists, over a test of equality of their keys.
use mathlib.Core.Path.{◌≡◌, refl}
use mathlib.Core.Logic.{◌↔◌}
use mathlib.Core.Bool.{Bool, true, false, ◌||◌}
use mathlib.Core.List.{List, [], ◌∷◌}
use mathlib.Core.Option.{Option, none, some}
use native.Mathlib.Omega.{arith}
use vcluster_private_cloud_c.Prelude.Tests.{if◌then◌else◌}

module _ {K V : Type 0} (same : K → K → Bool) where
  unfoldable pub find : K → List (K × V) → Option V
  find k [] = none
  find k ((j, v) ∷ m) = if same j k then some v else find k m

  unfoldable pub put : K → V → List (K × V) → List (K × V)
  put k v [] = (k, v) ∷ []
  put k v ((j, w) ∷ m) = if same j k then (k, v) ∷ m else (j, w) ∷ put k v m

  unfoldable pub remove : K → List (K × V) → List (K × V)
  remove k [] = []
  remove k ((j, w) ∷ m) = let rest = remove k m in if same j k then rest else (j, w) ∷ rest

module _ {K : Type 0} (same : K → K → Bool) where
  -- A map to `bool`, as the list of the keys that it maps to `true`.
  unfoldable pub has : K → List K → Bool
  has k [] = false
  has k (j ∷ s) = same j k || has k s

  unfoldable pub without : K → List K → List K
  without k [] = []
  without k (j ∷ s) = let rest = without k s in if same j k then rest else j ∷ rest

module _ {K V : Type 0} (same : K → K → Bool)
    (same_iff : (a b : K) → (same a b ≡ true) ↔ (a ≡ b)) where
  pub find-put :
      (k j : K) (v : V) (m : List (K × V))
      → find same j (put same k v m) ≡ (if same k j then some v else find same j m)
  unfolding find put
  find-put k j v [] = refl
  find-put k j v ((i, w) ∷ m) =
      ground (arith, same_iff k j, same_iff i k, same_iff i j, find-put k j v m)

  pub find-remove :
      (k j : K) (m : List (K × V))
      → find same j (remove same k m) ≡ (if same k j then none else find same j m)
  unfolding find remove
  find-remove k j [] = ground arith
  find-remove k j ((i, w) ∷ m) =
      ground (arith, same_iff k j, same_iff i k, same_iff i j, find-remove k j m)

module _ {K : Type 0} (same : K → K → Bool)
    (same_iff : (a b : K) → (same a b ≡ true) ↔ (a ≡ b)) where
  pub has-without :
      (k j : K) (s : List K)
      → has same j (without same k s) ≡ (if same k j then false else has same j s)
  unfolding has without
  has-without k j [] = ground arith
  has-without k j (i ∷ s) =
      ground (arith, same_iff k j, same_iff i k, same_iff i j, has-without k j s)
