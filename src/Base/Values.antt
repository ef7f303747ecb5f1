-- ===== src/Base/Values.antt =====
-- A loop that rewrites each value of a map in place.
use mathlib.Core.Path.{◌≡◌, refl}
use mathlib.Core.Option.{Option, none, some}
use mathlib.Core.List.{[], ◌∷◌}
use native.Mathlib.Omega.{arith}
use pi_server.Base.Tests.{Eq}
use pi_server.Base.Lists.{length}
use pi_server.Base.Maps.{Map, lookup, insert, Distinct}

unfoldable pub map_values {ℓ κ} : {K : Type ℓ} {V : Type κ} → (V → V) → Map K V → Map K V
map_values f [] = []
map_values f ((k, v) ∷ m) = (k, f v) ∷ map_values f m

abbrev pub on_some {κ μ} : {V : Type κ} {W : Type μ} → (V → W) → Option V → Option W
on_some f none = none
on_some f (some v) = some (f v)

module _ {ℓ κ} {K : Type ℓ} {V : Type κ} ⦃e : Eq K⦄ (f : V → V) where
  pub lookup-map_values : (k : K) (m : Map K V) → lookup k (map_values f m) ≡ on_some f (lookup k m)
  unfolding lookup map_values
  lookup-map_values k [] = refl
  lookup-map_values k ((j, v) ∷ m) = ground (arith, lookup-map_values k m)

  pub map_values-Distinct : (m : Map K V) → Distinct m → Distinct (map_values f m)
  unfolding map_values
  map_values-Distinct [] d = tt
  map_values-Distinct ((j, v) ∷ m) d =
      ground (arith, map_values-Distinct m d.1, lookup-map_values j m)

  pub length-map_values : (m : Map K V) → length (map_values f m) ≡ length m
  unfolding map_values
  length-map_values [] = refl
  length-map_values ((j, v) ∷ m) = ground (arith, length-map_values m)

module _ {ℓ κ} {K : Type ℓ} {V : Type κ} ⦃e : Eq K⦄ where
  -- Writing to a key that is there leaves the length.
  pub length-insert_known :
      (k : K) (v w : V) (m : Map K V) → lookup k m ≡ some w → length (insert k v m) ≡ length m
  unfolding lookup insert
  length-insert_known k v w [] h = cc
  length-insert_known k v w ((j, x) ∷ m) h = ground (arith, length-insert_known k v w m)
