-- ===== src/Base/Weights.antt =====
-- Sums over the values of a map, and properties that hold of all its entries.
use Prim.Native.Nat.{ℕ, ◌+◌}
use mathlib.Core.Path.{◌≡◌, refl}
use mathlib.Core.Option.{Option, none, some}
use mathlib.Core.List.{[], ◌∷◌}
use native.Mathlib.Omega.{arith}
use pi_server.Base.Tests.{Eq, eq_refl}
use pi_server.Base.Maps.{Map, lookup, insert, erase, AllEntries, AllEntries-mono, Distinct}

unfoldable pub weigh {ℓ κ} : {K : Type ℓ} {V : Type κ} → (V → ℕ) → Map K V → ℕ
weigh f [] = 0
weigh f ((k, v) ∷ m) = f v + weigh f m

abbrev pub weight_of {κ} : {V : Type κ} → (V → ℕ) → Option V → ℕ
weight_of f none = 0
weight_of f (some v) = f v

module _ {ℓ κ} {K : Type ℓ} {V : Type κ} ⦃e : Eq K⦄ (f : V → ℕ) where
  pub weigh-insert :
      (k : K) (v : V) (m : Map K V)
      → weigh f (insert k v m) + weight_of f (lookup k m) ≡ weigh f m + f v
  unfolding weigh insert lookup
  weigh-insert k v [] = omega arith
  weigh-insert k v ((j, w) ∷ m) = ground (arith, weigh-insert k v m)

  weigh-erase_absent : (k : K) (m : Map K V) → lookup k m ≡ none → weigh f (erase k m) ≡ weigh f m
  unfolding weigh erase lookup
  weigh-erase_absent k [] h = refl
  weigh-erase_absent k ((j, w) ∷ m) h = ground (arith, weigh-erase_absent k m)

  pub weigh-erase :
      (k : K) (m : Map K V)
      → Distinct m
      → weigh f (erase k m) + weight_of f (lookup k m) ≡ weigh f m
  unfolding weigh erase lookup
  weigh-erase k [] d = omega arith
  weigh-erase k ((j, w) ∷ m) d =
      ground (arith, weigh-erase k m d.1, weigh-erase_absent k m, e.same_iff j k)

module _ {ℓ κ μ ν} {K : Type ℓ} {V : Type κ} (P : K → V → Type μ) (Q : K → V → Type ν) where
  pub AllEntries-both :
      (m : Map K V) → AllEntries P m → AllEntries Q m → AllEntries (λ k v. P k v × Q k v) m
  AllEntries-both [] h g = tt
  AllEntries-both ((k, v) ∷ m) h g = ((h.0, g.0), AllEntries-both m h.1 g.1)

module _ {ℓ κ} {K : Type ℓ} {V : Type κ} ⦃e : Eq K⦄ where
  found_later :
      (j k : K) (v w : V) (m : Map K V)
      → lookup j m ≡ none
      → lookup k m ≡ some w
      → lookup k ((j, v) ∷ m) ≡ some w
  unfolding lookup
  found_later j k v w m h f = ground (arith, e.same_iff j k)

  -- Each entry of a map is what a search for its key finds.
  pub entries_found : (m : Map K V) → Distinct m → AllEntries (λ k v. lookup k m ≡ some v) m
  unfolding lookup
  entries_found [] d = tt
  entries_found ((j, v) ∷ m) d = (
    ground (arith, eq_refl j),
    AllEntries-mono (λ k w. lookup k m ≡ some w) (λ k w. lookup k ((j, v) ∷ m) ≡ some w) m
        (λ k w f. found_later j k v w m d.0 f) (entries_found m d.1),
  )
