-- ===== src/Base/Maps.antt =====
-- `std::unordered_map` as an association list: `insert` is `m[k] = v`, `erase` is `m.erase(k)`.
-- The order in which C++ visits the entries is unspecified; here it is that of the list.
use Prim.Native.Nat.{◌+◌, ◌≤◌}
use mathlib.Core.Path.{◌≡◌, refl, subst}
use mathlib.Core.Bool.{Bool, true, false}
use mathlib.Core.Logic.{◌⊎◌, inl, inr}
use mathlib.Core.Option.{Option, none, some}
use mathlib.Core.List.{List, [], ◌∷◌}
use native.Mathlib.Omega.{arith}
use pi_server.Base.Tests.{Eq, ◌==◌, if◌then◌else◌, is_some, eq_refl, Bool-cases}
use pi_server.Base.Lists.{length, All}

abbrev pub Map {ℓ κ} : Type ℓ → Type κ → Type (ℓ ⊔ κ)
Map K V = List (K × V)

module _ {ℓ κ} {K : Type ℓ} {V : Type κ} ⦃e : Eq K⦄ where
  unfoldable pub lookup : K → Map K V → Option V
  lookup key ((at, value) ∷ rest) = if at == key then some value else lookup key rest
  lookup key [] = none

  unfoldable pub insert : K → V → Map K V → Map K V
  insert key value ((at, old) ∷ rest) =
      if at == key then (key, value) ∷ rest else (at, old) ∷ insert key value rest
  insert key value [] = (key, value) ∷ []

  -- Every entry of the key goes, so that no invariant on the list is needed.
  unfoldable pub erase : K → Map K V → Map K V
  erase key ((at, old) ∷ rest) = if at == key then erase key rest else (at, old) ∷ erase key rest
  erase key [] = []

  abbrev pub contains : K → Map K V → Bool
  contains k m = is_some (lookup k m)

  pub lookup-insert :
      (key other : K) (value : V) (m : Map K V)
      → lookup other (insert key value m) ≡ (if key == other then some value else lookup other m)
  unfolding lookup insert
  lookup-insert k j v [] = refl
  lookup-insert k j v ((i, w) ∷ m) =
      ground (arith, e.same_iff k j, e.same_iff i k, e.same_iff i j, lookup-insert k j v m)

  pub lookup-erase :
      (k j : K) (m : Map K V) → lookup j (erase k m) ≡ (if k == j then none else lookup j m)
  unfolding lookup erase
  lookup-erase k j [] = ground arith
  lookup-erase k j ((i, w) ∷ m) =
      ground (arith, e.same_iff k j, e.same_iff i k, e.same_iff i j, lookup-erase k j m)

  pub lookup-insert_self : (k : K) (v : V) (m : Map K V) → lookup k (insert k v m) ≡ some v
  lookup-insert_self k v m = simp (lookup-insert, eq_refl)

  pub lookup-erase_self : (k : K) (m : Map K V) → lookup k (erase k m) ≡ none
  lookup-erase_self k m = simp (lookup-erase, eq_refl)

  pub lookup-insert_ne :
      (k j : K) (v : V) (m : Map K V) → (k == j) ≡ false → lookup j (insert k v m) ≡ lookup j m
  lookup-insert_ne k j v m h = rw (lookup-insert k j v m, h)

  pub lookup-erase_ne :
      (k j : K) (m : Map K V) → (k == j) ≡ false → lookup j (erase k m) ≡ lookup j m
  lookup-erase_ne k j m h = rw (lookup-erase k j m, h)

  pub length-insert : (k : K) (v : V) (m : Map K V) → length (insert k v m) ≤ length m + 1
  unfolding insert
  length-insert k v [] = omega arith
  length-insert k v ((j, w) ∷ m) = ground (arith, length-insert k v m)

  pub length-erase : (k : K) (m : Map K V) → length (erase k m) ≤ length m
  unfolding erase
  length-erase k [] = omega arith
  length-erase k ((j, w) ∷ m) = ground (arith, length-erase k m)

-- A property of every entry.
abbrev pub AllEntries {ℓ κ μ} : {K : Type ℓ} {V : Type κ} → (K → V → Type μ) → Map K V → Type μ
AllEntries P [] = Unit
AllEntries P ((k, v) ∷ m) = P k v × AllEntries P m

module _ {ℓ κ μ ν} {K : Type ℓ} {V : Type κ} (P : K → V → Type μ) (Q : K → V → Type ν) where
  pub AllEntries-mono :
      (m : Map K V) → ((k : K) (v : V) → P k v → Q k v) → AllEntries P m → AllEntries Q m
  AllEntries-mono [] f h = tt
  AllEntries-mono ((k, v) ∷ m) f h = (f k v h.0, AllEntries-mono m f h.1)

module _ {ℓ κ μ} {K : Type ℓ} {V : Type κ} ⦃e : Eq K⦄ (P : K → V → Type μ) where
  pub AllEntries-lookup :
      (k : K) (v : V) (m : Map K V)
      → AllEntries P m
      → lookup k m ≡ some v
      → (j : K) × ((j == k) ≡ true) × P j v
  unfolding lookup
  AllEntries-lookup k v [] h f = cc
  AllEntries-lookup k v ((j, w) ∷ m) h f = elim (Bool-cases (j == k)) [
    | inl t ↦ let same : w ≡ v = ground arith in (j, t, subst (P j) same h.0)
    | inr t ↦ AllEntries-lookup k v m h.1 (ground arith)
  ]

  pub AllEntries-insert :
      (k : K) (v : V) (m : Map K V) → P k v → AllEntries P m → AllEntries P (insert k v m)
  unfolding insert
  AllEntries-insert k v [] p h = (p, h)
  AllEntries-insert k v ((j, w) ∷ m) p h = ground (arith, AllEntries-insert k v m p h.1)

  -- What is left after `erase` has another key.
  pub AllEntries-erase :
      (k : K) (m : Map K V)
      → AllEntries P m
      → AllEntries (λ j v. P j v × ((j == k) ≡ false)) (erase k m)
  unfolding erase
  AllEntries-erase k [] h = tt
  AllEntries-erase k ((j, w) ∷ m) h = ground (arith, AllEntries-erase k m h.1)

-- No key stands twice, as in every C++ map.
abbrev pub Distinct {ℓ κ} : {K : Type ℓ} {V : Type κ} ⦃e : Eq K⦄ → Map K V → Type κ
Distinct [] = Unit
Distinct ((k, v) ∷ m) = (lookup k m ≡ none) × Distinct m

-- A property of one of the elements.
abbrev pub Any {ℓ} : {A : Type ℓ} → (A → Type 0) → List A → Type 0
Any P [] = ⊥
Any P (x ∷ xs) = P x ⊎ Any P xs

module _ {ℓ κ} {K : Type ℓ} {V : Type κ} ⦃e : Eq K⦄ where
  pub insert-Distinct : (k : K) (v : V) (m : Map K V) → Distinct m → Distinct (insert k v m)
  unfolding lookup insert
  insert-Distinct k v [] d = ground arith
  insert-Distinct k v ((j, w) ∷ m) d =
      ground
        (arith, insert-Distinct k v m d.1, lookup-insert k j v m, e.same_iff j k, e.same_iff k j)

  pub erase-Distinct : (k : K) (m : Map K V) → Distinct m → Distinct (erase k m)
  unfolding lookup erase
  erase-Distinct k [] d = tt
  erase-Distinct k ((j, w) ∷ m) d =
      ground (arith, erase-Distinct k m d.1, lookup-erase k j m, e.same_iff j k, e.same_iff k j)

-- The loop `for (it …) { if (!p(it->second)) ++it; else { push_back(…); it = erase(it); } }`:
-- what stays, and the values taken.
unfoldable pub take_where {ℓ κ} :
    {K : Type ℓ} {V : Type κ} → (V → Bool) → Map K V → Map K V × List V
take_where p [] = ([], [])
take_where p ((k, v) ∷ m) =
    let (kept, taken) = take_where p m in if p v then (kept, v ∷ taken) else ((k, v) ∷ kept, taken)

abbrev pub unless {ℓ} : {A : Type ℓ} → (A → Bool) → Option A → Option A
unless p none = none
unless p (some v) = if p v then none else some v

module _ {ℓ κ} {K : Type ℓ} {V : Type κ} ⦃e : Eq K⦄ (p : V → Bool) where
  pub lookup-take_where :
      (k : K) (m : Map K V) → Distinct m → lookup k (take_where p m).0 ≡ unless p (lookup k m)
  unfolding lookup take_where
  lookup-take_where k [] d = refl
  lookup-take_where k ((j, v) ∷ m) d = ground (arith, lookup-take_where k m d.1, e.same_iff j k)

  pub take_where-Distinct : (m : Map K V) → Distinct m → Distinct (take_where p m).0
  unfolding take_where
  take_where-Distinct [] d = tt
  take_where-Distinct ((j, v) ∷ m) d =
      ground (arith, take_where-Distinct m d.1, lookup-take_where j m d.1)

  pub length-take_where :
      (m : Map K V) → length (take_where p m).0 + length (take_where p m).1 ≡ length m
  unfolding take_where
  length-take_where [] = omega arith
  length-take_where ((j, v) ∷ m) = ground (arith, length-take_where m)

module _ {ℓ κ μ} {K : Type ℓ} {V : Type κ} (p : V → Bool) (P : K → V → Type μ) where
  -- What is taken passes the test, and has each property that all values have.
  pub take_where_sound {ν} :
      (Q : V → Type ν)
      → ((k : K) (v : V) → P k v → p v ≡ true → Q v)
      → (m : Map K V) → AllEntries P m
      → All Q (take_where p m).1
  unfolding take_where
  take_where_sound Q f [] h = tt
  take_where_sound Q f ((j, v) ∷ m) h = elim (Bool-cases (p v)) [
    | inl t ↦ rw (take_where, t) (f j v h.0 t, take_where_sound Q f m h.1)
    | inr t ↦ rw (take_where, t) (take_where_sound Q f m h.1)
  ]

  pub AllEntries-take_where : (m : Map K V) → AllEntries P m → AllEntries P (take_where p m).0
  unfolding take_where
  AllEntries-take_where [] h = tt
  AllEntries-take_where ((j, v) ∷ m) h = ground (arith, AllEntries-take_where m h.1)

module _ {ℓ} {K : Type ℓ} {V : Type 0} ⦃e : Eq K⦄ (p : V → Bool) where
  -- Each value that passes the test is taken.
  pub take_where_takes :
      (k : K) (v : V) (m : Map K V)
      → lookup k m ≡ some v
      → p v ≡ true
      → Any (λ w. w ≡ v) (take_where p m).1
  unfolding lookup take_where
  take_where_takes k v [] h t = cc
  take_where_takes k v ((j, w) ∷ m) h t = ground (arith, take_where_takes k v m)
