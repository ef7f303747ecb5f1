-- ===== src/Base/Decimal.antt =====
-- Decimal printing.
use Prim.Native.Nat.{ℕ, zero, suc, ◌+◌, ◌/◌, ◌%◌, ◌<◌}
use mathlib.Core.Path.{◌≡◌, refl}
use mathlib.Core.Bool.{true, false}
use mathlib.Core.Logic.{inl, inr}
use mathlib.Core.List.{[], ◌∷◌}
use native.Mathlib.Omega.{arith}
use pi_server.Base.Tests.{ltb, Bool-cases}
use pi_server.Base.Lists.{All}
use pi_server.Base.Strings.{Bytes, is_empty}

-- `std::to_string` of an unsigned number; a number has no more digits than its value plus one.
unfoldable pub digits_from : ℕ → ℕ → Bytes → Bytes
digits_from zero n acc = acc
digits_from (suc fuel) n acc =
    let acc' = (0x30 + n % 10) ∷ acc in
    elim (ltb n 10) [ true ↦ acc' | false ↦ digits_from fuel (n / 10) acc' ]

unfoldable pub to_string : ℕ → Bytes
unfolding digits_from
to_string n = digits_from (suc n) n []

digits_from_nonempty :
    (fuel n x : ℕ) (acc : Bytes) → is_empty (digits_from fuel n (x ∷ acc)) ≡ false
unfolding digits_from
digits_from_nonempty zero n x acc = refl
digits_from_nonempty (suc fuel) n x acc =
    ground (arith, digits_from_nonempty fuel (n / 10) (0x30 + n % 10) (x ∷ acc))

pub to_string_nonempty : (n : ℕ) → is_empty (to_string n) ≡ false
unfolding to_string digits_from
to_string_nonempty n = ground (arith, digits_from_nonempty n (n / 10) (0x30 + n % 10) [])

-- Every character of a decimal is a digit.
abbrev pub IsDigit : ℕ → Type 0
IsDigit c = (0x30 < c + 1) × (c < 0x3A)

digits_from-IsDigit :
    (fuel n : ℕ) (acc : Bytes) → All IsDigit acc → All IsDigit (digits_from fuel n acc)
unfolding digits_from
digits_from-IsDigit zero n acc h = h
digits_from-IsDigit (suc fuel) n acc h =
    let more : All IsDigit ((0x30 + n % 10) ∷ acc) = ((omega arith, omega arith), h) in
    elim (Bool-cases (ltb n 10)) [
      | inl t ↦ rw (t, digits_from) more
      | inr t ↦ rw (t, digits_from) (digits_from-IsDigit fuel (n / 10) ((0x30 + n % 10) ∷ acc) more)
    ]

pub to_string-IsDigit : (n : ℕ) → All IsDigit (to_string n)
unfolding to_string
to_string-IsDigit n = digits_from-IsDigit (suc n) n [] tt
