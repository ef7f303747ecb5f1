-- ===== src/Sensor/Protocol/Numbers.antt =====
-- The numbers of a line: what is taken is the decimal value, exactly if it fits 64 bits.
use pi_server.Base.{
  ◌∙◌, sym, ℕ, ◌+◌, ◌-◌, ◌*◌, ◌/◌, ◌^◌, ◌≤◌, ◌<◌, ◌≡◌, refl, inl, inr, Option, none, some, [], ◌∷◌,
  arith, Bytes, is_empty, unless, ltb, Bool-cases, if◌then◌else◌,
}
use pi_server.Sensor.Protocol.{is_digit, max_u64, digits, parse_unsigned_64}

-- The decimal value of a text, of any size.
unfoldable pub decimal_from : ℕ → Bytes → Option ℕ
decimal_from value [] = some value
decimal_from value (c ∷ cs) =
    let rest = decimal_from (value * 10 + (c - b'0')) cs in if is_digit c then rest else none

unfoldable pub decimal : Bytes → Option ℕ
decimal t = if is_empty t then none else decimal_from 0 t

abbrev pub fits_64 : Option ℕ → Option ℕ
fits_64 o = unless (λ n. ltb max_u64 n) o

-- A value that is out of range stays so.
decimal_from_over :
    (value : ℕ) (cs : Bytes) → max_u64 < value → fits_64 (decimal_from value cs) ≡ none
unfolding decimal_from
decimal_from_over value [] h = ground arith
decimal_from_over value (c ∷ cs) h = elim (Bool-cases (is_digit c)) [
  | inl t ↦ rw t (decimal_from_over (value * 10 + (c - b'0')) cs (omega arith))
  | inr t ↦ rw t refl
]

digits-decimal_from :
    (value : ℕ) (cs : Bytes) → value ≤ max_u64 → digits value cs ≡ fits_64 (decimal_from value cs)
unfolding digits decimal_from
digits-decimal_from value [] h = ground arith
digits-decimal_from value (c ∷ cs) h = elim (Bool-cases (is_digit c)) [
  | inr t ↦ rw t refl
  | inl t ↦ elim (Bool-cases (ltb ((max_u64 - (c - b'0')) / 10) value)) [
    | inl over ↦ rw (t, over) (sym (decimal_from_over (value * 10 + (c - b'0')) cs (ground arith)))
    | inr within ↦ rw (t, within) (digits-decimal_from (value * 10 + (c - b'0')) cs (ground arith))
  ]
]

-- `parseUnsigned64` takes a text exactly if it is a non-empty decimal number below 2^64, and gives
-- its value.
pub parse_unsigned_64-decimal : (t : Bytes) → parse_unsigned_64 t ≡ fits_64 (decimal t)
unfolding parse_unsigned_64 decimal
parse_unsigned_64-decimal [] = refl
parse_unsigned_64-decimal (c ∷ cs) = digits-decimal_from 0 (c ∷ cs) (omega arith)

fits_64-lt : (o : Option ℕ) (n : ℕ) → fits_64 o ≡ some n → n < 2 ^ 64
fits_64-lt none n h = cc
fits_64-lt (some m) n h = ground arith

pub parse_unsigned_64-lt : (t : Bytes) (n : ℕ) → parse_unsigned_64 t ≡ some n → n < 2 ^ 64
parse_unsigned_64-lt t n h = fits_64-lt (decimal t) n (sym (parse_unsigned_64-decimal t) ∙ h)
