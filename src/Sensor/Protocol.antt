-- ===== src/Sensor/Protocol.antt =====
-- src/sensor/SensorProtocolParser.cpp: the text lines of the sensors. An error is a constructor in
-- place of its text. `std::from_chars` of a double is the parameter `parse_double`, into a type `D`.
pub mod Numbers
pub mod Messages
pub mod WellFormed
pub mod RoundTrip
use pi_server.Base.{
  ℕ, ◌+◌, ◌-◌, ◌*◌, ◌/◌, ◌%◌, ◌^◌, ◌≤◌, Bool, true, false, not, ◌&&◌, ◌||◌, Option, none, some,
  List, [], ◌∷◌, ◌++◌, map, Bytes, text, bytes_eq, ◌==◌, nat_beq, is_empty, length, get_or, ltb,
  leb, if◌then◌else◌,
}
use pi_server.Sensor.Sequence.{ProtocolVersion, legacy_v1, boot_epoch_v2}
use pi_server.Parking.Event.{SensorState, occupied, vacant}

pub data ParseError : Type 0 where
  message_empty unsupported_type bad_field_count id_empty bad_state : ParseError
  bad_sequence boot_id_empty bad_timestamp timestamp_out_of_range bad_energy : ParseError

pub data Parsed {ℓ} (A : Type ℓ) : Type ℓ where
  ok : A → Parsed A
  err : ParseError → Parsed A

infixl 5 ◌>>=◌
abbrev pub ◌>>=◌ {ℓ κ} : {A : Type ℓ} {B : Type κ} → Parsed A → (A → Parsed B) → Parsed B
ok a >>= f = f a
err e >>= f = err e

-- `std::isspace`, `std::isdigit` and `std::toupper` of the C locale.
abbrev pub is_space : ℕ → Bool
is_space c = nat_beq c b' ' || (leb 9 c && leb c 13)

abbrev pub is_digit : ℕ → Bool
is_digit c = leb b'0' c && leb c b'9'

abbrev pub to_upper : ℕ → ℕ
to_upper c = if leb b'a' c && leb c b'z' then c - 32 else c

unfoldable pub trim_left : Bytes → Bytes
trim_left [] = []
trim_left (c ∷ cs) = if is_space c then trim_left cs else c ∷ cs

-- A space is kept only if something that is no space follows.
abbrev pub before_spaces : ℕ → Bytes → Bytes
before_spaces c [] = if is_space c then [] else c ∷ []
before_spaces c (d ∷ ds) = c ∷ d ∷ ds

unfoldable pub trim_right : Bytes → Bytes
trim_right [] = []
trim_right (c ∷ cs) = before_spaces c (trim_right cs)

unfoldable pub trim : Bytes → Bytes
trim value = trim_right (trim_left value)

unfoldable pub upper : Bytes → Bytes
upper value = map to_upper value

-- `std::getline` with ':' in a loop, on what is read of the field: a last field is there only if it
-- has a character.
unfoldable pub split_from : Bytes → Bytes → List Bytes
split_from field [] = if is_empty field then [] else trim field ∷ []
split_from field (c ∷ cs) =
    let next = split_from [] cs in
    let more = split_from (field ++ (c ∷ [])) cs in
    if nat_beq c b':' then trim field ∷ next else more

unfoldable pub split : Bytes → List Bytes
split value = split_from [] value

abbrev pub max_u64 : ℕ
max_u64 = 2 ^ 64 - 1

unfoldable pub digits : ℕ → Bytes → Option ℕ
digits value [] = some value
digits value (c ∷ cs) =
    let digit = c - b'0' in
    let rest = digits (value * 10 + digit) cs in
    if not (is_digit c) then none else if ltb ((max_u64 - digit) / 10) value then none else rest

unfoldable pub parse_unsigned_64 : Bytes → Option ℕ
parse_unsigned_64 t = if is_empty t then none else digits 0 t

unfoldable pub is_lora_node_id : Bytes → Bool
is_lora_node_id field =
    let candidate = upper field in candidate == text "STM1" || candidate == text "STM2"

pub record Tail : Type 0 where
  pub tail_boot_id : Option Bytes
  pub tail_sequence : Option ℕ
  pub tail_occurred_at : ℕ

abbrev pub or_error {ℓ} : {A : Type ℓ} → Option A → ParseError → Parsed A
or_error none e = err e
or_error (some a) e = ok a

unfoldable pub number : Bytes → ParseError → Parsed ℕ
number t e = or_error (parse_unsigned_64 t) e

-- A time counts nanoseconds in 64 bits: the conversion from milliseconds multiplies.
unfoldable pub epoch_time : Bytes → Parsed ℕ
epoch_time t = do
  ms ← number t bad_timestamp
  if ltb (2 ^ 63 - 1) ms then err timestamp_out_of_range else ok (ms * 1000000 % 2 ^ 64)

unfoldable pub optional_sequence : Bool → Bytes → Parsed (Option ℕ)
optional_sequence false t = ok none
optional_sequence true t = do n ← number t bad_sequence; ok (some n)

unfoldable pub optional_epoch : Bool → Bytes → ℕ → Parsed ℕ
optional_epoch false t received_at = ok received_at
optional_epoch true t received_at = epoch_time t

unfoldable pub apply_optional_tail : List Bytes → ℕ → Parsed Tail
apply_optional_tail fields received_at = do
  n ← optional_sequence (leb 4 (length fields)) (get_or fields 3 [])
  t ← optional_epoch (nat_beq (length fields) 5) (get_or fields 4 []) received_at
  ok (record { tail_boot_id = none; tail_sequence = n; tail_occurred_at = t })

unfoldable pub apply_versioned_tail : List Bytes → ℕ → Parsed Tail
apply_versioned_tail fields received_at =
    if not (nat_beq (length fields) 5) && not (nat_beq (length fields) 6)
    then err bad_field_count
    else if is_empty (get_or fields 3 [])
    then err boot_id_empty
    else do
      n ← number (get_or fields 4 []) bad_sequence
      t ← optional_epoch (nat_beq (length fields) 6) (get_or fields 5 []) received_at
      ok (record {
        tail_boot_id = some (get_or fields 3 []);
        tail_sequence = some n;
        tail_occurred_at = t;
      })
