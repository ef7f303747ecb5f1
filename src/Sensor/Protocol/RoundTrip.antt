-- ===== src/Sensor/Protocol/RoundTrip.antt =====
-- A line written as the protocol says is read back as the message that it was written from.
use pi_server.Base.{
  bytes_beq, All-mono, All-append, ℕ, zero, suc, ◌+◌, ◌-◌, ◌*◌, ◌/◌, ◌%◌, ◌^◌, ◌<◌, ◌≡◌, refl, ap,
  ◌∙◌, true, false, inl, inr, none, some, [], ◌∷◌, ◌++◌, arith, All, Bytes, text, bytes_eq, nat_beq,
  is_empty, ltb, Bool-cases, to_string, digits_from, to_string_nonempty, to_string-IsDigit, IsDigit,
}
use mathlib.Core.List.{append-nil, append_assoc}
use pi_server.Sensor.Sequence.{boot_epoch_v2}
use pi_server.Parking.Event.{SensorState, occupied, vacant}
use pi_server.Sensor.Protocol.{
  ok, is_space, is_digit, trim_left, trim_right, trim, upper, split_from, split, parse_unsigned_64,
  number, apply_versioned_tail, optional_epoch,
}
use pi_server.Sensor.Protocol.Numbers.{decimal_from, decimal, fits_64, parse_unsigned_64-decimal}
use pi_server.Sensor.Protocol.Messages.{sensor_state, apply_tail, parse_plain, parse_fields, parse}

-- No space and no colon.
abbrev pub IsPlain : ℕ → Type 0
IsPlain c = (is_space c ≡ false) × (nat_beq c b':' ≡ false)

abbrev IsSolid : ℕ → Type 0
IsSolid c = is_space c ≡ false

trim_left-IsSolid : (w : Bytes) → All IsSolid w → trim_left w ≡ w
unfolding trim_left
trim_left-IsSolid [] h = refl
trim_left-IsSolid (c ∷ cs) h = rw (h.0) refl

trim_right-IsSolid : (w : Bytes) → All IsSolid w → trim_right w ≡ w
unfolding trim_right
trim_right-IsSolid [] h = refl
trim_right-IsSolid (c ∷ []) h = rw (h.0) refl
trim_right-IsSolid (c ∷ d ∷ ds) h = rw (trim_right-IsSolid (d ∷ ds) h.1) refl

trim-IsSolid : (w : Bytes) → All IsSolid w → trim w ≡ w
unfolding trim
trim-IsSolid w h = rw (trim_left-IsSolid w h) (trim_right-IsSolid w h)

IsPlain-IsSolid : (w : Bytes) → All IsPlain w → All IsSolid w
IsPlain-IsSolid w h = All-mono IsPlain IsSolid w (λ c p. p.0) h

trim-IsPlain : (w : Bytes) → All IsPlain w → trim w ≡ w
trim-IsPlain w h = trim-IsSolid w (IsPlain-IsSolid w h)

split_from-append :
    (field w rest : Bytes)
    → All IsPlain w
    → split_from field (w ++ (b':' ∷ rest)) ≡ trim (field ++ w) ∷ split_from [] rest
unfolding split_from
split_from-append field [] rest h = rw append-nil refl
split_from-append field (c ∷ cs) rest h =
    rw (h.0.1) (split_from-append (field ++ c ∷ []) cs rest h.1 ∙ rw append_assoc refl)

split_from-last :
    (field w : Bytes)
    → All IsPlain w
    → is_empty (field ++ w) ≡ false
    → split_from field w ≡ trim (field ++ w) ∷ []
unfolding split_from
split_from-last field [] h e =
    let e' : is_empty field ≡ false = rw append-nil at e in rw append-nil (rw e' refl)
split_from-last field (c ∷ cs) h e =
    rw (h.0.1) (split_from-last (field ++ c ∷ []) cs h.1 (rw append_assoc e) ∙ rw append_assoc refl)

decimal_from-digit :
    (v d : ℕ) (acc : Bytes)
    → d < 10
    → decimal_from v ((0x30 + d) ∷ acc) ≡ decimal_from (v * 10 + d) acc
unfolding decimal_from
decimal_from-digit v d acc h =
    let digit : is_digit (0x30 + d) ≡ true = ground arith in
    let value : v * 10 + (0x30 + d - b'0') ≡ v * 10 + d = omega arith in rw (digit, value) refl

decimal_from-digits_from :
    (fuel n : ℕ) (acc : Bytes)
    → n < fuel
    → decimal_from 0 (digits_from fuel n acc) ≡ decimal_from n acc
unfolding digits_from
decimal_from-digits_from zero n acc h = absurd (omega arith)
decimal_from-digits_from (suc fuel) n acc h = elim (Bool-cases (ltb n 10)) [
  | inl t ↦
      rw (t, digits_from)
        (decimal_from-digit 0 (n % 10) acc (omega arith)
          ∙ ap (λ v. decimal_from v acc) (ground arith))
  | inr t ↦
      rw (t, digits_from)
        (decimal_from-digits_from fuel (n / 10) ((0x30 + n % 10) ∷ acc) (ground arith)
          ∙ decimal_from-digit (n / 10) (n % 10) acc (omega arith)
          ∙ ap (λ v. decimal_from v acc) (omega arith))
]

pub decimal-to_string : (n : ℕ) → decimal (to_string n) ≡ some n
unfolding decimal to_string decimal_from
decimal-to_string n =
    rw (to_string_nonempty n) (decimal_from-digits_from (suc n) n [] (omega arith))

parse_unsigned_64-to_string : (n : ℕ) → n < 2 ^ 64 → parse_unsigned_64 (to_string n) ≡ some n
parse_unsigned_64-to_string n h =
    parse_unsigned_64-decimal (to_string n) ∙ ap fits_64 (decimal-to_string n) ∙ ground arith

digits-IsPlain : (w : Bytes) → All IsDigit w → All IsPlain w
digits-IsPlain [] h = tt
digits-IsPlain (c ∷ cs) h = ((ground arith, ground arith), digits-IsPlain cs h.1)

abbrev pub state_word : SensorState → Bytes
state_word occupied = text "OCCUPIED"
state_word vacant = text "VACANT"

-- SENSOR2:<sensor_id>:<state>:<boot_id>:<sequence>
unfoldable pub line_of : Bytes → SensorState → Bytes → ℕ → Bytes
line_of id st boot n =
    text "SENSOR2"
    ++ (b':' ∷ (id ++ (b':' ∷ (state_word st ++ (b':' ∷ (boot ++ (b':' ∷ to_string n)))))))

state_word-IsPlain : (st : SensorState) → All IsPlain (state_word st)
state_word-IsPlain occupied = ground arith
state_word-IsPlain vacant = ground arith

split_from-field :
    (w rest : Bytes) → All IsPlain w → split_from [] (w ++ (b':' ∷ rest)) ≡ w ∷ split_from [] rest
split_from-field w rest h =
    split_from-append [] w rest h ∙ ap (λ x. x ∷ split_from [] rest) (trim-IsPlain w h)

split_from-end : (w : Bytes) → All IsPlain w → is_empty w ≡ false → split_from [] w ≡ w ∷ []
split_from-end w h e = split_from-last [] w h e ∙ ap (λ x. x ∷ []) (trim-IsPlain w h)

kind-IsPlain : All IsPlain (text "SENSOR2")
kind-IsPlain = ground arith

append_field :
    (w rest : Bytes) → All IsPlain w → All IsSolid rest → All IsSolid (w ++ (b':' ∷ rest))
append_field w rest h k = All-append IsSolid w (b':' ∷ rest) (IsPlain-IsSolid w h) (refl, k)

module _ (id : Bytes) (st : SensorState) (boot : Bytes) (n : ℕ) (id_plain : All IsPlain id)
    (boot_plain : All IsPlain boot) where
  split-line_of :
      split (line_of id st boot n) ≡ text "SENSOR2" ∷ id ∷ state_word st ∷ boot ∷ to_string n ∷ []
  unfolding split line_of
  split-line_of =
      let digits = digits-IsPlain (to_string n) (to_string-IsDigit n) in
      split_from-field (text "SENSOR2") _ kind-IsPlain
      ∙ ap (◌∷◌ (text "SENSOR2")) (
          split_from-field id _ id_plain
          ∙ ap (◌∷◌ id) (
              split_from-field (state_word st) _ (state_word-IsPlain st)
              ∙ ap (◌∷◌ (state_word st)) (
                  split_from-field boot _ boot_plain
                  ∙ ap (◌∷◌ boot) (split_from-end (to_string n) digits (to_string_nonempty n)))))

  trim-line_of : trim (line_of id st boot n) ≡ line_of id st boot n
  unfolding line_of
  trim-line_of =
      let digits = digits-IsPlain (to_string n) (to_string-IsDigit n) in
      trim-IsSolid _ (
        append_field (text "SENSOR2") _ kind-IsPlain (
          append_field id _ id_plain (
            append_field (state_word st) _ (state_word-IsPlain st)
              (append_field boot _ boot_plain (IsPlain-IsSolid (to_string n) digits)))))

parse_fields-words :
    (id : Bytes) (st : SensorState) (boot : Bytes) (n at : ℕ)
    → is_empty id ≡ false
    → is_empty boot ≡ false
    → n < 2 ^ 64
    → parse_fields (text "SENSOR2" ∷ id ∷ state_word st ∷ boot ∷ to_string n ∷ []) at
      ≡ ok (record {
        sensor_id = id;
        state = st;
        occurred_at = at;
        sequence = some n;
        protocol_version = boot_epoch_v2;
        boot_id = some boot;
        node = none;
      })
unfolding parse_fields parse_plain apply_tail apply_versioned_tail optional_epoch number
    sensor_state upper bytes_beq
parse_fields-words id occupied boot n at e f h =
    rw (e, f, parse_unsigned_64-to_string n h, number) refl
parse_fields-words id vacant boot n at e f h =
    rw (e, f, parse_unsigned_64-to_string n h, number) refl

-- What the sensor of the boot epoch protocol sends, with a sensor ID and a boot ID of any visible
-- characters but colons and a sequence of 64 bits, is read back as the message.
pub parse-line_of :
    (id : Bytes) (st : SensorState) (boot : Bytes) (n at : ℕ)
    → All IsPlain id
    → is_empty id ≡ false
    → All IsPlain boot
    → is_empty boot ≡ false
    → n < 2 ^ 64
    → parse (line_of id st boot n) at
      ≡ ok (record {
        sensor_id = id;
        state = st;
        occurred_at = at;
        sequence = some n;
        protocol_version = boot_epoch_v2;
        boot_id = some boot;
        node = none;
      })
unfolding parse
parse-line_of id st boot n at p e q f h =
    let there : is_empty (line_of id st boot n) ≡ false = unfold line_of in refl in
    rw (trim-line_of id st boot n p q, there, split-line_of id st boot n p q)
      (parse_fields-words id st boot n at e f h)
