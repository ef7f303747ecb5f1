-- ===== src/Sensor/Protocol/WellFormed.antt =====
-- What a message that was parsed holds, and what the sequence policy makes of it.
use pi_server.Base.{
  ℕ, ◌<◌, ◌^◌, ◌≡◌, refl, subst, Bool, true, false, not, ◌&&◌, inl, inr, Option, none, some, List,
  [], arith, Bytes, text, bytes_eq, ◌==◌, nat_beq, is_empty, length, get_or, leb, Bool-cases,
  Option-cases,
}
use pi_server.Sensor.Sequence.{
  ProtocolVersion, legacy_v1, boot_epoch_v2, Fact, initial, evaluate_sensor_sequence, accept,
  member,
}
use pi_server.Sensor.Protocol.{
  Parsed, ok, err, ◌>>=◌, ParseError, parse_unsigned_64, number, bad_sequence, optional_sequence,
  optional_epoch, Tail, apply_optional_tail, apply_versioned_tail, trim, upper, split,
}
use pi_server.Sensor.Protocol.Numbers.{parse_unsigned_64-lt}
use pi_server.Sensor.Protocol.Messages.{
  SensorMessage, sensor_state, fits, version_of, apply_tail, parse_node, parse_plain,
  is_node_prefixed, parse_fields, parse,
}

abbrev pub SmallNumber : Option ℕ → Type 0
SmallNumber none = Unit
SmallNumber (some n) = n < 2 ^ 64

-- The boot ID and the sequence that a protocol version wants.
abbrev pub Marked : ProtocolVersion → Option Bytes → Option ℕ → Type 0
Marked legacy_v1 boot n = (boot ≡ none) × SmallNumber n
Marked boot_epoch_v2 none n = ⊥
Marked boot_epoch_v2 (some b) none = ⊥
Marked boot_epoch_v2 (some b) (some n) = (is_empty b ≡ false) × (n < 2 ^ 64)

abbrev pub WellFormed : SensorMessage → Type 0
WellFormed m = (is_empty m.sensor_id ≡ false) × Marked m.protocol_version m.boot_id m.sequence

-- A property of what is parsed, if it is.
abbrev pub Ensures {ℓ} : {A : Type ℓ} → (A → Type 0) → Parsed A → Type 0
Ensures P (ok a) = P a
Ensures P (err e) = Unit

pub bind-Ensures {ℓ κ} :
    {A : Type ℓ} {B : Type κ} (P : A → Type 0) (Q : B → Type 0) (p : Parsed A) (f : A → Parsed B)
    → Ensures P p
    → ((a : A) → P a → Ensures Q (f a))
    → Ensures Q (p >>= f)
bind-Ensures P Q (ok a) f h k = k a h
bind-Ensures P Q (err e) f h k = tt

anything {ℓ} : {A : Type ℓ} (p : Parsed A) → Ensures (λ a. Unit) p
anything (ok a) = tt
anything (err e) = tt

number-Ensures : (t : Bytes) (e : ParseError) → Ensures (λ n. n < 2 ^ 64) (number t e)
unfolding number
number-Ensures t e = elim (Option-cases (parse_unsigned_64 t)) [
  | inl h ↦ rw (h, number) tt
  | inr (n, h) ↦ rw (h, number) (parse_unsigned_64-lt t n h)
]

optional_sequence-Ensures : (b : Bool) (t : Bytes) → Ensures SmallNumber (optional_sequence b t)
unfolding optional_sequence
optional_sequence-Ensures false t = tt
optional_sequence-Ensures true t =
    bind-Ensures (λ n. n < 2 ^ 64) SmallNumber (number t bad_sequence) (λ n. ok (some n))
      (number-Ensures t bad_sequence) (λ n h. h)

abbrev TailFor : Bool → Tail → Type 0
TailFor versioned t = Marked (version_of versioned) t.tail_boot_id t.tail_sequence

apply_tail-Ensures :
    (versioned : Bool) (fields : List Bytes) (at : ℕ)
    → Ensures (TailFor versioned) (apply_tail versioned fields at)
unfolding apply_tail apply_optional_tail apply_versioned_tail
apply_tail-Ensures false fields at =
    bind-Ensures SmallNumber (TailFor false)
      (optional_sequence (leb 4 (length fields)) (get_or fields 3 [])) _
      (optional_sequence-Ensures (leb 4 (length fields)) (get_or fields 3 []))
      (λ n h.
        bind-Ensures (λ t. Unit) (TailFor false)
          (optional_epoch (nat_beq (length fields) 5) (get_or fields 4 []) at) _
          (anything (optional_epoch (nat_beq (length fields) 5) (get_or fields 4 []) at))
          (λ t u. (refl, h)))
apply_tail-Ensures true fields at =
    elim (Bool-cases (not (nat_beq (length fields) 5) && not (nat_beq (length fields) 6))) [
      | inl wrong ↦ rw wrong tt
      | inr right ↦ elim (Bool-cases (is_empty (get_or fields 3 []))) [
        | inl none_there ↦ rw (right, none_there) tt
        | inr there ↦
            rw (right, there)
              (bind-Ensures (λ n. n < 2 ^ 64) (TailFor true)
                (number (get_or fields 4 []) bad_sequence) _
                (number-Ensures (get_or fields 4 []) bad_sequence)
                (λ n h.
                  bind-Ensures (λ t. Unit) (TailFor true)
                    (optional_epoch (nat_beq (length fields) 6) (get_or fields 5 []) at) _
                    (anything (optional_epoch (nat_beq (length fields) 6) (get_or fields 5 []) at))
                    (λ t u. (there, h))))
      ]
    ]

parse_node-Ensures : (fields : List Bytes) (at : ℕ) → Ensures WellFormed (parse_node fields at)
unfolding parse_node
parse_node-Ensures fields at = elim (Bool-cases (not (nat_beq (length fields) 5))) [
  | inl wrong ↦ rw wrong tt
  | inr right ↦ elim (Bool-cases (is_empty (get_or fields 2 []))) [
    | inl none_there ↦ rw (right, none_there) tt
    | inr there ↦
        rw (right, there)
          (bind-Ensures (λ s. Unit) WellFormed (sensor_state (upper (get_or fields 3 []))) _
            (anything (sensor_state (upper (get_or fields 3 []))))
            (λ s u.
              bind-Ensures (λ n. n < 2 ^ 64) WellFormed (number (get_or fields 4 []) bad_sequence) _
                (number-Ensures (get_or fields 4 []) bad_sequence) (λ n h. (there, (refl, h)))))
  ]
]

parse_plain-Ensures :
    (versioned : Bool) (fields : List Bytes) (at : ℕ)
    → Ensures WellFormed (parse_plain versioned fields at)
unfolding parse_plain
parse_plain-Ensures versioned fields at = elim (Bool-cases (not (fits versioned (length fields)))) [
  | inl wrong ↦ rw wrong tt
  | inr right ↦ elim (Bool-cases (is_empty (get_or fields 1 []))) [
    | inl none_there ↦ rw (right, none_there) tt
    | inr there ↦
        rw (right, there)
          (bind-Ensures (λ s. Unit) WellFormed (sensor_state (upper (get_or fields 2 []))) _
            (anything (sensor_state (upper (get_or fields 2 []))))
            (λ s u.
              bind-Ensures (TailFor versioned) WellFormed (apply_tail versioned fields at) _
                (apply_tail-Ensures versioned fields at) (λ t h. (there, h))))
  ]
]

parse_fields-Ensures : (fields : List Bytes) (at : ℕ) → Ensures WellFormed (parse_fields fields at)
unfolding parse_fields
parse_fields-Ensures fields at =
    let kind = upper (get_or fields 0 []) in
    let versioned = kind == text "SENSOR2" in
    elim (Bool-cases (is_empty fields)) [
      | inl t ↦ rw t tt
      | inr t ↦ elim (Bool-cases (not (kind == text "SENSOR") && not versioned)) [
        | inl u ↦ rw (t, u) tt
        | inr u ↦ elim (Bool-cases (is_node_prefixed versioned fields)) [
          | inl z ↦ rw (t, u, z) (parse_node-Ensures fields at)
          | inr z ↦ rw (t, u, z) (parse_plain-Ensures versioned fields at)
        ]
      ]
    ]

parse-Ensures : (line : Bytes) (at : ℕ) → Ensures WellFormed (parse line at)
unfolding parse
parse-Ensures line at = elim (Bool-cases (is_empty (trim line))) [
  | inl t ↦ rw t tt
  | inr t ↦ rw t (parse_fields-Ensures (split (trim line)) at)
]

-- A message that is parsed names its sensor; its sequence fits 64 bits; and it has a boot ID and a
-- sequence if it is of the boot epoch protocol, no boot ID otherwise.
pub parse-WellFormed :
    (line : Bytes) (at : ℕ) (m : SensorMessage) → parse line at ≡ ok m → WellFormed m
parse-WellFormed line at m h = subst (Ensures WellFormed) h (parse-Ensures line at)

abbrev pub fact_of_message : SensorMessage → Fact
fact_of_message m = record {
  protocol_version = m.protocol_version;
  boot_id = m.boot_id;
  sequence = m.sequence;
}

first_fact :
    (v : ProtocolVersion) (b : Option Bytes) (n : Option ℕ)
    → Marked v b n
    → evaluate_sensor_sequence initial (record { protocol_version = v; boot_id = b; sequence = n })
      ≡ accept
unfolding evaluate_sensor_sequence member
first_fact legacy_v1 b n h = ground arith
first_fact boot_epoch_v2 none n h = absurd h
first_fact boot_epoch_v2 (some b) none h = absurd h
first_fact boot_epoch_v2 (some b) (some n) h = rw (h.0) refl

-- The first message of a sensor that is parsed is accepted by the sequence policy.
pub evaluate_sensor_sequence-parse :
    (line : Bytes) (at : ℕ) (m : SensorMessage)
    → parse line at ≡ ok m
    → evaluate_sensor_sequence initial (fact_of_message m) ≡ accept
evaluate_sensor_sequence-parse line at m h =
    first_fact m.protocol_version m.boot_id m.sequence (parse-WellFormed line at m h).1
