-- ===== src/Fire/Consistent.antt =====
-- What the texts, the rows and the bindings of a consistent store are.
use pi_server.Base.{
  Map, Bool, ℕ, ◌<◌, true, false, Option, none, some, [], ◌∷◌, ◌++◌, Bytes, bytes_eq, is_empty, ltb,
  ◌≡◌, refl, inl, inr, Bool-cases, arith, lookup, eq_refl,
}
use pi_server.Sensor.Sequence.{ProtocolVersion, legacy_v1, boot_epoch_v2}
use pi_server.Fire.State.{
  Lifecycle, Signal, AlarmState, FireMode, fire_unseen, same_mode, max_fire_revision,
}
use pi_server.Fire.Outbox.{Delivery, retained_state, same_sink}
use pi_server.Fire.Checks.{same_bool, same_boot, same_number}
use pi_server.Fire.Store.{Store, retired_of, is_sensor_boot_id_retired, version_of}
use pi_server.Fire.Service.{
  Binding, Texts, join_topic, ends_with_slash, fire_event_id, retained_delivery_id,
  lifecycle_delivery_id, protocol_for,
}
use pi_server.Fire.Signals.{disagrees_by, retired_by}
use pi_server.Fire.Alarms.{Kept}

-- The texts that go into the database are not empty.
pub record Written (t : Texts) : Type 0 where
  pub signals : (signal : Signal) → is_empty (t.serialize_signal signal) ≡ false
  pub payloads :
      (camera channel : Bytes) (signal : Signal) (l : Lifecycle) (event alarm : Bytes) (n : ℕ)
      (delivery : Bytes)
      → is_empty (t.build_fire_json camera channel signal l event alarm n delivery) ≡ false
  pub times : (n : ℕ) → is_empty (t.iso_string n) ≡ false

-- A channel's state: its texts are not empty, its revision fits, its alarm is named while it is raised, its
-- retained delivery is in the outbox, and no life cycle event of a later revision is.
pub record Rowed (outbox : Map Bytes Delivery) (channel : Bytes) (a : AlarmState) : Type 0 where
  pub own : Kept channel a
  pub channel_named : is_empty channel ≡ false
  pub sensor_named : is_empty a.sensor_id ≡ false
  pub topic_named : is_empty a.retained_topic ≡ false
  pub event_named : is_empty a.last_event_id ≡ false
  pub signal_named : is_empty a.last_signal_json ≡ false
  pub update_named : is_empty a.updated_at ≡ false
  pub fits : ltb max_fire_revision a.fire_revision ≡ false
  pub retained :
      (row : Delivery) × (lookup (retained_delivery_id channel) outbox ≡ some row)
      × (same_sink row.sink_kind retained_state ≡ true)
      × (row.row_channel ≡ channel)
      × (row.logical_key ≡ a.retained_topic)
  pub unsent :
      (n : ℕ)
      → a.fire_revision < n
      → lookup (lifecycle_delivery_id (fire_event_id channel n)) outbox ≡ none

-- A binding names the sensor and the topic of its channel, as `initialize` tests.
abbrev pub Bound : Store → Binding → Type 0
Bound s b =
    (a : AlarmState)
    → lookup b.bound_channel s.states ≡ some a
    → (a.sensor_id ≡ b.bound_sensor) × (a.retained_topic ≡ b.bound_topic)

pub is_empty-append : (xs ys : Bytes) → is_empty ys ≡ false → is_empty (xs ++ ys) ≡ false
is_empty-append [] ys h = h
is_empty-append (x ∷ xs) ys h = refl

pub is_empty-join_topic :
    (prefix suffix : Bytes) → is_empty suffix ≡ false → is_empty (join_topic prefix suffix) ≡ false
unfolding join_topic
is_empty-join_topic prefix suffix h = elim (Bool-cases (is_empty prefix)) [
  | inl t1 ↦ rw t1 h
  | inr t1 ↦ elim (Bool-cases (ends_with_slash prefix)) [
    | inl t2 ↦ rw (t1, t2) (is_empty-append prefix suffix h)
    | inr t2 ↦ rw (t1, t2) (is_empty-append prefix (b'/' ∷ suffix) refl)
  ]
]

pub same_mode_refl : (m : FireMode) → same_mode m m ≡ true
same_mode_refl FireMode.fire_unseen = refl
same_mode_refl FireMode.fire_legacy = refl
same_mode_refl FireMode.fire_versioned = refl

pub same_boot_refl : (o : Option Bytes) → same_boot o o ≡ true
same_boot_refl none = refl
same_boot_refl (some b) = eq_refl b

pub same_number_refl : (o : Option ℕ) → same_number o o ≡ true
same_number_refl none = refl
same_number_refl (some n) = ground arith

-- The database asks the policy what the service has asked.
pub fact_version : (v : ProtocolVersion) → version_of (protocol_for v) ≡ v
fact_version legacy_v1 = refl
fact_version boot_epoch_v2 = refl

pub mode_seen : (v : ProtocolVersion) → same_mode (protocol_for v) fire_unseen ≡ false
mode_seen legacy_v1 = refl
mode_seen boot_epoch_v2 = refl

pub retired_agrees :
    (s : Store) (sensor : Bytes) (v : ProtocolVersion) (boot : Option Bytes) (sequence : Option ℕ)
    → s.opened ≡ true
    → is_empty sensor ≡ false
    → disagrees_by v boot sequence ≡ false
    → retired_by s sensor v boot ≡ retired_of s.retired_boots sensor boot
unfolding is_sensor_boot_id_retired
retired_agrees s sensor legacy_v1 none n o h d = refl
retired_agrees s sensor legacy_v1 (some boot) n o h d = cc
retired_agrees s sensor boot_epoch_v2 none n o h d = refl
retired_agrees s sensor boot_epoch_v2 (some boot) n o h d =
    let named_boot : is_empty boot ≡ false = ground arith in ground (arith, o, h, named_boot)

pub same_bool_refl : (b : Bool) → same_bool b b ≡ true
same_bool_refl true = refl
same_bool_refl false = refl
