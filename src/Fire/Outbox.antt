-- ===== src/Fire/Outbox.antt =====
-- The outbox rows and the mutations of include/event/FirePersistence.hpp.
use pi_server.Base.{ℕ, Bool, true, false, Option, Bytes}
use pi_server.Fire.State.{AlarmState}

pub data SinkKind : Type 0 where
  retained_state lifecycle_event : SinkKind

pub data DeliveryState : Type 0 where
  pending in_flight acked : DeliveryState

pub record Delivery : Type 0 where
  pub delivery_key : Bytes
  pub sink_kind : SinkKind
  pub logical_key : Bytes
  pub row_sensor : Bytes
  pub row_channel : Bytes
  pub event_id : Bytes
  pub alarm_id : Bytes
  pub row_revision : ℕ
  pub topic : Bytes
  pub payload_json : Bytes
  pub qos : ℕ
  pub retain : Bool
  pub attempt_count : ℕ
  pub next_attempt_at : Bytes
  pub last_error : Bytes
  pub delivery_state : DeliveryState
  pub acknowledged_revision : Option ℕ
  pub created_at : Bytes
  pub row_updated_at : Bytes

pub data Outcome : Type 0 where
  committed idempotent conflict invalid failed : Outcome

pub record MutationResult : Type 0 where
  pub outcome : Outcome
  pub result_revision : ℕ

abbrev pub is_committed : Outcome → Bool
is_committed committed = true
is_committed idempotent = true
is_committed _ = false

pub record Mutation : Type 0 where
  pub expected_revision : ℕ
  pub next_state : AlarmState
  pub retained_delivery : Option Delivery
  pub lifecycle_delivery : Option Delivery

abbrev pub same_sink : SinkKind → SinkKind → Bool
same_sink retained_state retained_state = true
same_sink lifecycle_event lifecycle_event = true
same_sink _ _ = false

abbrev pub is_retained : SinkKind → Bool
is_retained retained_state = true
is_retained lifecycle_event = false
