-- ===== src/Parking/Commands.antt =====
-- include/parking/SlotTransitionTypes.hpp and src/parking/SlotTransitionTypes.cpp: the commands of the
-- slot transition actor. The JSON library is a parameter; `none` stands for its exceptions.
use pi_server.Base.{
  ℕ, Bool, true, false, ◌&&◌, Option, none, some, Bytes, text, bytes_eq, ◌==◌, nat_beq,
  if◌then◌else◌, ℤ, int_eq,
}

pub data CommandKind : Type 0 where
  hall_observation camera_observation exit_deadline : CommandKind

pub data CommandStatus : Type 0 where
  pending_unprepared pending_prepared applied rejected_invalid : CommandStatus

pub record Command : Type 0 where
  pub command_id : Bytes
  pub kind : CommandKind
  pub slot_id : Bytes
  pub sensor_id : Bytes
  pub source_identity : Bytes
  pub source_sequence : Option ℕ
  pub occurred_at : Bytes
  pub payload_json : Bytes
  pub due_at_epoch_ms : ℤ

pub data AdmissionCode : Type 0 where
  admitted existing already_terminal rejected_stale conflict capacity_full : AdmissionCode
  retryable_failure : AdmissionCode

-- `SlotAdmissionResult::accepted`.
abbrev pub is_accepted : AdmissionCode → Bool
is_accepted admitted = true
is_accepted existing = true
is_accepted already_terminal = true
is_accepted _ = false

unfoldable pub kind_name : CommandKind → Bytes
kind_name hall_observation = text "HALL_OBSERVATION"
kind_name camera_observation = text "CAMERA_OBSERVATION"
kind_name exit_deadline = text "EXIT_DEADLINE"

unfoldable pub status_name : CommandStatus → Bytes
status_name pending_unprepared = text "PENDING_UNPREPARED"
status_name pending_prepared = text "PENDING_PREPARED"
status_name applied = text "APPLIED"
status_name rejected_invalid = text "REJECTED_INVALID"

unfoldable pub kind_from_string : Bytes → Option CommandKind
kind_from_string value =
    if value == text "HALL_OBSERVATION"
    then some hall_observation
    else if value == text "CAMERA_OBSERVATION"
    then some camera_observation
    else if value == text "EXIT_DEADLINE"
    then some exit_deadline
    else none

unfoldable pub status_from_string : Bytes → Option CommandStatus
status_from_string value =
    if value == text "PENDING_UNPREPARED"
    then some pending_unprepared
    else if value == text "PENDING_PREPARED"
    then some pending_prepared
    else if value == text "APPLIED"
    then some applied
    else if value == text "REJECTED_INVALID"
    then some rejected_invalid
    else none

-- What the comparison takes of the JSON library: `parse`, `erase` of a key, which throws on a value
-- that is no object, and `==`.
pub record JsonLibrary (J : Type 0) : Type 0 where
  pub parse : Bytes → Option J
  pub erase_key : Bytes → J → Option J
  pub equal : J → J → Bool

abbrev pub same_kind : CommandKind → CommandKind → Bool
same_kind hall_observation hall_observation = true
same_kind camera_observation camera_observation = true
same_kind exit_deadline exit_deadline = true
same_kind _ _ = false

abbrev pub same_sequence : Option ℕ → Option ℕ → Bool
same_sequence none none = true
same_sequence (some m) (some n) = nat_beq m n
same_sequence _ _ = false

abbrev pub and_then : {J : Type 0} → Option J → (J → Option J) → Option J
and_then none f = none
and_then (some j) f = f j

abbrev pub equal_if : {J : Type 0} → JsonLibrary J → Option J → Option J → Bool
equal_if lib (some a) (some b) = lib.equal a b
equal_if lib _ _ = false

abbrev pub volatile_key : CommandKind → Bytes
volatile_key hall_observation = text "occurred_at_epoch_ms"
volatile_key _ = text "deadline_due_at_epoch_ms"

abbrev pub erased : {J : Type 0} → JsonLibrary J → CommandKind → Bytes → Option J
erased lib kind payload = and_then (lib.parse payload) (lib.erase_key (volatile_key kind))

same_payload : {J : Type 0} → JsonLibrary J → CommandKind → Command → Command → Bool
same_payload lib hall_observation a b =
    equal_if lib (erased lib hall_observation a.payload_json)
      (erased lib hall_observation b.payload_json)
same_payload lib camera_observation a b =
    a.occurred_at == b.occurred_at
    && equal_if lib (erased lib camera_observation a.payload_json)
        (erased lib camera_observation b.payload_json)
same_payload lib exit_deadline a b =
    a.occurred_at == b.occurred_at
    && (a.due_at_epoch_ms == b.due_at_epoch_ms
        && equal_if lib (lib.parse a.payload_json) (lib.parse b.payload_json))

unfoldable pub same_slot_source_fact : {J : Type 0} → JsonLibrary J → Command → Command → Bool
unfolding same_payload
same_slot_source_fact lib a b =
    a.command_id == b.command_id
    && (same_kind a.kind b.kind
        && (a.slot_id == b.slot_id
            && (a.sensor_id == b.sensor_id
                && (a.source_identity == b.source_identity
                    && (same_sequence a.source_sequence b.source_sequence
                        && same_payload lib a.kind a b)))))
