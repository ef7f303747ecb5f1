-- ===== src/Entrance/Types.antt =====
-- include/entrance/EntranceTypes.hpp
use pi_server.Base.{
  ℕ, ◌≡◌, ◌↔◌, Bool, true, ◌&&◌, arith, Bytes, bytes_eq, bytes_beq_iff, Eq, ◌==◌, ℤ,
}

pub data BestShotKind : Type 0 where
  vehicle plate : BestShotKind

pub data ObjectState : Type 0 where
  ev_queued ev_processing ocr_queued ocr_processing finalizing : ObjectState
  completed failed duplicate : ObjectState

pub record ObjectKey : Type 0 where
  pub camera_id : Bytes
  pub channel_id : Bytes
  pub object_id : Bytes

pub record BestShotEvent : Type 0 where
  pub key : ObjectKey
  pub kind : BestShotKind
  pub image_ref : Bytes
  pub rtsp_url : Bytes
  pub received_at_epoch_ms : ℤ

pub data ObserveCode : Type 0 where
  queued ignored duplicate_suppressed invalid capacity_rejected : ObserveCode

pub record ObserveResult : Type 0 where
  pub code : ObserveCode
  pub result_key : ObjectKey
  pub result_state : ObjectState
  pub new_object : Bool
  pub duplicates : ℕ

pub record ExpiredObject : Type 0 where
  pub expired_key : ObjectKey
  pub expired_event_id : ℤ
  pub expired_duplicates : ℕ

-- The defaulted `operator==`.
unfoldable pub key_beq : ObjectKey → ObjectKey → Bool
key_beq a b =
    a.camera_id == b.camera_id && ((a.channel_id == b.channel_id) && (a.object_id == b.object_id))

pub key_beq_iff : (a b : ObjectKey) → (key_beq a b ≡ true) ↔ (a ≡ b)
unfolding key_beq
key_beq_iff a b = ground (
  arith,
  bytes_beq_iff a.camera_id b.camera_id,
  bytes_beq_iff a.channel_id b.channel_id,
  bytes_beq_iff a.object_id b.object_id,
)

instance abbrev pub key_eq : Eq ObjectKey
key_eq = record { same = key_beq; same_iff = key_beq_iff }
