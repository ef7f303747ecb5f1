-- ===== src/Parking/Session.antt =====
-- src/parking/ParkingOccupancySession.cpp: one stay of a vehicle. `none` stands for the exception.
use pi_server.Base.{
  ℕ, Bool, true, false, Option, none, some, Bytes, is_empty, ltb, if◌then◌else◌, ◌||◌,
}

pub data SessionPhase : Type 0 where
  active completed : SessionPhase

pub record OccupancySession : Type 0 where
  pub session_id : Bytes
  pub slot_id : Bytes
  pub sensor_id : Bytes
  pub phase : SessionPhase
  pub started_at : ℕ
  pub started_at_monotonic : ℕ
  pub ended_at : Option ℕ

-- The constructor.
unfoldable pub open_session : Bytes → Bytes → Bytes → ℕ → ℕ → Option OccupancySession
open_session session_id slot_id sensor_id started_at started_at_monotonic =
    if is_empty session_id || (is_empty slot_id || is_empty sensor_id)
    then none
    else some (record {
      session_id = session_id;
      slot_id = slot_id;
      sensor_id = sensor_id;
      phase = active;
      started_at = started_at;
      started_at_monotonic = started_at_monotonic;
      ended_at = none;
    })

abbrev pub is_active : OccupancySession → Bool
is_active s = elim (s.phase) [ active ↦ true | completed ↦ false ]

unfoldable pub complete : OccupancySession → ℕ → Option OccupancySession
complete s ended_at =
    if is_active s
    then (if ltb ended_at s.started_at
        then none
        else some (record s { ended_at = some ended_at; phase = completed }))
    else none
