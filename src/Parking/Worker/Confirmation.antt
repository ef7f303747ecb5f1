-- ===== src/Parking/Worker/Confirmation.antt =====
-- With a gate, a session starts only after its OCCUPIED has lasted.
use pi_server.Base.{◌≡◌, Option, none, some, bytes_eq}
use pi_server.Parking.SequenceGuard.{SequenceGuard}
use pi_server.Parking.Gate.{Gate}
use pi_server.Parking.Slots.{session_started, TransitionResult}
use pi_server.Parking.Worker.{Worker}

-- What the worker's answer says when it reports the start of a session.
abbrev pub Reports :
    {S : Type 0} → Option (Worker S × (S × Option TransitionResult)) → Type 0 → Type 0
Reports none P = Unit
Reports (some (w, (s, none))) P = Unit
Reports (some (w, (s, some r))) P = r.code ≡ session_started → P
