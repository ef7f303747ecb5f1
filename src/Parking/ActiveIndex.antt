-- ===== src/Parking/ActiveIndex.antt =====
-- src/parking/ActiveParkingSessionIndex.cpp: the active session of each slot, as other parts read it.

use pi_server.Base.{
  ℕ, not, ◌&&◌, ◌||◌, Option, none, some, [], Bytes, bytes_eq, ◌==◌, is_empty, Map, lookup, insert,
  erase, length, if◌then◌else◌,
}
use pi_server.Parking.Slots.{TransitionCode, session_started, session_completed, TransitionResult}

abbrev pub ActiveIndex : Type 0
ActiveIndex = Map Bytes Bytes

unfoldable pub set_active : ActiveIndex → Bytes → Bytes → ActiveIndex
set_active ix slot_id session_id =
    if is_empty slot_id || is_empty session_id then ix else insert slot_id session_id ix

-- What `clearActive` does with the entry that it finds.
unfoldable pub clear_found : ActiveIndex → Bytes → Bytes → Option Bytes → ActiveIndex
clear_found ix slot_id expected none = ix
clear_found ix slot_id expected (some found) =
    if not (is_empty expected) && not (found == expected) then ix else erase slot_id ix

unfoldable pub clear_active : ActiveIndex → Bytes → Bytes → ActiveIndex
unfolding clear_found
clear_active ix slot_id expected = clear_found ix slot_id expected (lookup slot_id ix)

unfoldable pub apply_code : TransitionCode → ActiveIndex → TransitionResult → ActiveIndex
unfolding set_active clear_active
apply_code session_started ix r =
    if not (is_empty r.slot_id) && not (is_empty r.session_id)
    then set_active ix r.slot_id r.session_id
    else ix
apply_code session_completed ix r =
    if not (is_empty r.slot_id) then clear_active ix r.slot_id r.session_id else ix
apply_code _ ix r = ix

unfoldable pub apply : ActiveIndex → TransitionResult → ActiveIndex
unfolding apply_code
apply ix r = apply_code r.code ix r

unfoldable pub find_active_session_id : ActiveIndex → Bytes → Option Bytes
find_active_session_id ix slot_id = lookup slot_id ix

unfoldable pub size : ActiveIndex → ℕ
size ix = length ix

unfoldable pub clear : ActiveIndex → ActiveIndex
clear ix = []
