-- ===== src/Sensor/Sequence.antt =====
-- include/sensor/SensorSequencePolicy.hpp: which sequence numbers of a sensor are accepted.
-- The texts of `reason` are for logs and are left out. A uint64_t is a number with no bound, since
-- the policy only compares and subtracts a smaller one.
pub mod Replay
use pi_server.Base.{
  ℕ, ◌-◌, Bool, true, false, Option, none, some, List, [], ◌∷◌, ltb, ◌==◌, nat_eq, bytes_eq, Bytes,
  is_empty, if◌then◌else◌, ◌||◌, ◌≡◌, ◌⊎◌, inl, inr, refl,
}

pub data ProtocolVersion : Type 0 where
  legacy_v1 boot_epoch_v2 : ProtocolVersion

pub data Mode : Type 0 where
  unseen legacy versioned : Mode

pub record State : Type 0 where
  pub mode : Mode
  pub active_boot_id : Option Bytes
  pub last_sequence : Option ℕ
  pub retired_boot_ids : List Bytes

-- The default member initialisers.
abbrev pub initial : State
initial = record {
  mode = unseen;
  active_boot_id = none;
  last_sequence = none;
  retired_boot_ids = [];
}

pub record Fact : Type 0 where
  pub protocol_version : ProtocolVersion
  pub boot_id : Option Bytes
  pub sequence : Option ℕ

pub data Decision : Type 0 where
  accept duplicate stale legacy_downgrade retired_boot_id invalid : Decision

-- `kLegacySequenceRebootDropThreshold`.
abbrev pub reboot_drop_threshold : ℕ
reboot_drop_threshold = 1000

-- `std::set::count(b) != 0`.
unfoldable pub member : Bytes → List Bytes → Bool
member b [] = false
member b (x ∷ xs) = b == x || member b xs

abbrev pub has_text : Option Bytes → Bool
has_text none = false
has_text (some []) = false
has_text (some (x ∷ xs)) = true

-- The comparisons that end the legacy branch.
compare_legacy : ℕ → ℕ → Decision
compare_legacy n last =
    if n == last
    then duplicate
    else if ltb n last
    then (if ltb reboot_drop_threshold (last - n) then accept else stale)
    else accept

legacy_sequence : Mode → Option ℕ → Option ℕ → Decision
unfolding compare_legacy
legacy_sequence versioned n last = legacy_downgrade
legacy_sequence unseen n last = accept
legacy_sequence legacy none last = accept
legacy_sequence legacy (some n) none = accept
legacy_sequence legacy (some n) (some last) = compare_legacy n last

-- The comparisons within one boot epoch.
compare_epoch : ℕ → ℕ → Decision
compare_epoch n last = if n == last then duplicate else if ltb n last then stale else accept

epoch : Bytes → ℕ → Option Bytes → Option ℕ → Decision
unfolding compare_epoch
epoch b n none last = invalid
epoch b n (some a) none = invalid
epoch b n (some a) (some last) =
    if is_empty a then invalid else if b == a then compare_epoch n last else accept

versioned_epoch : Mode → Bytes → ℕ → Option Bytes → Option ℕ → Decision
unfolding epoch
versioned_epoch versioned b n active last = epoch b n active last
versioned_epoch unseen b n active last = accept
versioned_epoch legacy b n active last = accept

versioned_sequence : Option Bytes → Option ℕ → State → Decision
unfolding versioned_epoch
versioned_sequence none n s = invalid
versioned_sequence (some b) none s = invalid
versioned_sequence (some b) (some n) s =
    if is_empty b
    then invalid
    else if member b s.retired_boot_ids
    then retired_boot_id
    else versioned_epoch s.mode b n s.active_boot_id s.last_sequence

evaluate_version : ProtocolVersion → State → Fact → Decision
unfolding legacy_sequence versioned_sequence
evaluate_version legacy_v1 s f =
    if has_text f.boot_id then invalid else legacy_sequence s.mode f.sequence s.last_sequence
evaluate_version boot_epoch_v2 s f = versioned_sequence f.boot_id f.sequence s

unfoldable pub evaluate_sensor_sequence : State → Fact → Decision
unfolding evaluate_version
evaluate_sensor_sequence s f = evaluate_version f.protocol_version s f

-- `state.retiredBootIds.insert` of the boot ID that a new one replaces.
retire : Mode → Option Bytes → Option Bytes → List Bytes → List Bytes
retire versioned (some a) (some b) retired =
    if a == b then retired else if member a retired then retired else a ∷ retired
retire _ _ _ retired = retired

abbrev or_else : Option ℕ → Option ℕ → Option ℕ
or_else none last = last
or_else (some n) last = some n

commit_version : ProtocolVersion → State → Fact → State
unfolding retire
commit_version legacy_v1 s f = record s {
  mode = legacy;
  active_boot_id = none;
  last_sequence = or_else f.sequence s.last_sequence;
}
commit_version boot_epoch_v2 s f = record {
  mode = versioned;
  active_boot_id = f.boot_id;
  last_sequence = f.sequence;
  retired_boot_ids = retire s.mode s.active_boot_id f.boot_id s.retired_boot_ids;
}

unfoldable pub commit_sensor_sequence : State → Fact → State
unfolding commit_version
commit_sensor_sequence s f = commit_version f.protocol_version s f

abbrev pub accepted : Decision → Bool
accepted accept = true
accepted _ = false

pub decision_cases : (d : Decision) → (d ≡ accept) ⊎ (accepted d ≡ false)
decision_cases accept = inl refl
decision_cases _ = inr refl
