-- ===== src/Device/LoRa.antt =====
-- src/device/LoRaDriver.cpp: frames with a start marker, a length and a CRC over a byte stream.
-- A byte is a number below 256; `(a << 8) | b` of two bytes is written `a * 256 + b`. The UART that
-- `send` and `sendTo` write to is a parameter.
pub mod Scan
pub mod Chunks
pub mod RoundTrip
use Prim.Native.Nat.{bit_and, bit_xor}
use pi_server.Base.{
  ℕ, zero, suc, ◌+◌, ◌*◌, ◌/◌, ◌%◌, ◌^◌, Bool, true, false, not, ◌&&◌, ◌||◌, Option, none, some,
  List, [], ◌∷◌, ◌++◌, Bytes, length, take, drop, nat_beq, leb, ltb, if◌then◌else◌,
}

pub record Frame : Type 0 where
  pub version : ℕ
  pub type : ℕ
  pub sequence : ℕ
  pub payload : Bytes

abbrev pub sof_0 : ℕ
sof_0 = 0xAA

abbrev pub sof_1 : ℕ
sof_1 = 0x55

abbrev pub version_legacy : ℕ
version_legacy = 0x01

abbrev pub version_node_aware : ℕ
version_node_aware = 0x02

abbrev pub max_payload : ℕ
max_payload = 512

-- `appendU16` and `appendU32`.
abbrev pub u16_bytes : ℕ → Bytes
u16_bytes v = (v / 256 % 256) ∷ (v % 256) ∷ []

abbrev pub u32_bytes : ℕ → Bytes
u32_bytes v = (v / 16777216 % 256) ∷ (v / 65536 % 256) ∷ (v / 256 % 256) ∷ (v % 256) ∷ []

abbrev pub read_u16 : ℕ → ℕ → ℕ
read_u16 a b = a * 256 + b

abbrev pub read_u32 : ℕ → ℕ → ℕ → ℕ → ℕ
read_u32 a b c d = a * 16777216 + b * 65536 + c * 256 + d

-- One of the eight rounds of a byte.
crc_bit : ℕ → ℕ
crc_bit crc =
    if nat_beq (bit_and crc 0x8000) 0 then crc * 2 % 65536 else bit_xor (crc * 2) 0x1021 % 65536

crc_bits : ℕ → ℕ → ℕ
crc_bits zero crc = crc
crc_bits (suc n) crc = crc_bits n (crc_bit crc)

crc_from : ℕ → Bytes → ℕ
unfolding crc_bit crc_bits
crc_from crc [] = crc
crc_from crc (byte ∷ bytes) = crc_from (crc_bits 8 (bit_xor crc (byte * 256 % 65536))) bytes

unfoldable pub crc_16_ccitt : Bytes → ℕ
unfolding crc_from
crc_16_ccitt bytes = crc_from 0xFFFF bytes

-- What the CRC covers: the frame from its version to the end of its payload.
abbrev pub covered : Frame → Bytes
covered f =
    version_legacy
    ∷ f.type
    ∷ (u32_bytes f.sequence ++ (u16_bytes (length f.payload % 65536) ++ f.payload))

-- `none` is the `invalid_argument` of a payload that is too long.
unfoldable pub encode : Frame → Option Bytes
encode f =
    if ltb max_payload (length f.payload)
    then none
    else some (sof_0 ∷ sof_1 ∷ (covered f ++ u16_bytes (crc_16_ccitt (covered f))))

-- `std::search` for the marker: the buffer from the marker on.
unfoldable pub from_sof : Bytes → Option Bytes
from_sof [] = none
from_sof (a ∷ []) = none
from_sof (a ∷ b ∷ xs) =
    if nat_beq a sof_0 && nat_beq b sof_1 then some (a ∷ b ∷ xs) else from_sof (b ∷ xs)

-- What a buffer without a marker leaves: a last byte that may begin one.
unfoldable pub keep_last : Bytes → Bytes
keep_last [] = []
keep_last (a ∷ []) = if nat_beq a sof_0 then a ∷ [] else []
keep_last (a ∷ b ∷ xs) = keep_last (b ∷ xs)

-- One round of the loop of `consume`: it waits for more bytes, rejects the marker's first byte, or
-- takes a frame; with the buffer that is left.
pub data Round : Type 0 where
  wait : Bytes → Round
  reject : Bytes → Round
  found : Frame → Bytes → Round

-- The end of a frame: two bytes of CRC behind the payload, if they are there.
scan_crc : Bytes → Frame → Bytes → Bytes → Bytes → Round
scan_crc buffer f covering (c₁ ∷ c₀ ∷ rest) next =
    if nat_beq (read_u16 c₁ c₀) (crc_16_ccitt covering) then found f rest else reject next
scan_crc buffer f covering _ next = wait buffer

-- The payload of `n` bytes behind the header, and the CRC behind it.
scan_body : Bytes → Frame → Bytes → ℕ → Bytes → Bytes → Round
unfolding scan_crc
scan_body buffer f header n body next =
    scan_crc buffer (record f { payload = take n body }) (header ++ take n body) (drop n body) next

-- A buffer of at least ten bytes has a header; a shorter one waits.
unfoldable pub scan_frame : Bytes → Round
unfolding scan_body
scan_frame (a ∷ b ∷ v ∷ t ∷ s₃ ∷ s₂ ∷ s₁ ∷ s₀ ∷ l₁ ∷ l₀ ∷ body) =
    let next = b ∷ v ∷ t ∷ s₃ ∷ s₂ ∷ s₁ ∷ s₀ ∷ l₁ ∷ l₀ ∷ body in
    if not (nat_beq v version_legacy || nat_beq v version_node_aware)
    then reject next
    else if ltb max_payload (read_u16 l₁ l₀)
    then reject next
    else scan_body (a ∷ next)
        (record { version = v; type = t; sequence = read_u32 s₃ s₂ s₁ s₀; payload = [] })
        (v ∷ t ∷ s₃ ∷ s₂ ∷ s₁ ∷ s₀ ∷ l₁ ∷ l₀ ∷ []) (read_u16 l₁ l₀) body next
scan_frame buffer = wait buffer

scan_from : Bytes → Option Bytes → Round
scan_from buffer none = wait (keep_last buffer)
scan_from buffer (some marked) = scan_frame marked

unfoldable pub scan : Bytes → Round
unfolding scan_from
scan buffer = scan_from buffer (from_sof buffer)

pub record Driver : Type 0 where
  pub buffer : Bytes
  pub rejected_frames : ℕ

abbrev pub cons_frame : Frame → Option (Driver × List Frame) → Option (Driver × List Frame)
cons_frame f none = none
cons_frame f (some (d, fs)) = some (d, f ∷ fs)

-- What the loop does with a round, `next` being its later rounds.
unfoldable pub turn :
    (Driver → Option (Driver × List Frame)) → Driver → Round → Option (Driver × List Frame)
turn next d (wait rest) = some (record d { buffer = rest }, [])
turn next d (reject rest) =
    next (record { buffer = rest; rejected_frames = (d.rejected_frames + 1) % 2 ^ 64 })
turn next d (found f rest) = cons_frame f (next (record d { buffer = rest }))

-- The loop, on fuel; `none` means that the fuel ran out.
unfoldable pub consume_loop : ℕ → Driver → Option (Driver × List Frame)
unfolding turn
consume_loop zero d = none
consume_loop (suc fuel) d = turn (consume_loop fuel) d (scan d.buffer)

unfoldable pub consume : Driver → Bytes → Option (Driver × List Frame)
consume d bytes =
    let buffer = d.buffer ++ bytes in
    consume_loop (suc (length buffer)) (record d { buffer = buffer })

-- The address header of `sendTo`.
pub record Destination : Type 0 where
  pub address_high : ℕ
  pub address_low : ℕ
  pub channel : ℕ

-- `writeAll` of the UART is a parameter; a payload that is too long is reported as `false`.
unfoldable pub send : (Bytes → Bool) → Frame → Bool
send write_all f = elim (encode f) [ none ↦ false | some bytes ↦ write_all bytes ]

unfoldable pub send_to : (Bytes → Bool) → Destination → Frame → Bool
send_to write_all d f = elim (encode f) [
  | none ↦ false
  | some bytes ↦ write_all (d.address_high ∷ d.address_low ∷ d.channel ∷ bytes)
]
