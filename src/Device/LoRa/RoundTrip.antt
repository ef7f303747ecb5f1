-- ===== src/Device/LoRa/RoundTrip.antt =====
-- Frames that are sent arrive, however the bytes are cut in pieces.
use mathlib.Core.List.{append_assoc}
use mathlib.Core.Path.{fun_ext}
use pi_server.Base.{
  ℕ, zero, suc, ◌/◌, ◌%◌, ◌^◌, ◌≤◌, ◌<◌, ◌≡◌, refl, sym, ap, ◌∙◌, Option, none, some, List, [], ◌∷◌,
  ◌++◌, All, map, arith, Bytes, length, length-append, take_append, drop_append, ltb, false,
}
use pi_server.Device.LoRa.{
  Frame, wait, found, scan, scan_frame, scan_body, scan_crc, from_sof, keep_last, Driver,
  consume_loop, cons_frame, consume, encode, covered, crc_bit, crc_bits, crc_from, crc_16_ccitt,
  u16_bytes, u32_bytes, read_u16, read_u32, version_legacy, sof_0, sof_1, max_payload,
}
use pi_server.Device.LoRa.Scan.{scan_marked}
use pi_server.Device.LoRa.Chunks.{then_more, consume-append}

crc_bit-lt : (crc : ℕ) → crc_bit crc < 65536
unfolding crc_bit
crc_bit-lt crc = ground arith

crc_bits-lt : (n crc : ℕ) → crc < 65536 → crc_bits n crc < 65536
unfolding crc_bits
crc_bits-lt zero crc h = h
crc_bits-lt (suc n) crc h = crc_bits-lt n (crc_bit crc) (crc_bit-lt crc)

crc_from-lt : (crc : ℕ) (bytes : Bytes) → crc < 65536 → crc_from crc bytes < 65536
unfolding crc_from
crc_from-lt crc [] h = h
crc_from-lt crc (byte ∷ bytes) h = crc_from-lt (crc_bits 8 _) bytes (crc_bits-lt 7 _ (crc_bit-lt _))

pub crc_16_ccitt-lt : (bytes : Bytes) → crc_16_ccitt bytes < 65536
unfolding crc_16_ccitt
crc_16_ccitt-lt bytes = crc_from-lt 0xFFFF bytes (omega arith)

-- A frame whose fields fit the wire.
pub record Fits (f : Frame) : Type 0 where
  pub sequence_fits : f.sequence < 2 ^ 32
  pub payload_fits : length f.payload ≤ max_payload

-- The bytes of a frame that fits.
abbrev wire : Frame → Bytes
wire f = sof_0 ∷ sof_1 ∷ (covered f ++ u16_bytes (crc_16_ccitt (covered f)))

-- A frame arrives with the version of the wire.
abbrev pub as_sent : Frame → Frame
as_sent f = record f { version = version_legacy }

scan_body_whole :
    (buffer : Bytes) (g : Frame) (header payload next rest : Bytes) (c₁ c₀ : ℕ)
    → read_u16 c₁ c₀ ≡ crc_16_ccitt (header ++ payload)
    → scan_body buffer g header (length payload) (payload ++ (c₁ ∷ c₀ ∷ rest)) next
      ≡ found (record g { payload = payload }) rest
unfolding scan_body scan_crc
scan_body_whole buffer g header payload next rest c₁ c₀ h =
    rw (take_append payload (c₁ ∷ c₀ ∷ rest), drop_append payload (c₁ ∷ c₀ ∷ rest)) (ground arith)

-- The two bytes of a number below 2 ^ 16 read back.
read-u16_bytes : (n : ℕ) → n < 65536 → read_u16 (n / 256 % 256) (n % 256) ≡ n
read-u16_bytes n h = omega arith

read-u32_bytes :
    (n : ℕ)
    → n < 2 ^ 32
    → read_u32 (n / 16777216 % 256) (n / 65536 % 256) (n / 256 % 256) (n % 256) ≡ n
read-u32_bytes n h = omega arith

scan_frame-wire :
    (f : Frame) (rest : Bytes) → Fits f → scan_frame (wire f ++ rest) ≡ found (as_sent f) rest
unfolding scan_frame
scan_frame-wire f rest v =
    let n_read : read_u16 (length f.payload % 65536 / 256 % 256) (length f.payload % 65536 % 256)
        ≡ length f.payload =
      omega arith in
    let short : ltb max_payload (length f.payload) ≡ false = ground arith in
    let crc = crc_16_ccitt (covered f) in
    let header =
      version_legacy ∷ f.type ∷ (u32_bytes f.sequence ++ u16_bytes (length f.payload % 65536)) in
    rw
      (
        n_read,
        append_assoc f.payload (u16_bytes crc) rest,
        read-u32_bytes f.sequence v.sequence_fits,
        short,
      )
      (scan_body_whole (sof_0 ∷ sof_1 ∷ (header ++ (f.payload ++ (u16_bytes crc ++ rest))))
        (record { version = version_legacy; type = f.type; sequence = f.sequence; payload = [] })
        header f.payload (sof_1 ∷ (header ++ (f.payload ++ (u16_bytes crc ++ rest)))) rest
        (crc / 256 % 256) (crc % 256) (read-u16_bytes crc (crc_16_ccitt-lt (covered f))))

scan-wire : (f : Frame) (rest : Bytes) → Fits f → scan (wire f ++ rest) ≡ found (as_sent f) rest
unfolding from_sof
scan-wire f rest v = scan_marked (wire f ++ rest) (wire f ++ rest) refl ∙ scan_frame-wire f rest v

encode-wire : (f : Frame) → Fits f → encode f ≡ some (wire f)
unfolding encode
encode-wire f v = ground arith

abbrev pub joined_bytes : Option Bytes → Option Bytes → Option Bytes
joined_bytes none ys = none
joined_bytes (some xs) none = none
joined_bytes (some xs) (some ys) = some (xs ++ ys)

-- The bytes of several frames, one after the other.
unfoldable pub encode_all : List Frame → Option Bytes
encode_all [] = some []
encode_all (f ∷ fs) = joined_bytes (encode f) (encode_all fs)

-- What `consume` gives for the pieces of a delivery, in order.
unfoldable pub deliver : Driver → Bytes → List Bytes → Option (Driver × List Frame)
deliver d piece [] = consume d piece
deliver d piece (next ∷ pieces) = then_more (consume d piece) (λ d'. deliver d' next pieces)

abbrev pub joined : Bytes → List Bytes → Bytes
joined piece [] = piece
joined piece (next ∷ pieces) = piece ++ joined next pieces

deliver-joined :
    (d : Driver) (piece : Bytes) (pieces : List Bytes)
    → deliver d piece pieces ≡ consume d (joined piece pieces)
unfolding deliver
deliver-joined d piece [] = refl
deliver-joined d piece (next ∷ pieces) =
    ap (then_more (consume d piece)) (fun_ext (λ d'. deliver-joined d' next pieces))
    ∙ sym (consume-append d piece (joined next pieces))

abbrev wires : List Frame → Bytes
wires [] = []
wires (f ∷ fs) = wire f ++ wires fs

encode_all-wires : (fs : List Frame) → All Fits fs → encode_all fs ≡ some (wires fs)
unfolding encode_all
encode_all-wires [] v = refl
encode_all-wires (f ∷ fs) v = rw (encode-wire f v.0, encode_all-wires fs v.1) refl

scan_nil : scan [] ≡ wait []
unfolding scan from_sof keep_last
scan_nil = refl

consume_loop-wires :
    (fuel k : ℕ) (fs : List Frame)
    → All Fits fs
    → length (wires fs) < fuel
    → consume_loop fuel (record { buffer = wires fs; rejected_frames = k })
      ≡ some (record { buffer = []; rejected_frames = k }, map as_sent fs)
unfolding consume_loop
consume_loop-wires zero k fs v h = absurd (omega arith)
consume_loop-wires (suc fuel) k [] v h = rw scan_nil refl
consume_loop-wires (suc fuel) k (f ∷ fs) v h = rw (scan-wire f (wires fs) v.0) (
    ap (cons_frame (as_sent f))
      (consume_loop-wires fuel k fs v.1 (omega (arith, length-append (wire f) (wires fs)))))

-- Frames that fit the wire, encoded one after the other and delivered to an empty buffer in any
-- pieces, arrive all and in order, each as it was sent but with the version of the wire; nothing is
-- rejected and no byte is left.
pub deliver-encode_all :
    (k : ℕ) (fs : List Frame) (piece : Bytes) (pieces : List Bytes)
    → All Fits fs
    → encode_all fs ≡ some (joined piece pieces)
    → deliver (record { buffer = []; rejected_frames = k }) piece pieces
      ≡ some (record { buffer = []; rejected_frames = k }, map as_sent fs)
unfolding consume
deliver-encode_all k fs piece pieces v e =
    let same : wires fs ≡ joined piece pieces = cc (encode_all-wires fs v) in
    deliver-joined _ piece pieces
    ∙ rw (← same) (consume_loop-wires (suc (length (wires fs))) k fs v (omega arith))
