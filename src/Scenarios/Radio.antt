-- ===== src/Scenarios/Radio.antt =====
-- src/device/LoRaDriver.cpp on two small frames.
use pi_server.Base.{◌≡◌, refl, some, List, [], ◌∷◌, ◌++◌, arith, Bytes, text, bytes_eq}
use pi_server.Device.LoRa.{Frame, Driver, encode, consume, crc_16_ccitt}
use pi_server.Device.LoRa.Chunks.{then_more, consume_total, consume-append}
use pi_server.Device.LoRa.RoundTrip.{as_sent, encode_all, deliver, joined, deliver-encode_all}

abbrev heartbeat : Frame
heartbeat = record { version = 0; type = 3; sequence = 7; payload = [] }

abbrev reading : Frame
reading = record { version = 1; type = 1; sequence = 70000; payload = 0xAA ∷ 0x55 ∷ 9 ∷ [] }

abbrev idle : Driver
idle = record { buffer = []; rejected_frames = 4 }

-- The bytes of both frames, in three pieces that cut through them.
abbrev piece_1 : Bytes
piece_1 = 170 ∷ 85 ∷ 1 ∷ 3 ∷ 0 ∷ []

abbrev piece_2 : Bytes
piece_2 = 0 ∷ 0 ∷ 7 ∷ 0 ∷ 0 ∷ 43 ∷ 255 ∷ 170 ∷ 85 ∷ 1 ∷ 1 ∷ 0 ∷ []

abbrev piece_3 : Bytes
piece_3 = 1 ∷ 17 ∷ 112 ∷ 0 ∷ 3 ∷ 170 ∷ 85 ∷ 9 ∷ 111 ∷ 180 ∷ []

-- The check value of CRC-16/CCITT-FALSE.
crc_check : crc_16_ccitt (text "123456789") ≡ 0x29B1
unfolding crc_16_ccitt
crc_check = refl

both_encoded :
    encode_all (heartbeat ∷ reading ∷ []) ≡ some (joined piece_1 (piece_2 ∷ piece_3 ∷ []))
unfolding encode_all encode crc_16_ccitt
both_encoded = refl

deliver-encode_all_example :
    deliver idle piece_1 (piece_2 ∷ piece_3 ∷ [])
    ≡ some (idle, as_sent heartbeat ∷ as_sent reading ∷ [])
deliver-encode_all_example =
    deliver-encode_all 4 (heartbeat ∷ reading ∷ []) piece_1 (piece_2 ∷ piece_3 ∷ [])
      (
        record { sequence_fits = omega arith; payload_fits = omega arith },
        (record { sequence_fits = omega arith; payload_fits = omega arith }, tt),
      )
      both_encoded

consume-append_example :
    consume idle (piece_1 ++ piece_2) ≡ then_more (consume idle piece_1) (λ d. consume d piece_2)
consume-append_example = consume-append idle piece_1 piece_2

consume_total_example : (x : Driver × List Frame) × (consume idle piece_2 ≡ some x)
consume_total_example = consume_total idle piece_2
