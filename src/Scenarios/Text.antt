-- ===== src/Scenarios/Text.antt =====
-- The lines of the sensors.
use pi_server.Base.{true, ◌≡◌, refl, none, some, arith, text, bytes_beq}
use pi_server.Sensor.Sequence.{boot_epoch_v2, initial, accept, evaluate_sensor_sequence}
use pi_server.Parking.Event.{occupied}
use pi_server.Sensor.Protocol.{
  trim, trim_right, trim_left, split, split_from, upper, apply_versioned_tail, number, digits,
  optional_epoch, is_lora_node_id, digits, ok, err, bad_sequence, parse_unsigned_64,
}
use pi_server.Sensor.Protocol.Numbers.{decimal, fits_64, parse_unsigned_64-decimal}
use pi_server.Sensor.Protocol.Messages.{
  parse_fields, parse_plain, sensor_state, apply_tail, parse_node, before_colon, SensorMessage,
  parse, is_fire_line,
}
use pi_server.Sensor.Protocol.WellFormed.{
  WellFormed, fact_of_message, parse-WellFormed, evaluate_sensor_sequence-parse,
}
use pi_server.Sensor.Protocol.RoundTrip.{line_of, parse-line_of}

parse_unsigned_64-decimal_example :
    parse_unsigned_64 (text "0420") ≡ fits_64 (decimal (text "0420"))
parse_unsigned_64-decimal_example = parse_unsigned_64-decimal (text "0420")

abbrev arrival : SensorMessage
arrival = record {
  sensor_id = text "HALL01";
  state = occupied;
  occurred_at = 99;
  sequence = some 7;
  protocol_version = boot_epoch_v2;
  boot_id = some (text "b1");
  node = none;
}

arrival_parsed : parse (text " sensor2:HALL01:occupied:b1:007\r\n") 99 ≡ ok arrival
unfolding parse trim trim_right trim_left parse_fields split split_from bytes_beq upper parse_plain
    sensor_state apply_tail apply_versioned_tail number parse_unsigned_64 digits optional_epoch
arrival_parsed = refl

refused_sequence : parse (text "SENSOR:STM1:HALL01:VACANT:x") 99 ≡ err bad_sequence
unfolding parse trim trim_right trim_left parse_fields split split_from bytes_beq upper parse_node
    sensor_state is_lora_node_id number parse_unsigned_64 digits
refused_sequence = refl

fire_line_told : is_fire_line (text "fire:F1:DETECTED") ≡ true
unfolding is_fire_line trim trim_right trim_left before_colon upper bytes_beq
fire_line_told = refl

parse-WellFormed_example : WellFormed arrival
parse-WellFormed_example =
    parse-WellFormed (text " sensor2:HALL01:occupied:b1:007\r\n") 99 arrival arrival_parsed

evaluate_sensor_sequence-parse_example :
    evaluate_sensor_sequence initial (fact_of_message arrival) ≡ accept
evaluate_sensor_sequence-parse_example =
    evaluate_sensor_sequence-parse (text " sensor2:HALL01:occupied:b1:007\r\n") 99 arrival
      arrival_parsed

parse-line_of_example : parse (line_of (text "HALL01") occupied (text "b1") 7) 99 ≡ ok arrival
parse-line_of_example =
    parse-line_of (text "HALL01") occupied (text "b1") 7 99 (ground arith) refl (ground arith) refl
      (omega arith)
