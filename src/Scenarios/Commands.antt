-- ===== src/Scenarios/Commands.antt =====
-- Commands of two sensors on their way through the slot transition actor.
use pi_server.Base.{
  erase, insert, text, Bytes, List, [], ◌∷◌, none, some, pos, refl, ◌≡◌, ◌++◌, ◌≢◌, bytes_beq, true,
  lookup,
}
use pi_server.Parking.Commands.{
  kind_name, Command, hall_observation, JsonLibrary, admitted, retryable_failure,
}
use pi_server.Parking.Actor.{
  close_ingress, request_stop, keep_lane, settle_lane, settle, select_from, select, push_command,
  identity_key, start_actor, submit_found, submit_failure, submit, Config, new_actor,
}
use pi_server.Parking.Actor.Runs.{
  step, IsConsistent, Op, started, submitted, selected, settled, stopped, run,
}
use pi_server.Parking.Actor.Answers.{run-new_actor-IsConsistent}
use pi_server.Parking.Actor.Order.{
  waiting, for_slot, all_accepted, all_settled, all_settled-waiting,
}

-- Values of JSON by their text, all without the volatile keys.
abbrev by_text : JsonLibrary Bytes
by_text = record { parse = λ payload. some payload; erase_key = λ key j. some j; equal = bytes_beq }

abbrev actor_config : Config
actor_config = record {
  config_transport_capacity = 2;
  config_durable_capacity = 8;
  config_retry_delay = 250;
  config_retention = 0;
  config_purge_interval = 0;
  config_purge_batch_size = 0;
}

abbrev command : Bytes → Bytes → Command
command id slot = record {
  command_id = id;
  kind = hall_observation;
  slot_id = slot;
  sensor_id = text "S1";
  source_identity = id;
  source_sequence = none;
  occurred_at = [];
  payload_json = text "{}";
  due_at_epoch_ms = pos 0;
}

-- The first command is put off once, and the third meets a full queue.
abbrev calls : List Op
calls =
    started true
    ∷ submitted (command (text "a") (text "EV01"))
    ∷ selected 5
    ∷ submitted (command (text "b") (text "EV01"))
    ∷ submitted (command (text "c") (text "EV02"))
    ∷ settled retryable_failure 5
    ∷ selected 255
    ∷ settled admitted 255
    ∷ stopped 300
    ∷ []

run-calls : (run by_text (new_actor actor_config) calls).ingress_size ≡ 1
unfolding run step new_actor submit submit_found start_actor identity_key kind_name push_command
    select select_from settle settle_lane lookup insert erase keep_lane bytes_beq request_stop
    close_ingress
run-calls = refl

run-new_actor-IsConsistent_example :
    IsConsistent (run by_text (new_actor actor_config) calls)
    × ((submit by_text
          (run by_text (new_actor actor_config) calls)
          (command (text "b") (text "EV01"))).1
        ≢ submit_failure)
run-new_actor-IsConsistent_example =
    run-new_actor-IsConsistent by_text actor_config calls (command (text "b") (text "EV01"))

all_settled-waiting_example :
    for_slot (text "EV01") (all_accepted by_text (new_actor actor_config) calls)
    ≡ for_slot (text "EV01") (all_settled by_text (new_actor actor_config) calls)
      ++ waiting (run by_text (new_actor actor_config) calls).ingress_by_slot (text "EV01")
all_settled-waiting_example = all_settled-waiting by_text actor_config calls (text "EV01")
