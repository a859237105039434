-- ===== src/Mqtt.antt =====
-- mqtt/MqttPublisher.cpp: the publisher of the telemetry. What the calls of the mosquitto library answer is a parameter.
pub mod Payload
use v_plc_runtime.Shared.{ℕ, Bool, true, false, if◌then◌else◌, List, [], ◌∷◌, ◌++◌, Text, codes}
use v_plc_runtime.Memory.{PlcMemory, input_registers_area, holding_registers_area, read_word}
use v_plc_runtime.Loader.{digits}
use v_plc_runtime.Tui.{contains}

-- One call of `mosquitto_publish`.
pub record Message : Type 0 where
  pub topic : Text
  pub payload : Text

-- `"{" << name << value << "," << … << "}"`: the names carry their quotes, commas and colons.
unfoldable pub three_numbers : Text → ℕ → Text → ℕ → Text → ℕ → Text
three_numbers name1 value1 name2 value2 name3 value3 =
    name1
    ++ (digits 5 value1
        ++ (name2 ++ (digits 5 value2 ++ (name3 ++ (digits 5 value3 ++ codes "}")))))

unfoldable pub assembly_message : PlcMemory → Message
assembly_message m = record {
  topic = codes "vplc/assembly/state";
  payload =
      three_numbers (codes "{\"completed_cars\":") (read_word m holding_registers_area 0)
        (codes ",\"conveyor_speed\":") (read_word m holding_registers_area 1)
        (codes ",\"encoder_position\":") (read_word m input_registers_area 0);
}

unfoldable pub tank_message : PlcMemory → Message
tank_message m = record {
  topic = codes "vplc/tank/state";
  payload =
      three_numbers (codes "{\"water_level\":") (read_word m input_registers_area 0)
        (codes ",\"set_point\":") (read_word m holding_registers_area 1) (codes ",\"pump_starts\":")
        (read_word m holding_registers_area 0);
}

-- What a round publishes, by the path of the library.
unfoldable pub message : Text → PlcMemory → Message
message lib_path m =
    if contains (codes "assembly") lib_path then assembly_message m else tank_message m

-- The fields; `has_client` says that `mosq_` is not null.
pub record Publisher : Type 0 where
  pub has_client : Bool
  pub is_running : Bool
  pub is_connected : Bool

-- `start`, where `creates` and `connects` tell whether `mosquitto_new` and `mosquitto_connect` succeed.
unfoldable pub start : Bool → Bool → Publisher → Publisher × Bool
start creates connects p =
    if p.is_running
    then (p, true)
    else if creates
    then (if connects
        then (record { has_client = true; is_running = true; is_connected = true }, true)
        else (record p { has_client = false }, false))
    else (record p { has_client = false }, false)

-- `stop`
unfoldable pub stop : Publisher → Publisher
stop p =
    if p.is_running
    then record { has_client = false; is_running = false; is_connected = false }
    else p

-- A round of `publishLoop`: whether `mosquitto_loop` succeeds, and the memory at that time.
unfoldable pub publish_round : Text → Bool → PlcMemory → Publisher → Publisher × List Message
publish_round lib_path loops m p =
    if loops
    then (record p { is_connected = true }, message lib_path m ∷ [])
    else (record p { is_connected = false }, [])

-- `publishLoop`, over the rounds until it is stopped.
unfoldable pub publish_loop : Text → List (Bool × PlcMemory) → Publisher → Publisher × List Message
publish_loop lib_path [] p = (p, [])
publish_loop lib_path ((loops, m) ∷ rounds) p =
    let (p', now) = publish_round lib_path loops m p in
    let (p'', later) = publish_loop lib_path rounds p' in (p'', now ++ later)
