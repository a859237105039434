-- ===== src/Startup.antt =====
-- main.cpp: the options of the command line, and the servers that are started by them. Whether a library loads and
-- whether a part starts are parameters; the output and the optional publishers (MQTT, web), whose failure does
-- not stop the program, are left out here (`Mqtt` and `Web` model the parts themselves).
pub mod Cleanup
use v_plc_runtime.Shared.{
  ℕ, ◌+◌, Bool, true, false, not, ◌||◌, ◌&&◌, if◌then◌else◌, Option, none, some, List, [], ◌∷◌,
  ◌++◌, Text, codes, text_eq, getline_parts, stoi, ℤ, int_u16, u16,
}

-- The variables that the options set.
pub record Options : Type 0 where
  pub lib_path : Text
  pub mqtt_broker : Text
  pub protocols_str : Text
  pub port_offset : ℕ
  pub web_port : ℕ
  pub manual_mode : Bool

unfoldable pub default_options : Options
default_options = record {
  lib_path = [];
  mqtt_broker = [];
  protocols_str = codes "modbus,s7,mc,xgt";
  port_offset = 0;
  web_port = 8080;
  manual_mode = false;
}

-- How the loop over the arguments ends.
pub data Parsed : Type 0 where
  options : Options → Parsed
  exit_code : ℕ → Parsed
  thrown : Parsed

-- `arg == a || arg == b`
unfoldable pub is_one_of : Text → Text → Text → Bool
is_one_of a b arg = text_eq arg a || text_eq arg b

-- The options that have a value.
pub data Valued : Type 0 where
  mqtt : Valued
  protocols : Valued
  offset : Valued
  web : Valued

unfoldable pub valued_option : Text → Option Valued
valued_option arg =
    if is_one_of (codes "--mqtt") (codes "-m") arg
    then some mqtt
    else if is_one_of (codes "--protocols") (codes "-p") arg
    then some protocols
    else if is_one_of (codes "--port-offset") (codes "-o") arg
    then some offset
    else if is_one_of (codes "--web") (codes "-w") arg
    then some web
    else none

-- The value's effect; `none` is an exception of `std::stoi`.
unfoldable pub set_value : Valued → Text → Options → Option Options
set_value mqtt value o = some (record o { mqtt_broker = value })
set_value protocols value o = some (record o { protocols_str = value })
set_value offset value o = set_offset (stoi value)
  where
    set_offset : Option ℤ → Option Options
    set_offset none = none
    set_offset (some n) = some (record o { port_offset = int_u16 n })
set_value web value o = set_port (stoi value)
  where
    set_port : Option ℤ → Option Options
    set_port none = none
    set_port (some n) = some (record o { web_port = int_u16 n })

unfoldable pub is_help : Text → Bool
is_help arg =
    text_eq arg (codes "--help") || (text_eq arg (codes "-h") || text_eq arg (codes "help"))

-- The library of an argument that is no option.
unfoldable pub library_of : Text → Text → Text
library_of extension arg =
    if is_one_of (codes "tank") (codes "mock") arg
      || is_one_of (codes "--tank") (codes "--mock") arg
    then codes "./libmock_logic" ++ extension
    else if is_one_of (codes "assembly") (codes "car") arg
        || is_one_of (codes "--assembly") (codes "--car") arg
    then codes "./libassembly_logic" ++ extension
    else if is_one_of (codes "trim") (codes "final") arg
        || is_one_of (codes "--trim") (codes "--final") arg
    then codes "./libtrim_logic" ++ extension
    else arg

-- An argument without a value; `continue` is the rest of the loop.
unfoldable pub parse_flag : Text → Text → (Options → Parsed) → Options → Parsed
parse_flag extension arg continue o =
    if is_one_of (codes "--manual") (codes "-manual") arg
    then continue (record o { manual_mode = true })
    else if is_help arg
    then exit_code 0
    else continue (record o { lib_path = library_of extension arg })

-- The loop over the arguments; `extension` is `LIB_EXTENSION`.
unfoldable pub parse_arguments : Text → List Text → Options → Parsed
parse_arguments extension [] o = options o
parse_arguments extension (arg ∷ []) o = elim (valued_option arg) [
  | none ↦ parse_flag extension arg (λ p. options p) o
  | some kind ↦ exit_code 1
]
parse_arguments extension (arg ∷ value ∷ args) o = elim (valued_option arg) [
  | none ↦ parse_flag extension arg (λ p. parse_arguments extension (value ∷ args) p) o
  | some kind ↦ elim (set_value kind value o) [
    | none ↦ thrown
    | some p ↦ parse_arguments extension args p
  ]
]

-- The parts whose failure ends the program.
pub data Part : Type 0 where
  modbus : Part
  s7 : Part
  mc : Part
  xgt : Part
  scheduler : Part
  tui : Part

-- Which parts run.
pub record Running : Type 0 where
  pub modbus_runs : Bool
  pub s7_runs : Bool
  pub mc_runs : Bool
  pub xgt_runs : Bool
  pub scheduler_runs : Bool
  pub tui_runs : Bool

abbrev pub nothing : Running
nothing = record {
  modbus_runs = false;
  s7_runs = false;
  mc_runs = false;
  xgt_runs = false;
  scheduler_runs = false;
  tui_runs = false;
}

-- `enable_modbus` and the others, in the fields of the parts.
unfoldable pub has_token : Text → List Text → Bool
has_token name [] = false
has_token name (token ∷ tokens) = text_eq token name || has_token name tokens

unfoldable pub is_enabled : Text → Text → Bool
is_enabled name protocols_str =
    if text_eq protocols_str (codes "none")
    then false
    else has_token name (getline_parts b',' protocols_str)

unfoldable pub enabled_parts : Text → Running
enabled_parts protocols_str = record {
  modbus_runs = is_enabled (codes "modbus") protocols_str;
  s7_runs = is_enabled (codes "s7") protocols_str;
  mc_runs = is_enabled (codes "mc") protocols_str;
  xgt_runs = is_enabled (codes "xgt") protocols_str;
  scheduler_runs = true;
  tui_runs = true;
}

-- How the start of the parts ends: with the code that the program returns and what still runs then, or in the main loop.
pub data Started : Type 0 where
  returned : ℕ → Running → Started
  serving : Running → Started

-- `if (enable_x) x.stop();`
abbrev stop_if : Bool → Bool → Bool
stop_if enabled runs = if enabled then false else runs

-- The starts of the servers in their order, each with the stops that its failure calls.
unfoldable pub start_tui : (Part → Bool) → Running → Running → Started
start_tui starts e r =
    if starts tui
    then serving (record r { tui_runs = true })
    else returned 1 (record r {
      scheduler_runs = false;
      xgt_runs = false;
      mc_runs = false;
      s7_runs = false;
      modbus_runs = false;
    })

unfoldable pub start_scheduler : (Part → Bool) → Running → Running → Started
start_scheduler starts e r =
    if starts scheduler
    then start_tui starts e (record r { scheduler_runs = true })
    else returned 1 (record r {
      xgt_runs = stop_if e.xgt_runs r.xgt_runs;
      mc_runs = stop_if e.mc_runs r.mc_runs;
      s7_runs = stop_if e.s7_runs r.s7_runs;
      modbus_runs = stop_if e.modbus_runs r.modbus_runs;
    })

unfoldable pub start_xgt : (Part → Bool) → Running → Running → Started
start_xgt starts e r =
    if e.xgt_runs && not (starts xgt)
    then returned 1 (record r {
      mc_runs = stop_if e.mc_runs r.mc_runs;
      s7_runs = stop_if e.s7_runs r.s7_runs;
      modbus_runs = stop_if e.modbus_runs r.modbus_runs;
    })
    else start_scheduler starts e (record r { xgt_runs = e.xgt_runs })

unfoldable pub start_mc : (Part → Bool) → Running → Running → Started
start_mc starts e r =
    if e.mc_runs && not (starts mc)
    then returned 1 (record r {
      s7_runs = stop_if e.s7_runs r.s7_runs;
      modbus_runs = stop_if e.modbus_runs r.modbus_runs;
    })
    else start_xgt starts e (record r { mc_runs = e.mc_runs })

unfoldable pub start_s7 : (Part → Bool) → Running → Running → Started
start_s7 starts e r =
    if e.s7_runs && not (starts s7)
    then returned 1 (record r { modbus_runs = stop_if e.modbus_runs r.modbus_runs })
    else start_mc starts e (record r { s7_runs = e.s7_runs })

unfoldable pub start_modbus : (Part → Bool) → Running → Running → Started
start_modbus starts e r =
    if e.modbus_runs && not (starts modbus)
    then returned 1 r
    else start_s7 starts e (record r { modbus_runs = e.modbus_runs })

-- `main` up to its idle loop.
unfoldable pub start_all : (Text → Bool) → (Part → Bool) → Options → Started
start_all loads starts o =
    if loads o.lib_path
    then start_modbus starts (enabled_parts o.protocols_str) nothing
    else returned 1 nothing
