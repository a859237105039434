-- ===== src/Tests/Program.antt =====
-- The theorems on the start of the program and on its keys, applied.
use v_plc_runtime.Shared.{ℕ, Bool, true, false, List, [], ◌∷◌, Text, codes}
use v_plc_runtime.Startup.{Options, Part, mc, start_all, enabled_parts}
use v_plc_runtime.Startup.Cleanup.{AllOrNothing, start_all-AllOrNothing}
use v_plc_runtime.Tui.{Console, input_loop}
use v_plc_runtime.Tui.Keys.{IsKeyed, input_loop-IsKeyed}
use v_plc_runtime.Tests.{tiny}

abbrev given : Options
given = record {
  lib_path = [];
  mqtt_broker = [];
  protocols_str = codes "modbus,mc";
  port_offset = 0;
  web_port = 8080;
  manual_mode = false;
}

-- All parts start but the MELSEC server.
abbrev all_but_mc : Part → Bool
all_but_mc part = elim part [ mc ↦ false | _ ↦ true ]

abbrev loaded : Text → Bool
loaded path = true

start_all-AllOrNothing_example :
    AllOrNothing (enabled_parts (codes "modbus,mc")) (start_all loaded all_but_mc given)
start_all-AllOrNothing_example = start_all-AllOrNothing loaded all_but_mc given

abbrev console : Console
console = record { memory = tiny; is_running = true }

-- Twice up, once down, the mode, and the end.
abbrev keys : List ℕ
keys = b'a' ∷ b'A' ∷ b'z' ∷ b'i' ∷ b'q' ∷ b'a' ∷ []

input_loop-IsKeyed_example :
    IsKeyed
      (codes "./libmock_logic.so")
      console
      (input_loop (codes "./libmock_logic.so") keys console)
input_loop-IsKeyed_example = input_loop-IsKeyed (codes "./libmock_logic.so") keys console
