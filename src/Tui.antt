-- ===== src/Tui.antt =====
-- tui/PlcTui.cpp: the keys of the terminal interface, which act on the memory. The screens are not modelled but for their padding.
pub mod Keys
pub mod Padding
pub mod Kept
use v_plc_runtime.Shared.{
  ℕ, ◌+◌, ◌-◌, Bool, true, false, not, ◌&&◌, ◌||◌, if◌then◌else◌, ◌==◌, leb, List, [], ◌∷◌, Text,
  codes,
}
use v_plc_runtime.Memory.{
  PlcMemory, discrete_inputs_area, holding_registers_area, read_bit, write_bit, read_word,
  write_word,
}

unfoldable pub starts_with : Text → Text → Bool
starts_with [] text = true
starts_with (c ∷ cs) [] = false
starts_with (c ∷ cs) (t ∷ ts) = (c == t) && starts_with cs ts

-- `text.find(part) != std::string::npos`
unfoldable pub contains : Text → Text → Bool
contains part [] = starts_with part []
contains part (t ∷ ts) = starts_with part (t ∷ ts) || contains part ts

-- The trim line, by the path of its library.
unfoldable pub is_trim : Text → Bool
is_trim lib_path = contains (codes "trim") lib_path || contains (codes "final") lib_path

-- What the keys change: the memory, and `is_running_`, which ends the loop and the program.
pub record Console : Type 0 where
  pub memory : PlcMemory
  pub is_running : Bool

unfoldable pub store_register : Console → ℕ → ℕ → Console
store_register s address value = record s {
  memory = write_word s.memory holding_registers_area address value;
}

-- `c == 'i'`
unfoldable pub toggle_auto : Console → Console
toggle_auto s = record s {
  memory =
      write_bit s.memory discrete_inputs_area 0 (not (read_bit s.memory discrete_inputs_area 0));
}

-- `c == 'a'`
unfoldable pub raise_setting : Text → Console → Console
raise_setting lib_path s =
    if is_trim lib_path
    then (let val = read_word s.memory holding_registers_area 3 in
        if leb (val + 50) 1000 then store_register s 3 (val + 50) else s)
    else (let val = read_word s.memory holding_registers_area 1 in
        if leb (val + 50) 1000 then store_register s 1 (val + 50) else store_register s 1 1000)

-- `c == 'z'`
unfoldable pub lower_setting : Text → Console → Console
lower_setting lib_path s =
    if is_trim lib_path
    then (let val = read_word s.memory holding_registers_area 3 in
        if leb 50 val then store_register s 3 (val - 50) else s)
    else (let val = read_word s.memory holding_registers_area 1 in
        if leb 50 val then store_register s 1 (val - 50) else store_register s 1 0)

-- One key.
unfoldable pub handle_key : Text → ℕ → Console → Console
handle_key lib_path c s =
    if (c == b'q') || (c == b'Q')
    then record s { is_running = false }
    else if (c == b'i') || (c == b'I')
    then toggle_auto s
    else if (c == b'a') || (c == b'A')
    then raise_setting lib_path s
    else if (c == b'z') || (c == b'Z')
    then lower_setting lib_path s
    else s

-- `inputLoop`, over the keys that are pressed.
unfoldable pub input_loop : Text → List ℕ → Console → Console
input_loop lib_path [] s = s
input_loop lib_path (c ∷ cs) s =
    let rest = input_loop lib_path cs (handle_key lib_path c s) in if s.is_running then rest else s
