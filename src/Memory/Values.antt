-- ===== src/Memory/Values.antt =====
-- `readValue` and `writeValue` of core/PlcMemory.cpp: access to a cell through a `MemoryRef`.
use v_plc_runtime.Shared.{ℕ, Bool, not, ◌==◌, if◌then◌else◌, codes, text_eq, of_bool}
use v_plc_runtime.Memory.{
  MemoryRef, PlcMemory, coils_area, discrete_inputs_area, s7_pe_area, s7_pa_area,
  input_registers_area, holding_registers_area, s7_db1_area, s7_db2_area, read_bit, read_word,
  write_bit, write_word, read_mc_bit, write_mc_bit, read_mc_word, write_mc_word, read_ls_bit,
  write_ls_bit, read_ls_word, write_ls_word,
}

-- The branch of each protocol.
unfoldable pub read_modbus_value : PlcMemory → MemoryRef → ℕ
read_modbus_value m ref =
    if text_eq ref.area (codes "COIL")
    then of_bool (read_bit m coils_area ref.index)
    else if text_eq ref.area (codes "DI")
    then of_bool (read_bit m discrete_inputs_area ref.index)
    else if text_eq ref.area (codes "IR")
    then read_word m input_registers_area ref.index
    else if text_eq ref.area (codes "HR")
    then read_word m holding_registers_area ref.index
    else 0

unfoldable pub read_s7_value : PlcMemory → MemoryRef → ℕ
read_s7_value m ref =
    if text_eq ref.area (codes "PE")
    then of_bool (read_bit m s7_pe_area ref.index)
    else if text_eq ref.area (codes "PA")
    then of_bool (read_bit m s7_pa_area ref.index)
    else if text_eq ref.area (codes "DB1")
    then read_word m s7_db1_area ref.index
    else if text_eq ref.area (codes "DB2")
    then read_word m s7_db2_area ref.index
    else 0

unfoldable pub read_mc_value : PlcMemory → MemoryRef → ℕ
read_mc_value m ref =
    if ref.is_bit
    then of_bool (read_mc_bit m ref.area ref.index)
    else read_mc_word m ref.area ref.index

unfoldable pub read_ls_value : PlcMemory → MemoryRef → ℕ
read_ls_value m ref =
    if ref.is_bit then of_bool (read_ls_bit m ref.area ref.index) else read_ls_word m ref.index

unfoldable pub read_value : PlcMemory → MemoryRef → ℕ
read_value m ref =
    if text_eq ref.protocol (codes "MODBUS")
    then read_modbus_value m ref
    else if text_eq ref.protocol (codes "S7")
    then read_s7_value m ref
    else if text_eq ref.protocol (codes "MC")
    then read_mc_value m ref
    else if text_eq ref.protocol (codes "LS")
    then read_ls_value m ref
    else 0

-- `value != 0`
abbrev pub is_on : ℕ → Bool
is_on value = not (value == 0)

unfoldable pub write_modbus_value : PlcMemory → MemoryRef → ℕ → PlcMemory
write_modbus_value m ref value =
    if text_eq ref.area (codes "COIL")
    then write_bit m coils_area ref.index (is_on value)
    else if text_eq ref.area (codes "DI")
    then write_bit m discrete_inputs_area ref.index (is_on value)
    else if text_eq ref.area (codes "IR")
    then write_word m input_registers_area ref.index value
    else if text_eq ref.area (codes "HR")
    then write_word m holding_registers_area ref.index value
    else m

unfoldable pub write_s7_value : PlcMemory → MemoryRef → ℕ → PlcMemory
write_s7_value m ref value =
    if text_eq ref.area (codes "PE")
    then write_bit m s7_pe_area ref.index (is_on value)
    else if text_eq ref.area (codes "PA")
    then write_bit m s7_pa_area ref.index (is_on value)
    else if text_eq ref.area (codes "DB1")
    then write_word m s7_db1_area ref.index value
    else if text_eq ref.area (codes "DB2")
    then write_word m s7_db2_area ref.index value
    else m

unfoldable pub write_mc_value : PlcMemory → MemoryRef → ℕ → PlcMemory
write_mc_value m ref value =
    if ref.is_bit
    then write_mc_bit m ref.area ref.index (is_on value)
    else write_mc_word m ref.area ref.index value

unfoldable pub write_ls_value : PlcMemory → MemoryRef → ℕ → PlcMemory
write_ls_value m ref value =
    if ref.is_bit
    then write_ls_bit m ref.area ref.index (is_on value)
    else write_ls_word m ref.index value

unfoldable pub write_value : PlcMemory → MemoryRef → ℕ → PlcMemory
write_value m ref value =
    if text_eq ref.protocol (codes "MODBUS")
    then write_modbus_value m ref value
    else if text_eq ref.protocol (codes "S7")
    then write_s7_value m ref value
    else if text_eq ref.protocol (codes "MC")
    then write_mc_value m ref value
    else if text_eq ref.protocol (codes "LS")
    then write_ls_value m ref value
    else m
