-- ===== src/Tests.antt =====
-- Data on which the theorems are applied: a small memory, and rules between its cells.
pub mod Mappings
pub mod Servers
pub mod Devices
pub mod Micro
pub mod Tank
pub mod Trim
pub mod Assembly
pub mod Scheduler
pub mod Program
pub mod Web
pub mod System
pub mod Parts
pub mod Config
use v_plc_runtime.Shared.{Bool, true, false, List, [], ◌∷◌, replicate, codes, ℕ, Text}
use v_plc_runtime.Memory.{MemoryRef, MappingRule, PlcMemory}

abbrev pub tiny : PlcMemory
tiny = record {
  coils = true ∷ false ∷ false ∷ false ∷ [];
  discrete_inputs = false ∷ true ∷ false ∷ false ∷ [];
  s7_pe = [];
  s7_pa = [];
  mc_x = [];
  mc_y = [];
  mc_m = false ∷ false ∷ [];
  mc_l = [];
  mc_b = [];
  mc_f = [];
  mc_sm = [];
  ls_i = [];
  ls_q = [];
  ls_m = false ∷ false ∷ [];
  input_registers = 0 ∷ 0 ∷ [];
  holding_registers = 5 ∷ 6 ∷ 0 ∷ 0 ∷ [];
  s7_db1 = 3 ∷ 4 ∷ [];
  s7_db2 = [];
  mc_d = 0 ∷ 0 ∷ 0 ∷ [];
  mc_w = [];
  mc_r = [];
  mc_zr = [];
  mc_sd = [];
  ls_w = 0 ∷ 0 ∷ [];
  mappings = [];
}

-- Holding registers and MC words
abbrev pub hr : ℕ → MemoryRef
hr i = record { protocol = codes "MODBUS"; area = codes "HR"; index = i; is_bit = false }

abbrev pub coil_ref : ℕ → MemoryRef
coil_ref i = record { protocol = codes "MODBUS"; area = codes "COIL"; index = i; is_bit = true }

abbrev pub mc_d_ref : ℕ → MemoryRef
mc_d_ref i = record { protocol = codes "MC"; area = codes "D"; index = i; is_bit = false }

abbrev pub rule_between : MemoryRef → MemoryRef → MappingRule
rule_between src dst = record {
  src_raw = codes "a";
  dst_raw = codes "b";
  src = src;
  dst = dst;
  last_src_val = 0;
  last_dst_val = 0;
  initialized = false;
}
