-- ===== src/Memory/Areas.antt =====
-- core/PlcMemory.hpp and core/PlcMemory.cpp: the vectors of the class and its constructor. The record
-- has a field for each vector; an area is a name for one of them, through which the operations that
-- the source writes out per vector read and write it.
use v_plc_runtime.Shared.{ℕ, Bool, false, List, [], Text, replicate}

-- `struct MemoryRef`
pub record MemoryRef : Type 0 where
  pub protocol : Text
  pub area : Text
  pub index : ℕ
  pub is_bit : Bool

-- `struct MappingRule`
pub record MappingRule : Type 0 where
  pub src_raw : Text
  pub dst_raw : Text
  pub src : MemoryRef
  pub dst : MemoryRef
  pub last_src_val : ℕ
  pub last_dst_val : ℕ
  pub initialized : Bool

-- `class PlcMemory`; the two mutexes have no field.
pub record PlcMemory : Type 0 where
  pub coils : List Bool
  pub discrete_inputs : List Bool
  pub s7_pe : List Bool
  pub s7_pa : List Bool
  pub mc_x : List Bool
  pub mc_y : List Bool
  pub mc_m : List Bool
  pub mc_l : List Bool
  pub mc_b : List Bool
  pub mc_f : List Bool
  pub mc_sm : List Bool
  pub ls_i : List Bool
  pub ls_q : List Bool
  pub ls_m : List Bool
  pub input_registers : List ℕ
  pub holding_registers : List ℕ
  pub s7_db1 : List ℕ
  pub s7_db2 : List ℕ
  pub mc_d : List ℕ
  pub mc_w : List ℕ
  pub mc_r : List ℕ
  pub mc_zr : List ℕ
  pub mc_sd : List ℕ
  pub ls_w : List ℕ
  pub mappings : List MappingRule

-- The vectors of bits and the vectors of 16-bit words.
pub data BitArea : Type 0 where
  coils_area discrete_inputs_area s7_pe_area s7_pa_area mc_x_area mc_y_area mc_m_area mc_l_area
        mc_b_area mc_f_area mc_sm_area ls_i_area ls_q_area ls_m_area :
      BitArea

pub data WordArea : Type 0 where
  input_registers_area holding_registers_area s7_db1_area s7_db2_area mc_d_area mc_w_area mc_r_area
        mc_zr_area mc_sd_area ls_w_area :
      WordArea

unfoldable pub bits : PlcMemory → BitArea → List Bool
bits m coils_area = m.coils
bits m discrete_inputs_area = m.discrete_inputs
bits m s7_pe_area = m.s7_pe
bits m s7_pa_area = m.s7_pa
bits m mc_x_area = m.mc_x
bits m mc_y_area = m.mc_y
bits m mc_m_area = m.mc_m
bits m mc_l_area = m.mc_l
bits m mc_b_area = m.mc_b
bits m mc_f_area = m.mc_f
bits m mc_sm_area = m.mc_sm
bits m ls_i_area = m.ls_i
bits m ls_q_area = m.ls_q
bits m ls_m_area = m.ls_m

unfoldable pub words : PlcMemory → WordArea → List ℕ
words m input_registers_area = m.input_registers
words m holding_registers_area = m.holding_registers
words m s7_db1_area = m.s7_db1
words m s7_db2_area = m.s7_db2
words m mc_d_area = m.mc_d
words m mc_w_area = m.mc_w
words m mc_r_area = m.mc_r
words m mc_zr_area = m.mc_zr
words m mc_sd_area = m.mc_sd
words m ls_w_area = m.ls_w

-- The memory with one vector replaced.
unfoldable pub with_bits : PlcMemory → BitArea → List Bool → PlcMemory
with_bits m coils_area l = record m { coils = l }
with_bits m discrete_inputs_area l = record m { discrete_inputs = l }
with_bits m s7_pe_area l = record m { s7_pe = l }
with_bits m s7_pa_area l = record m { s7_pa = l }
with_bits m mc_x_area l = record m { mc_x = l }
with_bits m mc_y_area l = record m { mc_y = l }
with_bits m mc_m_area l = record m { mc_m = l }
with_bits m mc_l_area l = record m { mc_l = l }
with_bits m mc_b_area l = record m { mc_b = l }
with_bits m mc_f_area l = record m { mc_f = l }
with_bits m mc_sm_area l = record m { mc_sm = l }
with_bits m ls_i_area l = record m { ls_i = l }
with_bits m ls_q_area l = record m { ls_q = l }
with_bits m ls_m_area l = record m { ls_m = l }

unfoldable pub with_words : PlcMemory → WordArea → List ℕ → PlcMemory
with_words m input_registers_area l = record m { input_registers = l }
with_words m holding_registers_area l = record m { holding_registers = l }
with_words m s7_db1_area l = record m { s7_db1 = l }
with_words m s7_db2_area l = record m { s7_db2 = l }
with_words m mc_d_area l = record m { mc_d = l }
with_words m mc_w_area l = record m { mc_w = l }
with_words m mc_r_area l = record m { mc_r = l }
with_words m mc_zr_area l = record m { mc_zr = l }
with_words m mc_sd_area l = record m { mc_sd = l }
with_words m ls_w_area l = record m { ls_w = l }

-- The constructor, before it loads the mappings file.
unfoldable pub new_memory : ℕ → ℕ → ℕ → ℕ → PlcMemory
new_memory coils_size discrete_inputs_size input_registers_size holding_registers_size = record {
  coils = replicate coils_size false;
  discrete_inputs = replicate discrete_inputs_size false;
  s7_pe = replicate 2048 false;
  s7_pa = replicate 2048 false;
  mc_x = replicate 2048 false;
  mc_y = replicate 2048 false;
  mc_m = replicate 2048 false;
  mc_l = replicate 2048 false;
  mc_b = replicate 2048 false;
  mc_f = replicate 2048 false;
  mc_sm = replicate 2048 false;
  ls_i = replicate 2048 false;
  ls_q = replicate 2048 false;
  ls_m = replicate 2048 false;
  input_registers = replicate input_registers_size 0;
  holding_registers = replicate holding_registers_size 0;
  s7_db1 = replicate 1024 0;
  s7_db2 = replicate 1024 0;
  mc_d = replicate 1024 0;
  mc_w = replicate 1024 0;
  mc_r = replicate 1024 0;
  mc_zr = replicate 1024 0;
  mc_sd = replicate 1024 0;
  ls_w = replicate 1024 0;
  mappings = [];
}
