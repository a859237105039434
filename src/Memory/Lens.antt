-- ===== src/Memory/Lens.antt =====
-- The areas are separate: replacing one vector leaves every other as it was.
use v_plc_runtime.Shared.{ℕ, Bool, true, List, ◌==◌, ◌≡◌, refl, if◌then◌else◌}
use v_plc_runtime.Memory.{
  PlcMemory, BitArea, WordArea, bits, words, with_bits, with_words, coils_area,
  discrete_inputs_area, s7_pe_area, s7_pa_area, mc_x_area, mc_y_area, mc_m_area, mc_l_area,
  mc_b_area, mc_f_area, mc_sm_area, ls_i_area, ls_q_area, ls_m_area, input_registers_area,
  holding_registers_area, s7_db1_area, s7_db2_area, mc_d_area, mc_w_area, mc_r_area, mc_zr_area,
  mc_sd_area, ls_w_area,
}

-- The number of an area, to compare areas by.
abbrev pub bit_number : BitArea → ℕ
bit_number coils_area = 0
bit_number discrete_inputs_area = 1
bit_number s7_pe_area = 2
bit_number s7_pa_area = 3
bit_number mc_x_area = 4
bit_number mc_y_area = 5
bit_number mc_m_area = 6
bit_number mc_l_area = 7
bit_number mc_b_area = 8
bit_number mc_f_area = 9
bit_number mc_sm_area = 10
bit_number ls_i_area = 11
bit_number ls_q_area = 12
bit_number ls_m_area = 13

abbrev pub word_number : WordArea → ℕ
word_number input_registers_area = 0
word_number holding_registers_area = 1
word_number s7_db1_area = 2
word_number s7_db2_area = 3
word_number mc_d_area = 4
word_number mc_w_area = 5
word_number mc_r_area = 6
word_number mc_zr_area = 7
word_number mc_sd_area = 8
word_number ls_w_area = 9

unfoldable pub same_bit_area : BitArea → BitArea → Bool
same_bit_area a b = bit_number a == bit_number b

unfoldable pub same_word_area : WordArea → WordArea → Bool
same_word_area a b = word_number a == word_number b

pub bits-with_bits :
    (a b : BitArea) (m : PlcMemory) (l : List Bool)
    → bits (with_bits m a l) b ≡ (if same_bit_area a b then l else bits m b)
unfolding bits with_bits same_bit_area
bits-with_bits coils_area coils_area m l = refl
bits-with_bits discrete_inputs_area discrete_inputs_area m l = refl
bits-with_bits s7_pe_area s7_pe_area m l = refl
bits-with_bits s7_pa_area s7_pa_area m l = refl
bits-with_bits mc_x_area mc_x_area m l = refl
bits-with_bits mc_y_area mc_y_area m l = refl
bits-with_bits mc_m_area mc_m_area m l = refl
bits-with_bits mc_l_area mc_l_area m l = refl
bits-with_bits mc_b_area mc_b_area m l = refl
bits-with_bits mc_f_area mc_f_area m l = refl
bits-with_bits mc_sm_area mc_sm_area m l = refl
bits-with_bits ls_i_area ls_i_area m l = refl
bits-with_bits ls_q_area ls_q_area m l = refl
bits-with_bits ls_m_area ls_m_area m l = refl
bits-with_bits coils_area _ m l = refl
bits-with_bits discrete_inputs_area _ m l = refl
bits-with_bits s7_pe_area _ m l = refl
bits-with_bits s7_pa_area _ m l = refl
bits-with_bits mc_x_area _ m l = refl
bits-with_bits mc_y_area _ m l = refl
bits-with_bits mc_m_area _ m l = refl
bits-with_bits mc_l_area _ m l = refl
bits-with_bits mc_b_area _ m l = refl
bits-with_bits mc_f_area _ m l = refl
bits-with_bits mc_sm_area _ m l = refl
bits-with_bits ls_i_area _ m l = refl
bits-with_bits ls_q_area _ m l = refl
bits-with_bits ls_m_area _ m l = refl

pub words-with_words :
    (a b : WordArea) (m : PlcMemory) (l : List ℕ)
    → words (with_words m a l) b ≡ (if same_word_area a b then l else words m b)
unfolding words with_words same_word_area
words-with_words input_registers_area input_registers_area m l = refl
words-with_words holding_registers_area holding_registers_area m l = refl
words-with_words s7_db1_area s7_db1_area m l = refl
words-with_words s7_db2_area s7_db2_area m l = refl
words-with_words mc_d_area mc_d_area m l = refl
words-with_words mc_w_area mc_w_area m l = refl
words-with_words mc_r_area mc_r_area m l = refl
words-with_words mc_zr_area mc_zr_area m l = refl
words-with_words mc_sd_area mc_sd_area m l = refl
words-with_words ls_w_area ls_w_area m l = refl
words-with_words input_registers_area _ m l = refl
words-with_words holding_registers_area _ m l = refl
words-with_words s7_db1_area _ m l = refl
words-with_words s7_db2_area _ m l = refl
words-with_words mc_d_area _ m l = refl
words-with_words mc_w_area _ m l = refl
words-with_words mc_r_area _ m l = refl
words-with_words mc_zr_area _ m l = refl
words-with_words mc_sd_area _ m l = refl
words-with_words ls_w_area _ m l = refl

pub words-with_bits :
    (a : BitArea) (b : WordArea) (m : PlcMemory) (l : List Bool)
    → words (with_bits m a l) b ≡ words m b
unfolding words with_bits
words-with_bits coils_area input_registers_area m l = refl
words-with_bits discrete_inputs_area input_registers_area m l = refl
words-with_bits s7_pe_area input_registers_area m l = refl
words-with_bits s7_pa_area input_registers_area m l = refl
words-with_bits mc_x_area input_registers_area m l = refl
words-with_bits mc_y_area input_registers_area m l = refl
words-with_bits mc_m_area input_registers_area m l = refl
words-with_bits mc_l_area input_registers_area m l = refl
words-with_bits mc_b_area input_registers_area m l = refl
words-with_bits mc_f_area input_registers_area m l = refl
words-with_bits mc_sm_area input_registers_area m l = refl
words-with_bits ls_i_area input_registers_area m l = refl
words-with_bits ls_q_area input_registers_area m l = refl
words-with_bits ls_m_area input_registers_area m l = refl
words-with_bits coils_area _ m l = refl
words-with_bits discrete_inputs_area _ m l = refl
words-with_bits s7_pe_area _ m l = refl
words-with_bits s7_pa_area _ m l = refl
words-with_bits mc_x_area _ m l = refl
words-with_bits mc_y_area _ m l = refl
words-with_bits mc_m_area _ m l = refl
words-with_bits mc_l_area _ m l = refl
words-with_bits mc_b_area _ m l = refl
words-with_bits mc_f_area _ m l = refl
words-with_bits mc_sm_area _ m l = refl
words-with_bits ls_i_area _ m l = refl
words-with_bits ls_q_area _ m l = refl
words-with_bits ls_m_area _ m l = refl

pub bits-with_words :
    (a : WordArea) (b : BitArea) (m : PlcMemory) (l : List ℕ) → bits (with_words m a l) b ≡ bits m b
unfolding bits with_words
bits-with_words input_registers_area coils_area m l = refl
bits-with_words holding_registers_area coils_area m l = refl
bits-with_words s7_db1_area coils_area m l = refl
bits-with_words s7_db2_area coils_area m l = refl
bits-with_words mc_d_area coils_area m l = refl
bits-with_words mc_w_area coils_area m l = refl
bits-with_words mc_r_area coils_area m l = refl
bits-with_words mc_zr_area coils_area m l = refl
bits-with_words mc_sd_area coils_area m l = refl
bits-with_words ls_w_area coils_area m l = refl
bits-with_words input_registers_area _ m l = refl
bits-with_words holding_registers_area _ m l = refl
bits-with_words s7_db1_area _ m l = refl
bits-with_words s7_db2_area _ m l = refl
bits-with_words mc_d_area _ m l = refl
bits-with_words mc_w_area _ m l = refl
bits-with_words mc_r_area _ m l = refl
bits-with_words mc_zr_area _ m l = refl
bits-with_words mc_sd_area _ m l = refl
bits-with_words ls_w_area _ m l = refl

pub mappings-with_bits :
    (a : BitArea) (m : PlcMemory) (l : List Bool) → (with_bits m a l).mappings ≡ m.mappings
unfolding with_bits
mappings-with_bits coils_area m l = refl
mappings-with_bits _ m l = refl

pub mappings-with_words :
    (a : WordArea) (m : PlcMemory) (l : List ℕ) → (with_words m a l).mappings ≡ m.mappings
unfolding with_words
mappings-with_words input_registers_area m l = refl
mappings-with_words _ m l = refl

pub same_bit_area_sound : (a b : BitArea) → same_bit_area a b ≡ true → a ≡ b
unfolding same_bit_area
same_bit_area_sound coils_area coils_area h = refl
same_bit_area_sound discrete_inputs_area discrete_inputs_area h = refl
same_bit_area_sound s7_pe_area s7_pe_area h = refl
same_bit_area_sound s7_pa_area s7_pa_area h = refl
same_bit_area_sound mc_x_area mc_x_area h = refl
same_bit_area_sound mc_y_area mc_y_area h = refl
same_bit_area_sound mc_m_area mc_m_area h = refl
same_bit_area_sound mc_l_area mc_l_area h = refl
same_bit_area_sound mc_b_area mc_b_area h = refl
same_bit_area_sound mc_f_area mc_f_area h = refl
same_bit_area_sound mc_sm_area mc_sm_area h = refl
same_bit_area_sound ls_i_area ls_i_area h = refl
same_bit_area_sound ls_q_area ls_q_area h = refl
same_bit_area_sound ls_m_area ls_m_area h = refl
same_bit_area_sound coils_area _ h = cc
same_bit_area_sound discrete_inputs_area _ h = cc
same_bit_area_sound s7_pe_area _ h = cc
same_bit_area_sound s7_pa_area _ h = cc
same_bit_area_sound mc_x_area _ h = cc
same_bit_area_sound mc_y_area _ h = cc
same_bit_area_sound mc_m_area _ h = cc
same_bit_area_sound mc_l_area _ h = cc
same_bit_area_sound mc_b_area _ h = cc
same_bit_area_sound mc_f_area _ h = cc
same_bit_area_sound mc_sm_area _ h = cc
same_bit_area_sound ls_i_area _ h = cc
same_bit_area_sound ls_q_area _ h = cc
same_bit_area_sound ls_m_area _ h = cc

pub same_word_area_sound : (a b : WordArea) → same_word_area a b ≡ true → a ≡ b
unfolding same_word_area
same_word_area_sound input_registers_area input_registers_area h = refl
same_word_area_sound holding_registers_area holding_registers_area h = refl
same_word_area_sound s7_db1_area s7_db1_area h = refl
same_word_area_sound s7_db2_area s7_db2_area h = refl
same_word_area_sound mc_d_area mc_d_area h = refl
same_word_area_sound mc_w_area mc_w_area h = refl
same_word_area_sound mc_r_area mc_r_area h = refl
same_word_area_sound mc_zr_area mc_zr_area h = refl
same_word_area_sound mc_sd_area mc_sd_area h = refl
same_word_area_sound ls_w_area ls_w_area h = refl
same_word_area_sound input_registers_area _ h = cc
same_word_area_sound holding_registers_area _ h = cc
same_word_area_sound s7_db1_area _ h = cc
same_word_area_sound s7_db2_area _ h = cc
same_word_area_sound mc_d_area _ h = cc
same_word_area_sound mc_w_area _ h = cc
same_word_area_sound mc_r_area _ h = cc
same_word_area_sound mc_zr_area _ h = cc
same_word_area_sound mc_sd_area _ h = cc
same_word_area_sound ls_w_area _ h = cc

pub same_bit_area_self : (a : BitArea) → same_bit_area a a ≡ true
unfolding same_bit_area
same_bit_area_self coils_area = refl
same_bit_area_self _ = refl

pub same_word_area_self : (a : WordArea) → same_word_area a a ≡ true
unfolding same_word_area
same_word_area_self input_registers_area = refl
same_word_area_self _ = refl
