-- ===== src/Loader/Copies.antt =====
-- What the copies before and after a scan keep.
use v_plc_runtime.Shared.{
  ℕ, zero, suc, ◌≡◌, refl, ◌∙◌, ap, Bool, true, false, not, List, [], ◌∷◌, ◌==◌, get_or, set,
  get_or-set_ne, inl, inr, Bool-cases, arith, of_bool,
}
use v_plc_runtime.Memory.{
  PlcMemory, bits, words, coils_area, discrete_inputs_area, input_registers_area,
  holding_registers_area, read_bit, read_word,
}
use v_plc_runtime.Memory.Lens.{same_bit_area, same_word_area}
use v_plc_runtime.Memory.Laws.{
  read_bit-eq-get_or, read_word-eq-get_or, bits-write_bit, words-write_word, words-write_bit,
  bits-write_word,
}
use v_plc_runtime.Loader.{
  BindingType, discrete_input, coil, input_register, holding_register, VarBinding, is_control,
  input_value, load_inputs, store_output, store_outputs,
}

-- A copy to the memory leaves the two control inputs as they are.
store_output_controls :
    (m : PlcMemory) (type : BindingType) (address value i : ℕ)
    → is_control i ≡ true
    → get_or (bits (store_output m type address value) discrete_inputs_area) i false
      ≡ get_or (bits m discrete_inputs_area) i false
unfolding store_output is_control same_bit_area
store_output_controls m discrete_input address value i h =
    let v : Bool = not (value == 0) in
    ground (
      arith,
      bits-write_bit m discrete_inputs_area discrete_inputs_area address v,
      get_or-set_ne (bits m discrete_inputs_area) address i v false,
    )
store_output_controls m coil address value i h =
    rw (bits-write_bit m coils_area discrete_inputs_area address (not (value == 0)))
store_output_controls m input_register address value i h =
    rw (bits-write_word m input_registers_area discrete_inputs_area address value)
store_output_controls m holding_register address value i h =
    rw (bits-write_word m holding_registers_area discrete_inputs_area address value)

-- Whatever the logic library computes, the copy of its variables to the memory leaves the auto mode switch %IX0.0 and the
-- input %IX0.7 as they are.
pub store_outputs_controls :
    (m : PlcMemory) (bs : List VarBinding) (i : ℕ)
    → is_control i ≡ true
    → get_or (bits (store_outputs m bs) discrete_inputs_area) i false
      ≡ get_or (bits m discrete_inputs_area) i false
unfolding store_outputs
store_outputs_controls m [] i h = refl
store_outputs_controls m (b ∷ bs) i h =
    store_outputs_controls (store_output m b.type b.plc_address b.value) bs i h
    ∙ store_output_controls m b.type b.plc_address b.value i h

-- A cell that is set to what it holds.
set_same : {A : Type 0} (l : List A) (i : ℕ) (d : A) → set l i (get_or l i d) ≡ l
set_same [] i d = refl
set_same (x ∷ l) zero d = refl
set_same (x ∷ l) (suc i) d = ap (λ k. x ∷ k) (set_same l i d)

of_bool_back : (b : Bool) → not (of_bool b == 0) ≡ b
of_bool_back true = refl
of_bool_back false = refl

-- The copies of one variable, to the library from `m` and back to `n`, which agrees with `m` on the
-- coils and the holding registers.
module _ (m : PlcMemory) (manual : get_or (bits m discrete_inputs_area) 0 false ≡ false) where
  bits-store_output-input_value :
      (n : PlcMemory) (type : BindingType) (address value : ℕ)
      → bits n coils_area ≡ bits m coils_area
      → bits (store_output n type address (input_value m type address value)) coils_area
        ≡ bits m coils_area
  unfolding store_output input_value same_bit_area
  bits-store_output-input_value n coil address value e =
      let v : Bool = read_bit m coils_area address in
      let off : read_bit m discrete_inputs_area 0 ≡ false =
        read_bit-eq-get_or m discrete_inputs_area 0 ∙ manual in
      let same : set (bits m coils_area) address v ≡ bits m coils_area =
        ap (set (bits m coils_area) address) (read_bit-eq-get_or m coils_area address)
        ∙ set_same (bits m coils_area) address false in
      rw (off, of_bool_back v, bits-write_bit n coils_area coils_area address v, e) same
  bits-store_output-input_value n discrete_input address value e =
      elim (Bool-cases (is_control address)) [
        | inl c ↦ rw c e
        | inr c ↦
            rw c
              (rw (bits-write_bit n discrete_inputs_area coils_area address (not (value == 0))) e)
      ]
  bits-store_output-input_value n input_register address value e =
      rw (bits-write_word n input_registers_area coils_area address value) e
  bits-store_output-input_value n holding_register address value e =
      rw
        (bits-write_word n holding_registers_area coils_area address
          (read_word m holding_registers_area address))
        e

  words-store_output-input_value :
      (n : PlcMemory) (type : BindingType) (address value : ℕ)
      → words n holding_registers_area ≡ words m holding_registers_area
      → words
          (store_output n type address (input_value m type address value))
          holding_registers_area
        ≡ words m holding_registers_area
  unfolding store_output input_value same_word_area
  words-store_output-input_value n coil address value e =
      words-write_bit n coils_area holding_registers_area address _ ∙ e
  words-store_output-input_value n discrete_input address value e =
      elim (Bool-cases (is_control address)) [
        | inl c ↦ rw c e
        | inr c ↦ rw c (
            rw
              (words-write_bit n discrete_inputs_area holding_registers_area address
                (not (value == 0)))
              e)
      ]
  words-store_output-input_value n input_register address value e =
      rw (words-write_word n input_registers_area holding_registers_area address value) e
  words-store_output-input_value n holding_register address value e =
      let v : ℕ = read_word m holding_registers_area address in
      let same : set (words m holding_registers_area) address v ≡ words m holding_registers_area =
        ap (set (words m holding_registers_area) address)
          (read_word-eq-get_or m holding_registers_area address)
        ∙ set_same (words m holding_registers_area) address 0 in
      rw (words-write_word n holding_registers_area holding_registers_area address v, e) same

  round_trip :
      (n : PlcMemory) (bs : List VarBinding)
      → bits n coils_area ≡ bits m coils_area
      → words n holding_registers_area ≡ words m holding_registers_area
      → (bits (store_outputs n (load_inputs m bs)) coils_area ≡ bits m coils_area)
        × (words (store_outputs n (load_inputs m bs)) holding_registers_area
            ≡ words m holding_registers_area)
  unfolding store_outputs load_inputs
  round_trip n [] e f = (e, f)
  round_trip n (b ∷ bs) e f =
      round_trip (store_output n b.type b.plc_address (input_value m b.type b.plc_address b.value))
        bs (bits-store_output-input_value n b.type b.plc_address b.value e)
        (words-store_output-input_value n b.type b.plc_address b.value f)

-- In manual mode (the switch %IX0.0 is off), where the library leaves its variables alone between
-- the two copying loops, they leave the coils and the holding registers of the memory as before,
-- whatever the bindings. The calls of syncMappings around the loops are left out.
pub manual_copies :
    (m : PlcMemory) (bs : List VarBinding)
    → get_or (bits m discrete_inputs_area) 0 false ≡ false
    → (bits (store_outputs m (load_inputs m bs)) coils_area ≡ bits m coils_area)
      × (words (store_outputs m (load_inputs m bs)) holding_registers_area
          ≡ words m holding_registers_area)
manual_copies m bs manual = round_trip m manual m bs refl refl
