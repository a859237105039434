-- ===== src/Tags/Kept.antt =====
-- A write of a tag keeps the memory's invariant.
use v_plc_runtime.Shared.{
  ℕ, ◌^◌, ◌<◌, Bool, List, Option, none, some, Text, codes, text_eq, stoi, ℤ, pos, negsuc,
  either_branch, arith,
}
use v_plc_runtime.Memory.{
  PlcMemory, coils_area, discrete_inputs_area, input_registers_area, holding_registers_area,
  write_word,
}
use v_plc_runtime.Memory.Shape.{IsKept, IsKept-refl}
use v_plc_runtime.Memory.Kept.{write_bit-IsKept, write_word-IsKept}
use v_plc_runtime.Tags.{
  PlcTag, find_tag, is_on_text, store_number, store_text, store_found, write_tag_value,
}

abbrev KeptBy : PlcMemory → PlcMemory × Bool → Type 0
KeptBy m out = IsKept m out.0

store_number-KeptBy :
    (m : PlcMemory) (write : ℕ → PlcMemory) (n : Option ℤ)
    → ((v : ℕ) → v < 2 ^ 16 → IsKept m (write v))
    → KeptBy m (store_number write m n)
unfolding store_number
store_number-KeptBy m write none h = IsKept-refl m
store_number-KeptBy m write (some (pos n)) h = h _ (omega arith)
store_number-KeptBy m write (some (negsuc n)) h = h _ (omega arith)

store_text-KeptBy : (m : PlcMemory) (t : PlcTag) (value : Text) → KeptBy m (store_text m t value)
unfolding store_text
store_text-KeptBy m t value =
    either_branch (KeptBy m) (text_eq t.area (codes "Coils")) _ _
      (λ _. write_bit-IsKept m coils_area t.address (is_on_text value))
      (λ _.
        either_branch (KeptBy m) (text_eq t.area (codes "DiscreteInputs")) _ _
          (λ _. write_bit-IsKept m discrete_inputs_area t.address (is_on_text value))
          (λ _.
            either_branch (KeptBy m) (text_eq t.area (codes "InputRegisters")) _ _
              (λ _.
                store_number-KeptBy m (write_word m input_registers_area t.address) (stoi value)
                  (write_word-IsKept m input_registers_area t.address))
              (λ _.
                either_branch (KeptBy m) (text_eq t.area (codes "HoldingRegisters")) _ _
                  (λ _.
                    store_number-KeptBy m (write_word m holding_registers_area t.address)
                      (stoi value) (write_word-IsKept m holding_registers_area t.address))
                  (λ _. IsKept-refl m))))

store_found-KeptBy :
    (m : PlcMemory) (t : Option PlcTag) (value : Text) → KeptBy m (store_found m t value)
unfolding store_found
store_found-KeptBy m none value = IsKept-refl m
store_found-KeptBy m (some t) value = store_text-KeptBy m t value

pub write_tag_value-IsKept :
    (m : PlcMemory) (tags : List PlcTag) (name value : Text)
    → IsKept m (write_tag_value m tags name value).0
unfolding write_tag_value
write_tag_value-IsKept m tags name value = store_found-KeptBy m (find_tag tags name) value
