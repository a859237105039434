-- ===== src/Loader/Kept.antt =====
-- The copies of the loader keep the memory's invariant, where the variables hold words.
use v_plc_runtime.Shared.{ℕ, ◌==◌, not, List, [], ◌∷◌, All, IsWord, either_branch, arith}
use v_plc_runtime.Memory.{
  PlcMemory, coils_area, discrete_inputs_area, input_registers_area, holding_registers_area,
  read_bit,
}
use v_plc_runtime.Memory.Shape.{IsKept, IsKept-refl, IsKept-trans, IsValid, read_word-lt}
use v_plc_runtime.Memory.Kept.{write_bit-IsKept, write_word-IsKept, sync_mappings-IsKept}
use v_plc_runtime.Memory.Sync.{sync_mappings}
use v_plc_runtime.Loader.{
  BindingType, discrete_input, coil, input_register, holding_register, VarBinding, is_control,
  input_value, load_inputs, sync_inputs_to_dll, store_output, store_outputs, sync_outputs_from_dll,
}

abbrev pub HoldsWord : VarBinding → Type 0
HoldsWord b = IsWord b.value

store_output-IsKept :
    (m : PlcMemory) (type : BindingType) (address value : ℕ)
    → IsWord value
    → IsKept m (store_output m type address value)
unfolding store_output
store_output-IsKept m discrete_input address value h =
    either_branch (IsKept m) (is_control address) _ _ (λ _. IsKept-refl m)
      (λ _. write_bit-IsKept m discrete_inputs_area address (not (value == 0)))
store_output-IsKept m coil address value h =
    write_bit-IsKept m coils_area address (not (value == 0))
store_output-IsKept m input_register address value h =
    write_word-IsKept m input_registers_area address value h
store_output-IsKept m holding_register address value h =
    write_word-IsKept m holding_registers_area address value h

pub store_outputs-IsKept :
    (m : PlcMemory) (bs : List VarBinding) → All HoldsWord bs → IsKept m (store_outputs m bs)
unfolding store_outputs
store_outputs-IsKept m [] h = IsKept-refl m
store_outputs-IsKept m (b ∷ bs) h =
    IsKept-trans (store_output-IsKept m b.type b.plc_address b.value h.0)
      (store_outputs-IsKept (store_output m b.type b.plc_address b.value) bs h.1)

pub sync_outputs_from_dll-IsKept :
    (m : PlcMemory) (bs : List VarBinding)
    → All HoldsWord bs
    → IsKept m (sync_outputs_from_dll m bs)
unfolding sync_outputs_from_dll
sync_outputs_from_dll-IsKept m bs h =
    IsKept-trans (store_outputs-IsKept m bs h) (sync_mappings-IsKept (store_outputs m bs))

pub sync_inputs_to_dll-IsKept :
    (m : PlcMemory) (bs : List VarBinding) → IsKept m (sync_inputs_to_dll m bs).0
unfolding sync_inputs_to_dll
sync_inputs_to_dll-IsKept m bs = sync_mappings-IsKept m

input_value-IsWord :
    (m : PlcMemory) (type : BindingType) (address value : ℕ)
    → IsValid m
    → IsWord value
    → IsWord (input_value m type address value)
unfolding input_value
input_value-IsWord m discrete_input address value v h =
    either_branch IsWord (is_control address) _ _ (λ _. ground arith) (λ _. h)
input_value-IsWord m coil address value v h =
    either_branch IsWord (read_bit m discrete_inputs_area 0) _ _ (λ _. h) (λ _. ground arith)
input_value-IsWord m input_register address value v h = h
input_value-IsWord m holding_register address value v h =
    read_word-lt m holding_registers_area address v

load_inputs-HoldsWord :
    (m : PlcMemory) (bs : List VarBinding)
    → IsValid m
    → All HoldsWord bs
    → All HoldsWord (load_inputs m bs)
unfolding load_inputs
load_inputs-HoldsWord m [] v h = tt
load_inputs-HoldsWord m (b ∷ bs) v h =
    (input_value-IsWord m b.type b.plc_address b.value v h.0, load_inputs-HoldsWord m bs v h.1)

pub sync_inputs_to_dll-HoldsWord :
    (m : PlcMemory) (bs : List VarBinding)
    → IsValid m
    → All HoldsWord bs
    → All HoldsWord (sync_inputs_to_dll m bs).1
unfolding sync_inputs_to_dll
sync_inputs_to_dll-HoldsWord m bs v h =
    load_inputs-HoldsWord (sync_mappings m) bs ((sync_mappings-IsKept m).valid v) h
