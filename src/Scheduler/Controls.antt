-- ===== src/Scheduler/Controls.antt =====
-- The control inputs over the turns of the loop.
use v_plc_runtime.Shared.{
  ℕ, ◌≡◌, refl, ◌∙◌, sym, ◌==◌, true, false, not, List, [], ◌∷◌, get_or, arith,
}
use v_plc_runtime.Memory.{PlcMemory, bits, discrete_inputs_area, read_bit}
use v_plc_runtime.Memory.Laws.{mappings-write_bit, mappings-write_word, read_bit-eq-get_or}
use v_plc_runtime.Memory.Repeat.{sync_mappings_no_rules}
use v_plc_runtime.Loader.{
  BindingType, discrete_input, coil, input_register, holding_register, VarBinding, is_control,
  store_output, store_outputs, sync_inputs_to_dll, sync_outputs_from_dll,
}
use v_plc_runtime.Loader.Copies.{store_outputs_controls}
use v_plc_runtime.Logic.Double.{Double}
use v_plc_runtime.Scheduler.{Cycle, LoopState, turn, boot, turns}

mappings-store_output :
    (m : PlcMemory) (type : BindingType) (address value : ℕ)
    → (store_output m type address value).mappings ≡ m.mappings
unfolding store_output is_control
mappings-store_output m discrete_input address value =
    ground (arith, mappings-write_bit m discrete_inputs_area address (not (value == 0)))
mappings-store_output m coil address value = mappings-write_bit m _ address _
mappings-store_output m input_register address value = mappings-write_word m _ address value
mappings-store_output m holding_register address value = mappings-write_word m _ address value

mappings-store_outputs :
    (m : PlcMemory) (bs : List VarBinding) → (store_outputs m bs).mappings ≡ m.mappings
unfolding store_outputs
mappings-store_outputs m [] = refl
mappings-store_outputs m (b ∷ bs) =
    mappings-store_outputs (store_output m b.type b.plc_address b.value) bs
    ∙ mappings-store_output m b.type b.plc_address b.value

-- No mappings, and a discrete input as it was in `m`.
abbrev IsKept : PlcMemory → ℕ → PlcMemory → Type 0
IsKept m i n =
    (n.mappings ≡ [])
    × (get_or (bits n discrete_inputs_area) i false ≡ get_or (bits m discrete_inputs_area) i false)

sync_outputs_from_dll-IsKept :
    (m : PlcMemory) (bs : List VarBinding) (i : ℕ)
    → is_control i ≡ true
    → m.mappings ≡ []
    → IsKept m i (sync_outputs_from_dll m bs)
unfolding sync_outputs_from_dll
sync_outputs_from_dll-IsKept m bs i h e =
    let empty : (store_outputs m bs).mappings ≡ [] = mappings-store_outputs m bs ∙ e in
    rw (sync_mappings_no_rules (store_outputs m bs) empty) (empty, store_outputs_controls m bs i h)

module _ {F : Type 0} ⦃d : Double F⦄ (target : F) (period : ℕ)
    (init : List VarBinding → List VarBinding) (logic : ℕ → List VarBinding → List VarBinding) where
  turn-IsKept :
      (c : Cycle) (s : LoopState F) (i : ℕ)
      → is_control i ≡ true
      → s.memory.mappings ≡ []
      → IsKept s.memory i (turn target period init logic c s).memory
  unfolding turn sync_inputs_to_dll
  turn-IsKept c s i h e =
      rw (sync_mappings_no_rules s.memory e) (sync_outputs_from_dll-IsKept s.memory _ i h e)

  turns-IsKept :
      (cs : List Cycle) (s : LoopState F) (i : ℕ)
      → is_control i ≡ true
      → s.memory.mappings ≡ []
      → IsKept s.memory i (turns target period init logic cs s).memory
  unfolding turns
  turns-IsKept [] s i h e = (e, refl)
  turns-IsKept (c ∷ cs) s i h e =
      let (k, same) = turn-IsKept c s i h e in
      let (l, kept) = turns-IsKept cs (turn target period init logic c s) i h k in (l, kept ∙ same)

  -- In a memory without mappings, after the start and any turns of the loop, with any logic and any variables, the
  -- control inputs %IX0.0 and %IX0.7 read as they did before.
  pub turns_controls :
      (m : PlcMemory) (bindings : List VarBinding) (start : ℕ) (cs : List Cycle) (i : ℕ)
      → is_control i ≡ true
      → m.mappings ≡ []
      → read_bit
          (turns target period init logic cs
            (boot target period init logic m bindings start)).memory
          discrete_inputs_area
          i
        ≡ read_bit m discrete_inputs_area i
  unfolding boot
  turns_controls m bindings start cs i h e =
      let (k, same) = sync_outputs_from_dll-IsKept m (init bindings) i h e in
      let (_, kept) = turns-IsKept cs (boot target period init logic m bindings start) i h k in
      read_bit-eq-get_or _ discrete_inputs_area i
      ∙ (kept ∙ (same ∙ sym (read_bit-eq-get_or m discrete_inputs_area i)))
