-- ===== src/Loader/Delivery.antt =====
-- What the copies of the loader do with a register that a mapping feeds.
use v_plc_runtime.Shared.{
  ℕ, ◌≡◌, ◌≢◌, refl, ◌∙◌, sym, ap, Bool, true, false, not, ◌&&◌, ◌||◌, Text, ◌==◌, List, [], ◌∷◌,
  Option, none, some, get_elem?, All, Allows, get_elem?-Allows, subst, either_branch, if◌then◌else◌,
  inl, inr, Bool-cases, arith,
}
use v_plc_runtime.Memory.{
  PlcMemory, MemoryRef, MappingRule, coils_area, discrete_inputs_area, input_registers_area,
  holding_registers_area, read_word,
}
use v_plc_runtime.Memory.Lens.{same_bit_area, same_word_area}
use v_plc_runtime.Memory.Values.{read_value}
use v_plc_runtime.Memory.Cells.{
  Cell, bit_cell, word_cell, cell_of, get_cell, put_cell, same_cell, get_cell-put_cell,
  read_value_refines,
}
use v_plc_runtime.Memory.CellInvariants.{mappings-put_cell}
use v_plc_runtime.Memory.Sync.{sync_rules, sync_mappings}
use v_plc_runtime.Memory.Rules.{IsSound, winner}
use v_plc_runtime.Memory.Passes.{Separate, Settled, sync_rules-Settled}
use v_plc_runtime.Memory.Repeat.{read_value_of_mappings}
use v_plc_runtime.Loader.{
  BindingType, discrete_input, coil, input_register, holding_register, VarBinding, is_control,
  input_value, load_inputs, store_output, store_outputs,
}

-- No cell of the areas that the loader writes.
unfoldable pub is_foreign : Option Cell → Bool
is_foreign none = true
is_foreign (some (bit_cell a i)) =
    not (same_bit_area coils_area a) && not (same_bit_area discrete_inputs_area a)
is_foreign (some (word_cell a i)) =
    not (same_word_area input_registers_area a) && not (same_word_area holding_registers_area a)

-- A variable of register `i` holds `v`.
unfoldable pub shows : ℕ → ℕ → VarBinding → Bool
shows i v b = shows_typed b.type
  where
    shows_typed : BindingType → Bool
    shows_typed holding_register = not (b.plc_address == i) || (b.value == v)
    shows_typed discrete_input = true
    shows_typed coil = true
    shows_typed input_register = true

abbrev pub Shows : ℕ → ℕ → VarBinding → Type 0
Shows i v b = shows i v b ≡ true

input_value-Shows :
    (m : PlcMemory) (i v : ℕ) (type : BindingType) (address value : ℕ) (name : Text)
    → read_word m holding_registers_area i ≡ v
    → Shows i v (record {
      type = type;
      plc_address = address;
      value = input_value m type address value;
      name = name;
    })
unfolding shows input_value
input_value-Shows m i v holding_register address value name e = ground arith
input_value-Shows m i v discrete_input address value name e = refl
input_value-Shows m i v coil address value name e = refl
input_value-Shows m i v input_register address value name e = refl

pub load_inputs-Shows :
    (m : PlcMemory) (bs : List VarBinding) (i v : ℕ)
    → read_word m holding_registers_area i ≡ v
    → All (Shows i v) (load_inputs m bs)
unfolding load_inputs
load_inputs-Shows m [] i v e = tt
load_inputs-Shows m (b ∷ bs) i v e =
    (input_value-Shows m i v b.type b.plc_address b.value b.name e, load_inputs-Shows m bs i v e)

-- What the copy of a variable writes.
unfoldable target_of : BindingType → ℕ → Option Cell
target_of discrete_input address =
    if is_control address then none else some (bit_cell discrete_inputs_area address)
target_of coil address = some (bit_cell coils_area address)
target_of input_register address = some (word_cell input_registers_area address)
target_of holding_register address = some (word_cell holding_registers_area address)

store_output_refines :
    (m : PlcMemory) (type : BindingType) (address value : ℕ)
    → store_output m type address value ≡ put_cell m (target_of type address) value
unfolding store_output target_of put_cell
store_output_refines m discrete_input address value = elim (Bool-cases (is_control address)) [
  | inl e ↦ rw e refl
  | inr e ↦ rw e refl
]
store_output_refines m coil address value = refl
store_output_refines m input_register address value = refl
store_output_refines m holding_register address value = refl

target_of_foreign :
    (type : BindingType) (address : ℕ) (c : Option Cell)
    → is_foreign c ≡ true
    → same_cell (target_of type address) c ≡ false
unfolding target_of same_cell is_foreign
target_of_foreign discrete_input address c f =
    either_branch (λ o. same_cell o c ≡ false) (is_control address) _ _ (λ _. refl) (λ _. apart c f)
  where
    apart :
        (c : Option Cell)
        → is_foreign c ≡ true
        → same_cell (some (bit_cell discrete_inputs_area address)) c ≡ false
    apart none f = refl
    apart (some (bit_cell a i)) f = ground arith
    apart (some (word_cell a i)) f = refl
target_of_foreign coil address none f = refl
target_of_foreign coil address (some (bit_cell a i)) f = ground arith
target_of_foreign coil address (some (word_cell a i)) f = refl
target_of_foreign input_register address none f = refl
target_of_foreign input_register address (some (bit_cell a i)) f = refl
target_of_foreign input_register address (some (word_cell a i)) f = ground arith
target_of_foreign holding_register address none f = refl
target_of_foreign holding_register address (some (bit_cell a i)) f = refl
target_of_foreign holding_register address (some (word_cell a i)) f = ground arith

pub read_value-store_outputs_foreign :
    (m : PlcMemory) (bs : List VarBinding) (q : MemoryRef)
    → is_foreign (cell_of q) ≡ true
    → read_value (store_outputs m bs) q ≡ read_value m q
unfolding store_outputs
read_value-store_outputs_foreign m [] q f = refl
read_value-store_outputs_foreign m (b ∷ bs) q f =
    let n : PlcMemory = store_output m b.type b.plc_address b.value in
    read_value-store_outputs_foreign n bs q f
    ∙ (rw
        (
          store_output_refines m b.type b.plc_address b.value,
          read_value_refines (put_cell m (target_of b.type b.plc_address) b.value) q,
          get_cell-put_cell m (target_of b.type b.plc_address) (cell_of q) b.value,
          target_of_foreign b.type b.plc_address (cell_of q) f,
        )
        (sym (read_value_refines m q)))

pub mappings-store_outputs :
    (m : PlcMemory) (bs : List VarBinding) → (store_outputs m bs).mappings ≡ m.mappings
unfolding store_outputs
mappings-store_outputs m [] = refl
mappings-store_outputs m (b ∷ bs) =
    let n : PlcMemory = store_output m b.type b.plc_address b.value in
    mappings-store_outputs n bs
    ∙ (rw (store_output_refines m b.type b.plc_address b.value)
        (mappings-put_cell m (target_of b.type b.plc_address) b.value))

-- A pass brings the source of a rule to its destination, where the source has changed since the last pass.
module _ (m : PlcMemory) (k i : ℕ) (rule : MappingRule) (sound : All (IsSound m) m.mappings)
    (apart : Separate m.mappings) (present : get_elem? m.mappings k ≡ some rule)
    (register : cell_of rule.dst ≡ some (word_cell holding_registers_area i))
    (changed : read_value m rule.src ≢ rule.last_src_val) where
  pub read_word-sync_mappings :
      read_word (sync_mappings m) holding_registers_area i ≡ read_value m rule.src
  unfolding sync_mappings winner get_cell
  read_word-sync_mappings =
      let n : PlcMemory = (sync_rules m m.mappings).0 in
      let rs : List MappingRule = (sync_rules m m.mappings).1 in
      let settled : Settled m n rule = subst (Allows (Settled m n)) present (
        get_elem?-Allows (Settled m n) m.mappings k
          (sync_rules-Settled m m.mappings sound apart)) in
      let wins : winner m rule ≡ read_value m rule.src = ground arith in
      let here : read_value (record n { mappings = rs }) rule.dst
          ≡ read_word (record n { mappings = rs }) holding_registers_area i =
        read_value_refines (record n { mappings = rs }) rule.dst
        ∙ ap (get_cell (record n { mappings = rs })) register in
      sym here ∙ (read_value_of_mappings n rs rule.dst ∙ (settled.1 ∙ wins))
