-- ===== src/Loader.antt =====
-- core/PlcLoader.cpp: the bindings between the memory and the variables of the logic library, and
-- their copies before and after each scan. The library is loaded by `dlopen`; its `dlsym` is the
-- parameter of `resolve_bindings`.
pub mod Copies
pub mod Kept
pub mod Delivery
pub mod Lost
pub mod Library
pub mod Bindings
use v_plc_runtime.Shared.{
  ℕ, zero, suc, ◌+◌, ◌*◌, ◌/◌, ◌%◌, Bool, true, false, not, ◌&&◌, ◌||◌, List, [], ◌∷◌, ◌++◌, Option,
  none, some, ◌==◌, ltb, if◌then◌else◌, Text, codes, of_bool,
}
use v_plc_runtime.Memory.{
  PlcMemory, coils_area, discrete_inputs_area, input_registers_area, holding_registers_area,
  read_bit, write_bit, read_word, write_word,
}
use v_plc_runtime.Memory.Sync.{sync_mappings}

-- `VarBinding::Type`
pub data BindingType : Type 0 where
  discrete_input : BindingType
  coil : BindingType
  input_register : BindingType
  holding_register : BindingType

-- `VarBinding`, with the value of the variable that `sym_ptr` points to in the place of the pointer:
-- two bindings have two names, so two variables.
pub record VarBinding : Type 0 where
  pub type : BindingType
  pub plc_address : ℕ
  pub value : ℕ
  pub name : Text

-- The digits of a number, as `ss << i` prints it; a 16-bit number has at most five.
unfoldable pub digits : ℕ → ℕ → Text
digits zero n = []
digits (suc fuel) n =
    let rest = digits fuel (n / 10) in
    if ltb n 10 then (b'0' + n) ∷ [] else rest ++ ((b'0' + n % 10) ∷ [])

-- One of the four loops, over `left` addresses from `i` on.
unfoldable pub resolve_kind : (Text → Option ℕ) → BindingType → Text → ℕ → ℕ → List VarBinding
resolve_kind dlsym type prefix i zero = []
resolve_kind dlsym type prefix i (suc left) =
    bind_symbol (dlsym (prefix ++ digits 5 i)) (resolve_kind dlsym type prefix (i + 1) left)
  where
    bind_symbol : Option ℕ → List VarBinding → List VarBinding
    bind_symbol none rest = rest
    bind_symbol (some v) rest =
        record { type = type; plc_address = i; value = v; name = prefix ++ digits 5 i } ∷ rest

-- `resolveBindings`, where a library is loaded.
unfoldable pub resolve_bindings : (Text → Option ℕ) → List VarBinding
resolve_bindings dlsym =
    resolve_kind dlsym discrete_input (codes "__IX0_") 0 64
    ++ (resolve_kind dlsym coil (codes "__QX0_") 0 64
        ++ (resolve_kind dlsym input_register (codes "__IW") 0 64
            ++ resolve_kind dlsym holding_register (codes "__MW") 0 64))

-- The inputs that the loader takes from the memory.
unfoldable pub is_control : ℕ → Bool
is_control address = (address == 0) || (address == 7)

-- The value that a variable has after the copy to the library.
unfoldable pub input_value : PlcMemory → BindingType → ℕ → ℕ → ℕ
input_value m coil address value =
    if read_bit m discrete_inputs_area 0 then value else of_bool (read_bit m coils_area address)
input_value m discrete_input address value =
    if is_control address then of_bool (read_bit m discrete_inputs_area address) else value
input_value m holding_register address value = read_word m holding_registers_area address
input_value m input_register address value = value

-- The loop of `syncInputsToDll`.
unfoldable pub load_inputs : PlcMemory → List VarBinding → List VarBinding
load_inputs m [] = []
load_inputs m (b ∷ bs) =
    record b { value = input_value m b.type b.plc_address b.value } ∷ load_inputs m bs

-- `syncInputsToDll`
unfoldable pub sync_inputs_to_dll : PlcMemory → List VarBinding → PlcMemory × List VarBinding
sync_inputs_to_dll m bindings = let m' = sync_mappings m in (m', load_inputs m' bindings)

-- The copy of one variable to the memory.
unfoldable pub store_output : PlcMemory → BindingType → ℕ → ℕ → PlcMemory
store_output m discrete_input address value =
    if is_control address then m else write_bit m discrete_inputs_area address (not (value == 0))
store_output m coil address value = write_bit m coils_area address (not (value == 0))
store_output m input_register address value = write_word m input_registers_area address value
store_output m holding_register address value = write_word m holding_registers_area address value

-- The loop of `syncOutputsFromDll`.
unfoldable pub store_outputs : PlcMemory → List VarBinding → PlcMemory
store_outputs m [] = m
store_outputs m (b ∷ bs) = store_outputs (store_output m b.type b.plc_address b.value) bs

-- `syncOutputsFromDll`
unfoldable pub sync_outputs_from_dll : PlcMemory → List VarBinding → PlcMemory
sync_outputs_from_dll m bindings = sync_mappings (store_outputs m bindings)
