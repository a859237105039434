-- ===== src/Tags.antt =====
-- core/PlcTagManager.cpp: named cells of the memory. The configuration file is given parsed, as a
-- list of items.
pub mod Names
pub mod Config
pub mod File
pub mod Kept
use v_plc_runtime.Shared.{
  ℕ, zero, suc, Bool, true, false, ◌&&◌, ◌||◌, List, [], ◌∷◌, ◌++◌, Option, none, some, leb,
  if◌then◌else◌, length, Text, codes, text_eq, stoi, int_u16, ℤ,
}
use v_plc_runtime.Memory.{
  PlcMemory, coils_area, discrete_inputs_area, input_registers_area, holding_registers_area, bits,
  words, read_bit, write_bit, read_word, write_word,
}
use v_plc_runtime.Loader.{digits}

-- `struct PlcTag`
pub record PlcTag : Type 0 where
  pub name : Text
  pub area : Text
  pub address : ℕ
  pub type : Text
  pub description : Text

-- `std::find_if` by the name.
unfoldable pub find_tag : List PlcTag → Text → Option PlcTag
find_tag [] name = none
find_tag (t ∷ tags) name =
    let rest = find_tag tags name in if text_eq t.name name then some t else rest

unfoldable pub is_some : Option PlcTag → Bool
is_some none = false
is_some (some t) = true

-- `hasTag`
unfoldable pub has_tag : List PlcTag → Text → Bool
has_tag tags name = is_some (find_tag tags name)

-- The checks of the bounds in `addTag`; an area of another name has none.
unfoldable pub out_of_bounds : PlcMemory → PlcTag → Bool
out_of_bounds m t =
    (text_eq t.area (codes "Coils") && leb (length (bits m coils_area)) t.address)
    || ((text_eq t.area (codes "DiscreteInputs")
          && leb (length (bits m discrete_inputs_area)) t.address)
        || ((text_eq t.area (codes "InputRegisters")
              && leb (length (words m input_registers_area)) t.address)
            || (text_eq t.area (codes "HoldingRegisters")
                && leb (length (words m holding_registers_area)) t.address)))

-- `addTag`
unfoldable pub add_tag : PlcMemory → List PlcTag → PlcTag → List PlcTag × Bool
add_tag m tags tag =
    if has_tag tags tag.name
    then (tags, false)
    else if out_of_bounds m tag
    then (tags, false)
    else (tags ++ (tag ∷ []), true)

-- `tags_.erase(it)` at the first tag of that name.
unfoldable pub erase_tag : List PlcTag → Text → List PlcTag
erase_tag [] name = []
erase_tag (t ∷ tags) name =
    let rest = erase_tag tags name in if text_eq t.name name then tags else t ∷ rest

-- `removeTag`
unfoldable pub remove_tag : List PlcTag → Text → List PlcTag × Bool
remove_tag tags name = if has_tag tags name then (erase_tag tags name, true) else (tags, false)

-- `readTagValue`
unfoldable pub read_tag_value : PlcMemory → PlcTag → Text
read_tag_value m t =
    if text_eq t.area (codes "Coils")
    then (if read_bit m coils_area t.address then codes "1" else codes "0")
    else if text_eq t.area (codes "DiscreteInputs")
    then (if read_bit m discrete_inputs_area t.address then codes "1" else codes "0")
    else if text_eq t.area (codes "InputRegisters")
    then digits 5 (read_word m input_registers_area t.address)
    else if text_eq t.area (codes "HoldingRegisters")
    then digits 5 (read_word m holding_registers_area t.address)
    else codes "0"

unfoldable pub is_on_text : Text → Bool
is_on_text s = text_eq s (codes "1") || (text_eq s (codes "true") || text_eq s (codes "ON"))

-- A number that `std::stoi` refuses leaves the memory as it is.
unfoldable pub store_number : (ℕ → PlcMemory) → PlcMemory → Option ℤ → PlcMemory × Bool
store_number write m none = (m, false)
store_number write m (some n) = (write (int_u16 n), true)

unfoldable pub store_text : PlcMemory → PlcTag → Text → PlcMemory × Bool
store_text m t value =
    if text_eq t.area (codes "Coils")
    then (write_bit m coils_area t.address (is_on_text value), true)
    else if text_eq t.area (codes "DiscreteInputs")
    then (write_bit m discrete_inputs_area t.address (is_on_text value), true)
    else if text_eq t.area (codes "InputRegisters")
    then store_number (write_word m input_registers_area t.address) m (stoi value)
    else if text_eq t.area (codes "HoldingRegisters")
    then store_number (write_word m holding_registers_area t.address) m (stoi value)
    else (m, true)

unfoldable pub store_found : PlcMemory → Option PlcTag → Text → PlcMemory × Bool
store_found m none value = (m, false)
store_found m (some t) value = store_text m t value

-- `writeTagValue`
unfoldable pub write_tag_value : PlcMemory → List PlcTag → Text → Text → PlcMemory × Bool
write_tag_value m tags name value = store_found m (find_tag tags name) value

unfoldable pub is_empty : Text → Bool
is_empty [] = true
is_empty (c ∷ cs) = false

-- The loop of `loadConfig`; an item that throws ends it and keeps the tags before it.
unfoldable pub load_tags : List (Option PlcTag) → List PlcTag × Bool
load_tags [] = ([], true)
load_tags (none ∷ items) = ([], false)
load_tags (some t ∷ items) =
    let (tags, ok) = load_tags items in
    if is_empty t.name || (is_empty t.area || is_empty t.type) then (tags, ok) else (t ∷ tags, ok)
