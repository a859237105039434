-- ===== src/Tests/Config.antt =====
-- The theorems on the configuration file, applied: an item is the list of its assignments, and prints as it is.
use v_plc_runtime.Shared.{
  ℕ, ◌≡◌, refl, sym, true, List, [], ◌∷◌, Option, none, some, Text, codes, text_eq, arith,
}
use v_plc_runtime.Memory.{bits, words}
use v_plc_runtime.Tags.{PlcTag, is_empty, add_tag, has_tag, find_tag, is_some, out_of_bounds}
use v_plc_runtime.Tags.File.{
  Member, text, number, find_member, JsonLibrary, IsJson, IsStorable, write_document, save_config,
  load_config, add_and_save, load_config-save_config, load_config-add_and_save,
}
use v_plc_runtime.Tests.{tiny}

abbrev Object : Type 0
Object = List (Text × Member)

abbrev text_of : Option Member → Text → Option Text
text_of none default = some default
text_of (some (text value)) default = some value
text_of (some (number value)) default = none

abbrev number_of : Option Member → ℕ → Option ℕ
number_of none default = some default
number_of (some (text value)) default = none
number_of (some (number value)) default = some value

abbrev plain : JsonLibrary Object (List Object)
plain = record {
  object = λ members. members;
  text_value = λ item key default. text_of (find_member item key) default;
  number_value = λ item key default. number_of (find_member item key) default;
  dump = λ items. some items;
  blank = [];
  read = λ document. some document;
}

plain-IsJson : IsJson plain
plain-IsJson = record {
  assigned_text = λ members key value default e. rw e refl;
  assigned_number = λ members key value default w e. rw e refl;
  printed = λ items document e. sym e;
}

abbrev level_tag : PlcTag
level_tag = record {
  name = codes "level";
  area = codes "HoldingRegisters";
  address = 1;
  type = codes "UINT16";
  description = [];
}

abbrev lamp_tag : PlcTag
lamp_tag = record {
  name = codes "lamp";
  area = codes "Coils";
  address = 0;
  type = codes "BOOL";
  description = codes "on";
}

level-IsStorable : IsStorable level_tag
level-IsStorable = record { complete = unfold is_empty in refl; address = omega arith }

lamp-IsStorable : IsStorable lamp_tag
lamp-IsStorable = record { complete = unfold is_empty in refl; address = omega arith }

load_config-save_config_example :
    load_config plain [] (save_config plain true (level_tag ∷ lamp_tag ∷ []) none).0
    ≡ (level_tag ∷ lamp_tag ∷ [], true)
load_config-save_config_example =
    load_config-save_config plain plain-IsJson true (level_tag ∷ lamp_tag ∷ []) [] none
      (level-IsStorable, (lamp-IsStorable, tt)) (unfold save_config write_document in refl)

load_config-add_and_save_example :
    load_config plain [] (add_and_save plain true tiny (level_tag ∷ []) lamp_tag none).1
    ≡ (level_tag ∷ lamp_tag ∷ [], true)
load_config-add_and_save_example =
    load_config-add_and_save plain plain-IsJson true tiny (level_tag ∷ []) [] lamp_tag none
      (level-IsStorable, tt) lamp-IsStorable
      (unfold add_tag has_tag find_tag is_some out_of_bounds text_eq bits words in refl)
      (unfold save_config write_document in refl)
