-- ===== src/Memory/Kept.antt =====
-- What every operation on the memory keeps: the sizes of its vectors, and words below 2 ^ 16.
use v_plc_runtime.Shared.{ℕ, ◌^◌, ◌<◌, Bool, List, Option, none, some}
use v_plc_runtime.Memory.{
  PlcMemory, MemoryRef, MappingRule, BitArea, WordArea, write_bit, write_word, write_named_bit,
}
use v_plc_runtime.Memory.Shape.{
  IsKept, IsKept-refl, IsKept-trans, write_bit-SameShape, write_bit-IsValid, write_word-SameShape,
  write_word-IsValid,
}
use v_plc_runtime.Memory.Values.{write_value}
use v_plc_runtime.Memory.CellInvariants.{write_value-SameShape, write_value-IsValid}
use v_plc_runtime.Memory.Load.{
  MappingsFile, not_opened, bad_document, document, load_items, install, load_mappings,
}
use v_plc_runtime.Memory.Sync.{sync_rules, sync_mappings}
use v_plc_runtime.Memory.Passes.{sync_rules-SameShape, sync_rules-IsValid}
use v_plc_runtime.Memory.Repeat.{bits_of_mappings, words_of_mappings}

pub write_bit-IsKept :
    (m : PlcMemory) (a : BitArea) (i : ℕ) (v : Bool) → IsKept m (write_bit m a i v)
write_bit-IsKept m a i v = record {
  shape = write_bit-SameShape m a i v;
  valid = write_bit-IsValid m a i v;
}

pub write_word-IsKept :
    (m : PlcMemory) (a : WordArea) (i v : ℕ) → v < 2 ^ 16 → IsKept m (write_word m a i v)
write_word-IsKept m a i v fits = record {
  shape = write_word-SameShape m a i v;
  valid = λ h. write_word-IsValid m a i v h fits;
}

pub write_value-IsKept :
    (m : PlcMemory) (r : MemoryRef) (v : ℕ) → v < 2 ^ 16 → IsKept m (write_value m r v)
write_value-IsKept m r v fits = record {
  shape = write_value-SameShape m r v;
  valid = λ h. write_value-IsValid m r v h fits;
}

-- The rules are no part of what is kept.
with_mappings-IsKept :
    (m : PlcMemory) (rules : List MappingRule) → IsKept m (record m { mappings = rules })
with_mappings-IsKept m rules = record {
  shape = record {
    bit_sizes = λ a. rw (bits_of_mappings m rules a);
    word_sizes = λ a. rw (words_of_mappings m rules a);
  };
  valid = λ h. record { in_range = λ a. rw (words_of_mappings m rules a) (h.in_range a) };
}

pub sync_mappings-IsKept : (m : PlcMemory) → IsKept m (sync_mappings m)
unfolding sync_mappings
sync_mappings-IsKept m =
    let pass : IsKept m (sync_rules m m.mappings).0 = record {
      shape = sync_rules-SameShape m m.mappings;
      valid = sync_rules-IsValid m m.mappings;
    } in
    IsKept-trans pass (with_mappings-IsKept (sync_rules m m.mappings).0 (sync_rules m m.mappings).1)

install-IsKept : (m : PlcMemory) (rules : Option (List MappingRule)) → IsKept m (install m rules).0
unfolding install
install-IsKept m none = IsKept-refl m
install-IsKept m (some rules) = with_mappings-IsKept m rules

pub load_mappings-IsKept : (m : PlcMemory) (file : MappingsFile) → IsKept m (load_mappings m file).0
unfolding load_mappings
load_mappings-IsKept m not_opened = IsKept-refl m
load_mappings-IsKept m bad_document = IsKept-refl m
load_mappings-IsKept m (document items) = install-IsKept m (load_items items)

-- A name that is no area is ignored.
pub write_named_bit-IsKept :
    (m : PlcMemory) (o : Option BitArea) (i : ℕ) (v : Bool) → IsKept m (write_named_bit m o i v)
unfolding write_named_bit
write_named_bit-IsKept m none i v = IsKept-refl m
write_named_bit-IsKept m (some a) i v = write_bit-IsKept m a i v
