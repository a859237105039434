-- ===== src/Tests/Mappings.antt =====
-- The theorems on the memory, applied.
use v_plc_runtime.Shared.{◌≡◌, refl, false, ◌&&◌, [], ◌∷◌, text_eq, All, if◌then◌else◌}
use v_plc_runtime.Memory.{
  MappingRule, PlcMemory, bits, words, mc_word_area, mc_bit_area, ls_bit_area,
}
use v_plc_runtime.Memory.Values.{read_value, write_value}
use v_plc_runtime.Memory.Cells.{
  cell_of, same_cell, exists, stored, read_value-write_value, some_bit, some_word, modbus_cell,
  mc_cell,
}
use v_plc_runtime.Memory.Lens.{same_bit_area, same_word_area}
use v_plc_runtime.Memory.Rules.{IsSound, same_kind}
use v_plc_runtime.Memory.Sync.{sync_rules, sync_mappings}
use v_plc_runtime.Memory.Passes.{Settled, sync_rules-Settled}
use v_plc_runtime.Memory.Repeat.{sync_mappings_twice}
use v_plc_runtime.Tests.{tiny, hr, mc_d_ref, rule_between}

abbrev copy_rule : MappingRule
copy_rule = rule_between (hr 0) (mc_d_ref 1)

abbrev mapped : PlcMemory
mapped = record tiny { mappings = copy_rule ∷ [] }

copy_rule-IsSound : IsSound mapped copy_rule
unfolding exists cell_of same_kind same_cell same_bit_area same_word_area text_eq modbus_cell
    mc_cell some_bit some_word mc_word_area mc_bit_area ls_bit_area words bits
copy_rule-IsSound = record { src_exists = refl; dst_exists = refl; kinds = refl; apart = refl }

sync_rules-Settled_example :
    All (Settled mapped (sync_rules mapped (copy_rule ∷ [])).0) (copy_rule ∷ [])
sync_rules-Settled_example =
    sync_rules-Settled mapped (copy_rule ∷ []) (copy_rule-IsSound, tt) (tt, tt, tt)

sync_mappings_twice_example : sync_mappings (sync_mappings mapped) ≡ sync_mappings mapped
sync_mappings_twice_example = sync_mappings_twice mapped (copy_rule-IsSound, tt) (tt, tt, tt)

read_value-write_value_example : read_value (write_value tiny (hr 2) 9) (hr 2) ≡ (
    if same_cell (cell_of (hr 2)) (cell_of (hr 2)) && exists tiny (cell_of (hr 2))
    then stored (cell_of (hr 2)) 9
    else read_value tiny (hr 2))
read_value-write_value_example = read_value-write_value tiny (hr 2) (hr 2) 9

avoids_dst : same_cell (cell_of (mc_d_ref 1)) (cell_of (hr 2)) ≡ false
unfolding cell_of same_cell same_bit_area same_word_area text_eq modbus_cell mc_cell some_bit
    some_word mc_word_area mc_bit_area ls_bit_area
avoids_dst = refl
