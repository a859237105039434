-- ===== src/Memory/Sync.antt =====
-- The mapping engine of core/PlcMemory.cpp: `syncMappings`, which runs before and after each scan.
use v_plc_runtime.Shared.{true, not, ◌==◌, List, [], ◌∷◌, if◌then◌else◌}
use v_plc_runtime.Memory.{MappingRule, PlcMemory}
use v_plc_runtime.Memory.Values.{read_value, write_value}

-- The body of the loop, at one rule. Nothing in it throws, so its handler is never entered.
unfoldable pub sync_rule : PlcMemory → MappingRule → PlcMemory × MappingRule
sync_rule m rule =
    let curr_src = read_value m rule.src in
    let curr_dst = read_value m rule.dst in
    if not rule.initialized
    then (if curr_src == curr_dst
        then (
          m,
          record rule { last_src_val = curr_src; last_dst_val = curr_dst; initialized = true },
        )
        else (
          write_value m rule.dst curr_src,
          record rule { last_src_val = curr_src; last_dst_val = curr_src; initialized = true },
        ))
    else if not (curr_src == rule.last_src_val)
    then (
      write_value m rule.dst curr_src,
      record rule { last_src_val = curr_src; last_dst_val = curr_src },
    )
    else if not (curr_dst == rule.last_dst_val)
    then (
      write_value m rule.src curr_dst,
      record rule { last_src_val = curr_dst; last_dst_val = curr_dst },
    )
    else if not (curr_src == curr_dst)
    then (
      write_value m rule.dst curr_src,
      record rule { last_src_val = curr_src; last_dst_val = curr_src },
    )
    else (m, rule)

-- The loop over the rules, in order; each rule is updated in place.
unfoldable pub sync_rules : PlcMemory → List MappingRule → PlcMemory × List MappingRule
sync_rules m [] = (m, [])
sync_rules m (rule ∷ rules) =
    let (m', rule') = sync_rule m rule in
    let (m'', rules') = sync_rules m' rules in (m'', rule' ∷ rules')

unfoldable pub sync_mappings : PlcMemory → PlcMemory
sync_mappings m = let (m', rules) = sync_rules m m.mappings in record m' { mappings = rules }
