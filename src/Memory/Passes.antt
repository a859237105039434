-- ===== src/Memory/Passes.antt =====
-- A whole pass of `syncMappings` over rules that share no cell.
use v_plc_runtime.Shared.{◌≡◌, refl, ◌∙◌, false, List, [], ◌∷◌, All, arith}
use v_plc_runtime.Memory.{MemoryRef, MappingRule, PlcMemory}
use v_plc_runtime.Memory.Shape.{SameShape, SameShape-refl, SameShape-trans, IsValid}
use v_plc_runtime.Memory.Values.{read_value}
use v_plc_runtime.Memory.Cells.{cell_of, same_cell}
use v_plc_runtime.Memory.CellInvariants.{exists-SameShape}
use v_plc_runtime.Memory.Sync.{sync_rule, sync_rules}
use v_plc_runtime.Memory.Rules.{
  IsSound, winner, same_cell_symm, sync_rule-src, sync_rule-dst, sync_rule_frame,
  sync_rule-SameShape, sync_rule-IsValid,
}

-- No end of the rule is the cell of `q`.
abbrev pub Avoids : MemoryRef → MappingRule → Type 0
Avoids q rule =
    (same_cell (cell_of rule.src) (cell_of q) ≡ false)
    × (same_cell (cell_of rule.dst) (cell_of q) ≡ false)

-- The rules share no cell.
abbrev pub Separate : List MappingRule → Type 0
Separate [] = Unit
Separate (rule ∷ rules) = All (Avoids rule.src) rules × All (Avoids rule.dst) rules × Separate rules

-- In `n` both ends of the rule hold the value that won in `m`.
abbrev pub Settled : PlcMemory → PlcMemory → MappingRule → Type 0
Settled m n rule = (read_value n rule.src ≡ winner m rule) × (read_value n rule.dst ≡ winner m rule)

pub sync_rules_frame :
    (m : PlcMemory) (rules : List MappingRule) (q : MemoryRef)
    → All (Avoids q) rules
    → read_value (sync_rules m rules).0 q ≡ read_value m q
unfolding sync_rules
sync_rules_frame m [] q h = refl
sync_rules_frame m (rule ∷ rules) q h =
    sync_rules_frame (sync_rule m rule).0 rules q h.1 ∙ sync_rule_frame m rule q h.0.0 h.0.1

pub sync_rules-SameShape :
    (m : PlcMemory) (rules : List MappingRule) → SameShape m (sync_rules m rules).0
unfolding sync_rules
sync_rules-SameShape m [] = SameShape-refl m
sync_rules-SameShape m (rule ∷ rules) =
    SameShape-trans (sync_rule-SameShape m rule) (sync_rules-SameShape (sync_rule m rule).0 rules)

pub sync_rules-IsValid :
    (m : PlcMemory) (rules : List MappingRule) → IsValid m → IsValid (sync_rules m rules).0
unfolding sync_rules
sync_rules-IsValid m [] h = h
sync_rules-IsValid m (rule ∷ rules) h =
    sync_rules-IsValid (sync_rule m rule).0 rules (sync_rule-IsValid m rule h)

IsSound-SameShape :
    {m n : PlcMemory} (rule : MappingRule) → SameShape m n → IsSound m rule → IsSound n rule
IsSound-SameShape rule s h = record {
  src_exists = exists-SameShape (cell_of rule.src) s ∙ h.src_exists;
  dst_exists = exists-SameShape (cell_of rule.dst) s ∙ h.dst_exists;
  kinds = h.kinds;
  apart = h.apart;
}

pub All-IsSound-SameShape :
    {m n : PlcMemory} (rules : List MappingRule)
    → SameShape m n
    → All (IsSound m) rules
    → All (IsSound n) rules
All-IsSound-SameShape [] s h = tt
All-IsSound-SameShape (rule ∷ rules) s h =
    (IsSound-SameShape rule s h.0, All-IsSound-SameShape rules s h.1)

-- A step on one rule does not change who wins on another.
winner_frame :
    (m : PlcMemory) (rule other : MappingRule)
    → Avoids rule.src other
    → Avoids rule.dst other
    → winner (sync_rule m rule).0 other ≡ winner m other
unfolding winner
winner_frame m rule other hs hd = ground (
  arith,
  sync_rule_frame m rule other.src,
  sync_rule_frame m rule other.dst,
  same_cell_symm (cell_of rule.src) (cell_of other.src),
  same_cell_symm (cell_of rule.src) (cell_of other.dst),
  same_cell_symm (cell_of rule.dst) (cell_of other.src),
  same_cell_symm (cell_of rule.dst) (cell_of other.dst),
)

All-Settled_frame :
    (m n : PlcMemory) (rule : MappingRule) (rules : List MappingRule)
    → All (Avoids rule.src) rules
    → All (Avoids rule.dst) rules
    → All (Settled (sync_rule m rule).0 n) rules
    → All (Settled m n) rules
All-Settled_frame m n rule [] hs hd h = tt
All-Settled_frame m n rule (other ∷ rules) hs hd h = (
  (h.0.0 ∙ winner_frame m rule other hs.0 hd.0, h.0.1 ∙ winner_frame m rule other hs.0 hd.0),
  All-Settled_frame m n rule rules hs.1 hd.1 h.1,
)

-- After a pass over sound rules that share no cell, both ends of every rule hold the value of the
-- end that won before the pass: the order of the rules does not matter.
pub sync_rules-Settled :
    (m : PlcMemory) (rules : List MappingRule)
    → All (IsSound m) rules
    → Separate rules
    → All (Settled m (sync_rules m rules).0) rules
unfolding sync_rules
sync_rules-Settled m [] sound apart = tt
sync_rules-Settled m (rule ∷ rules) sound apart =
    let m' = (sync_rule m rule).0 in
    (
      (
        sync_rules_frame m' rules rule.src apart.0 ∙ sync_rule-src m rule sound.0,
        sync_rules_frame m' rules rule.dst apart.1 ∙ sync_rule-dst m rule sound.0,
      ),
      All-Settled_frame m (sync_rules m' rules).0 rule rules apart.0 apart.1 (
          sync_rules-Settled m' rules
            (All-IsSound-SameShape rules (sync_rule-SameShape m rule) sound.1) apart.2),
    )
