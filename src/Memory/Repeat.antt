-- ===== src/Memory/Repeat.antt =====
-- Running `syncMappings` again when nothing has changed does nothing.
use v_plc_runtime.Shared.{
  ℕ, ◌≡◌, refl, ◌∙◌, sym, ap, true, false, List, [], ◌∷◌, All, Option, none, some, of_bool, get_or,
}
use v_plc_runtime.Memory.{
  MemoryRef, MappingRule, PlcMemory, BitArea, WordArea, bits, words, coils_area,
  input_registers_area,
}
use v_plc_runtime.Memory.Laws.{read_bit-eq-get_or, read_word-eq-get_or}
use v_plc_runtime.Memory.Values.{read_value}
use v_plc_runtime.Memory.Cells.{Cell, bit_cell, word_cell, cell_of, get_cell, read_value_refines}
use v_plc_runtime.Memory.Sync.{sync_rule, sync_rules, sync_mappings}
use v_plc_runtime.Memory.Rules.{
  IsSound, Tracks, winner, sync_rule-Tracks, sync_rule_settled, sync_rule-SameShape,
}
use v_plc_runtime.Memory.Passes.{Separate, Settled, sync_rules-Settled, All-IsSound-SameShape}

-- The rule remembers what both of its ends read.
abbrev Still : PlcMemory → MappingRule → Type 0
Still n rule =
    (rule.initialized ≡ true)
    × (rule.last_src_val ≡ read_value n rule.src)
    × (rule.last_dst_val ≡ read_value n rule.src)
    × (read_value n rule.dst ≡ read_value n rule.src)

sync_rules-Still :
    (n : PlcMemory) (rules : List MappingRule)
    → All (Still n) rules
    → sync_rules n rules ≡ (n, rules)
unfolding sync_rules
sync_rules-Still n [] h = refl
sync_rules-Still n (rule ∷ rules) h = rw (
  sync_rule_settled n rule (read_value n rule.src) h.0.0 h.0.1 h.0.2 refl h.0.3,
  sync_rules-Still n rules h.1,
)

-- Each updated rule stands for the rule that it was, and remembers who won.
Tracks-Still :
    (n : PlcMemory) (rule rule' : MappingRule) (v : ℕ)
    → Tracks rule rule' v
    → read_value n rule.src ≡ v
    → read_value n rule.dst ≡ v
    → Still n rule'
Tracks-Still n rule rule' v t hs hd =
    let s : read_value n rule'.src ≡ v = ap (read_value n) t.same_src ∙ hs in
    let d : read_value n rule'.dst ≡ v = ap (read_value n) t.same_dst ∙ hd in
    (t.ready, t.src_val ∙ sym s, t.dst_val ∙ sym s, d ∙ sym s)

-- Each rule has settled in `n`, seen from the memory in which it was taken.
abbrev InTurn : PlcMemory → PlcMemory → List MappingRule → Type 0
InTurn n m [] = Unit
InTurn n m (rule ∷ rules) = Settled m n rule × InTurn n (sync_rule m rule).0 rules

All-Still :
    (n m : PlcMemory) (rules : List MappingRule)
    → InTurn n m rules
    → All (Still n) (sync_rules m rules).1
unfolding sync_rules
All-Still n m [] h = tt
All-Still n m (rule ∷ rules) h = (
  Tracks-Still n rule (sync_rule m rule).1 (winner m rule) (sync_rule-Tracks m rule) h.0.0 h.0.1,
  All-Still n (sync_rule m rule).0 rules h.1,
)

sync_rules-InTurn :
    (m : PlcMemory) (rules : List MappingRule)
    → All (IsSound m) rules
    → Separate rules
    → InTurn (sync_rules m rules).0 m rules
unfolding sync_rules
sync_rules-InTurn m [] sound apart = tt
sync_rules-InTurn m (rule ∷ rules) sound apart = (
  unfold sync_rules in (sync_rules-Settled m (rule ∷ rules) sound apart).0,
  sync_rules-InTurn (sync_rule m rule).0 rules
      (All-IsSound-SameShape rules (sync_rule-SameShape m rule) sound.1) apart.2,
)

-- A second pass over the updated rules changes neither the memory nor a rule.
pub sync_rules_twice :
    (m : PlcMemory) (rules : List MappingRule)
    → All (IsSound m) rules
    → Separate rules
    → sync_rules (sync_rules m rules).0 (sync_rules m rules).1 ≡ sync_rules m rules
sync_rules_twice m rules sound apart =
    sync_rules-Still (sync_rules m rules).0 (sync_rules m rules).1
      (All-Still (sync_rules m rules).0 m rules (sync_rules-InTurn m rules sound apart))

-- What the memory holds does not depend on its list of rules.
pub bits_of_mappings :
    (m : PlcMemory) (rs : List MappingRule) (a : BitArea)
    → bits (record m { mappings = rs }) a ≡ bits m a
unfolding bits
bits_of_mappings m rs coils_area = refl
bits_of_mappings m rs _ = refl

pub words_of_mappings :
    (m : PlcMemory) (rs : List MappingRule) (a : WordArea)
    → words (record m { mappings = rs }) a ≡ words m a
unfolding words
words_of_mappings m rs input_registers_area = refl
words_of_mappings m rs _ = refl

get_cell_of_mappings :
    (m : PlcMemory) (rs : List MappingRule) (c : Option Cell)
    → get_cell (record m { mappings = rs }) c ≡ get_cell m c
unfolding get_cell
get_cell_of_mappings m rs none = refl
get_cell_of_mappings m rs (some (bit_cell a i)) = ap of_bool (
    read_bit-eq-get_or (record m { mappings = rs }) a i
    ∙ ap (λ l. get_or l i false) (bits_of_mappings m rs a)
    ∙ sym (read_bit-eq-get_or m a i))
get_cell_of_mappings m rs (some (word_cell a i)) =
    read_word-eq-get_or (record m { mappings = rs }) a i
    ∙ ap (λ l. get_or l i 0) (words_of_mappings m rs a)
    ∙ sym (read_word-eq-get_or m a i)

pub read_value_of_mappings :
    (m : PlcMemory) (rs : List MappingRule) (r : MemoryRef)
    → read_value (record m { mappings = rs }) r ≡ read_value m r
read_value_of_mappings m rs r =
    read_value_refines (record m { mappings = rs }) r
    ∙ get_cell_of_mappings m rs (cell_of r)
    ∙ sym (read_value_refines m r)

All-Still_of_mappings :
    (n : PlcMemory) (rs rules : List MappingRule)
    → All (Still n) rules
    → All (Still (record n { mappings = rs })) rules
All-Still_of_mappings n rs [] h = tt
All-Still_of_mappings n rs (rule ∷ rules) h =
    let s = read_value_of_mappings n rs rule.src in
    let d = read_value_of_mappings n rs rule.dst in
    ((h.0.0, h.0.1 ∙ sym s, h.0.2 ∙ sym s, d ∙ h.0.3 ∙ sym s), All-Still_of_mappings n rs rules h.1)

-- With sound rules that share no cell, `syncMappings` after `syncMappings` changes nothing.
pub sync_mappings_twice :
    (m : PlcMemory)
    → All (IsSound m) m.mappings
    → Separate m.mappings
    → sync_mappings (sync_mappings m) ≡ sync_mappings m
unfolding sync_mappings
sync_mappings_twice m sound apart =
    let n = (sync_rules m m.mappings).0 in
    let rs = (sync_rules m m.mappings).1 in
    let still : All (Still n) rs =
      All-Still n m m.mappings (sync_rules-InTurn m m.mappings sound apart) in
    ap (λ (p : PlcMemory × List MappingRule). record (p.0) { mappings = p.1 })
      (sync_rules-Still (record n { mappings = rs }) rs (All-Still_of_mappings n rs rs still))

-- Without mappings a pass changes nothing.
pub sync_mappings_no_rules : (m : PlcMemory) → m.mappings ≡ [] → sync_mappings m ≡ m
unfolding sync_mappings sync_rules
sync_mappings_no_rules m h =
    ap (λ rs. record (sync_rules m rs).0 { mappings = (sync_rules m rs).1 }) h
    ∙ ap (λ rs. record m { mappings = rs }) (sym h)
