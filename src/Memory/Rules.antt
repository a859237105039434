-- ===== src/Memory/Rules.antt =====
-- What one pass over a rule achieves.
use v_plc_runtime.Shared.{
  ℕ, ◌≡◌, refl, ap₂, sym, subst, ◌⊎◌, Bool, true, false, not, ◌&&◌, ◌==◌, Option, none, some, arith,
  if◌then◌else◌, inl, inr,
}
use v_plc_runtime.Memory.{MemoryRef, MappingRule, PlcMemory}
use v_plc_runtime.Memory.Shape.{SameShape, SameShape-refl, IsValid}
use v_plc_runtime.Memory.Lens.{same_bit_area, same_word_area, bit_number, word_number}
use v_plc_runtime.Memory.Values.{read_value, write_value}
use v_plc_runtime.Memory.Cells.{
  Cell, bit_cell, word_cell, cell_of, same_cell, exists, stored, get_cell, read_value-write_value,
  read_value_refines,
}
use v_plc_runtime.Memory.CellInvariants.{
  write_value-SameShape, write_value-IsValid, read_value-lt, same_cell_self,
}
use v_plc_runtime.Memory.Sync.{sync_rule}

-- Both ends of a rule exist, are of one kind (two bits or two words), and are not one cell.
unfoldable pub same_kind : Option Cell → Option Cell → Bool
same_kind (some (bit_cell a i)) (some (bit_cell b j)) = true
same_kind (some (word_cell a i)) (some (word_cell b j)) = true
same_kind _ _ = false

pub record IsSound (m : PlcMemory) (rule : MappingRule) : Type 0 where
  pub src_exists : exists m (cell_of rule.src) ≡ true
  pub dst_exists : exists m (cell_of rule.dst) ≡ true
  pub kinds : same_kind (cell_of rule.src) (cell_of rule.dst) ≡ true
  pub apart : same_cell (cell_of rule.dst) (cell_of rule.src) ≡ false

same_kind_symm : (c d : Option Cell) → same_kind c d ≡ true → same_kind d c ≡ true
unfolding same_kind
same_kind_symm (some (bit_cell a i)) (some (bit_cell b j)) h = refl
same_kind_symm (some (word_cell a i)) (some (word_cell b j)) h = refl
same_kind_symm _ _ h = cc

number_symm : (i j : ℕ) → (i == j) ≡ (j == i)
number_symm i j = ground arith

pub same_cell_symm : (c d : Option Cell) → same_cell c d ≡ same_cell d c
unfolding same_cell same_bit_area same_word_area
same_cell_symm none none = refl
same_cell_symm none (some (bit_cell b j)) = refl
same_cell_symm none (some (word_cell b j)) = refl
same_cell_symm (some (bit_cell a i)) none = refl
same_cell_symm (some (bit_cell a i)) (some (bit_cell b j)) =
    ap₂ ◌&&◌ (number_symm (bit_number a) (bit_number b)) (number_symm i j)
same_cell_symm (some (bit_cell a i)) (some (word_cell b j)) = refl
same_cell_symm (some (word_cell a i)) none = refl
same_cell_symm (some (word_cell a i)) (some (bit_cell b j)) = refl
same_cell_symm (some (word_cell a i)) (some (word_cell b j)) =
    ap₂ ◌&&◌ (number_symm (word_number a) (word_number b)) (number_symm i j)

-- A cell keeps what a cell of its kind held.
stored_of_same_kind :
    (m : PlcMemory) (c d : Option Cell)
    → same_kind c d ≡ true
    → stored d (get_cell m c) ≡ get_cell m c
unfolding same_kind stored get_cell
stored_of_same_kind m (some (bit_cell a i)) (some (bit_cell b j)) h = ground arith
stored_of_same_kind m (some (word_cell a i)) (some (word_cell b j)) h = refl
stored_of_same_kind m _ _ h = cc

stored-read_value :
    (m : PlcMemory) (r q : MemoryRef)
    → same_kind (cell_of r) (cell_of q) ≡ true
    → stored (cell_of q) (read_value m r) ≡ read_value m r
stored-read_value m r q h =
    rw (read_value_refines m r) (stored_of_same_kind m (cell_of r) (cell_of q) h)

-- Whose value a pass spreads: the destination's if it alone has changed since the last pass, the
-- source's otherwise.
unfoldable pub winner : PlcMemory → MappingRule → ℕ
winner m rule =
    if rule.initialized
      && (read_value m rule.src == rule.last_src_val)
      && not (read_value m rule.dst == rule.last_dst_val)
    then read_value m rule.dst
    else read_value m rule.src

-- The rule remembers `v` for both ends, and is otherwise the rule it was.
pub record Tracks (rule rule' : MappingRule) (v : ℕ) : Type 0 where
  pub ready : rule'.initialized ≡ true
  pub src_val : rule'.last_src_val ≡ v
  pub dst_val : rule'.last_dst_val ≡ v
  pub same_src : rule'.src ≡ rule.src
  pub same_dst : rule'.dst ≡ rule.dst

pub sync_rule-Tracks :
    (m : PlcMemory) (rule : MappingRule) → Tracks rule (sync_rule m rule).1 (winner m rule)
unfolding sync_rule winner
sync_rule-Tracks m rule = record {
  ready = ground arith;
  src_val = ground arith;
  dst_val = ground arith;
  same_src = ground arith;
  same_dst = ground arith;
}

-- One pass over a sound rule brings both ends to the winner's value.
pub sync_rule-src :
    (m : PlcMemory) (rule : MappingRule)
    → IsSound m rule
    → read_value (sync_rule m rule).0 rule.src ≡ winner m rule
unfolding sync_rule winner
sync_rule-src m rule s = ground (
  arith,
  read_value-write_value m rule.dst rule.src (read_value m rule.src),
  read_value-write_value m rule.src rule.src (read_value m rule.dst),
  same_cell_self m (cell_of rule.src),
  stored-read_value m rule.dst rule.src (same_kind_symm _ _ s.kinds),
)

pub sync_rule-dst :
    (m : PlcMemory) (rule : MappingRule)
    → IsSound m rule
    → read_value (sync_rule m rule).0 rule.dst ≡ winner m rule
unfolding sync_rule winner
sync_rule-dst m rule s = ground (
  arith,
  read_value-write_value m rule.dst rule.dst (read_value m rule.src),
  read_value-write_value m rule.src rule.dst (read_value m rule.dst),
  same_cell_self m (cell_of rule.dst),
  same_cell_symm (cell_of rule.src) (cell_of rule.dst),
  stored-read_value m rule.src rule.dst s.kinds,
)

-- Any other cell reads as before.
pub sync_rule_frame :
    (m : PlcMemory) (rule : MappingRule) (q : MemoryRef)
    → same_cell (cell_of rule.src) (cell_of q) ≡ false
    → same_cell (cell_of rule.dst) (cell_of q) ≡ false
    → read_value (sync_rule m rule).0 q ≡ read_value m q
unfolding sync_rule
sync_rule_frame m rule q hs hd = ground (
  arith,
  read_value-write_value m rule.dst q (read_value m rule.src),
  read_value-write_value m rule.src q (read_value m rule.dst),
)

sync_rule_cases :
    (m : PlcMemory) (rule : MappingRule)
    → ((sync_rule m rule).0 ≡ m)
      ⊎ (((sync_rule m rule).0 ≡ write_value m rule.dst (read_value m rule.src))
          ⊎ ((sync_rule m rule).0 ≡ write_value m rule.src (read_value m rule.dst)))
unfolding sync_rule
sync_rule_cases m rule = ground arith

-- A pass writes one end, the other, or nothing.
sync_rule_closed {ℓ} :
    (P : PlcMemory → Type ℓ) (m : PlcMemory) (rule : MappingRule)
    → P m
    → ((r q : MemoryRef) → P (write_value m r (read_value m q)))
    → P (sync_rule m rule).0
sync_rule_closed P m rule here wrote = elim (sync_rule_cases m rule) [
  | inl e ↦ subst P (sym e) here
  | inr (inl e) ↦ subst P (sym e) (wrote rule.dst rule.src)
  | inr (inr e) ↦ subst P (sym e) (wrote rule.src rule.dst)
]

pub sync_rule-SameShape : (m : PlcMemory) (rule : MappingRule) → SameShape m (sync_rule m rule).0
sync_rule-SameShape m rule =
    sync_rule_closed (SameShape m) m rule (SameShape-refl m)
      (λ r q. write_value-SameShape m r (read_value m q))

pub sync_rule-IsValid :
    (m : PlcMemory) (rule : MappingRule) → IsValid m → IsValid (sync_rule m rule).0
sync_rule-IsValid m rule h =
    sync_rule_closed IsValid m rule h
      (λ r q. write_value-IsValid m r (read_value m q) h (read_value-lt m q h))

-- A rule whose remembered values are what both ends read is left alone, and so is the memory.
pub sync_rule_settled :
    (m : PlcMemory) (rule : MappingRule) (v : ℕ)
    → rule.initialized ≡ true
    → rule.last_src_val ≡ v
    → rule.last_dst_val ≡ v
    → read_value m rule.src ≡ v
    → read_value m rule.dst ≡ v
    → sync_rule m rule ≡ (m, rule)
unfolding sync_rule
sync_rule_settled m rule v i ls ld hs hd = ground arith
