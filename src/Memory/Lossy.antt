-- ===== src/Memory/Lossy.antt =====
-- Rules that `syncMappings` does not keep: a destination that cannot hold the source's value.
use v_plc_runtime.Shared.{
  ℕ, ◌<◌, ◌≤◌, of_bool, ◌≡◌, ◌≢◌, refl, ◌∙◌, ap, Bool, true, false, Option, none, some, arith,
}
use v_plc_runtime.Memory.{MemoryRef, MappingRule, PlcMemory, BitArea, WordArea, read_bit}
use v_plc_runtime.Memory.Lens.{same_bit_area_sound, same_word_area_sound}
use v_plc_runtime.Memory.Values.{read_value, write_value}
use v_plc_runtime.Memory.Cells.{
  Cell, bit_cell, word_cell, cell_of, same_cell, exists, stored, get_cell, read_value-write_value,
  read_value_refines,
}
use v_plc_runtime.Memory.CellInvariants.{
  write_value-SameShape, same_cell_self, exists-SameShape, get_cell-of_missing,
}
use v_plc_runtime.Memory.Sync.{sync_rule}

-- Two passes over one rule.
unfoldable pub two_passes : PlcMemory → MappingRule → PlcMemory
two_passes m rule = let (m', rule') = sync_rule m rule in (sync_rule m' rule').0

first_pass :
    (m : PlcMemory) (rule : MappingRule)
    → rule.initialized ≡ false
    → read_value m rule.dst ≢ read_value m rule.src
    → sync_rule m rule ≡ (
      write_value m rule.dst (read_value m rule.src),
      record rule {
        last_src_val = read_value m rule.src;
        last_dst_val = read_value m rule.src;
        initialized = true;
      },
    )
unfolding sync_rule
first_pass m rule i ne = ground arith

second_pass :
    (m : PlcMemory) (rule : MappingRule) (v w : ℕ)
    → rule.initialized ≡ true
    → rule.last_src_val ≡ v
    → rule.last_dst_val ≡ v
    → read_value m rule.src ≡ v
    → read_value m rule.dst ≡ w
    → w ≢ v
    → (sync_rule m rule).0 ≡ write_value m rule.src w
unfolding sync_rule
second_pass m rule v w i ls ld hs hd ne = ground arith

-- The source is untouched by the first pass. In the second, what the destination could not keep of
-- its value comes back as a change of the destination.
two_passes-src :
    (m : PlcMemory) (rule : MappingRule) (w : ℕ)
    → rule.initialized ≡ false
    → exists m (cell_of rule.src) ≡ true
    → same_cell (cell_of rule.dst) (cell_of rule.src) ≡ false
    → read_value m rule.dst ≢ read_value m rule.src
    → read_value (write_value m rule.dst (read_value m rule.src)) rule.dst ≡ w
    → w ≢ read_value m rule.src
    → read_value (two_passes m rule) rule.src ≡ stored (cell_of rule.src) w
unfolding two_passes
two_passes-src m rule w i e apart differ back ne =
    let v = read_value m rule.src in
    let m' = write_value m rule.dst v in
    let rule' : MappingRule = record rule {
      last_src_val = v;
      last_dst_val = v;
      initialized = true;
    } in
    let kept : read_value m' rule.src ≡ v =
      read_value-write_value m rule.dst rule.src v ∙ rw apart in
    let e' : exists m' (cell_of rule.src) ≡ true =
      exists-SameShape (cell_of rule.src) (write_value-SameShape m rule.dst v) ∙ e in
    rw (first_pass m rule i differ, two_passes)
      (ap (λ (n : PlcMemory). read_value n rule.src)
          (second_pass m' rule' v w refl refl refl kept back ne)
        ∙ read_value-write_value m' rule.src rule.src w
        ∙ rw (same_cell_self m' (cell_of rule.src) e', e'))

of_bool-le-one : (b : Bool) → of_bool b ≤ 1
of_bool-le-one true = omega arith
of_bool-le-one false = omega arith

bit_cell-le-one :
    (m : PlcMemory) (r : MemoryRef) (b : BitArea) (j : ℕ)
    → cell_of r ≡ some (bit_cell b j)
    → read_value m r ≤ 1
unfolding get_cell
bit_cell-le-one m r b j e =
    rw (read_value_refines m r, e, get_cell) (of_bool-le-one (read_bit m b j))

same_cell-of_missing :
    (m : PlcMemory) (d c : Option Cell)
    → exists m d ≡ false
    → exists m c ≡ true
    → same_cell d c ≡ false
unfolding same_cell exists
same_cell-of_missing m none c h k = refl
same_cell-of_missing m (some (bit_cell a i)) none h k = refl
same_cell-of_missing m (some (bit_cell a i)) (some (bit_cell b j)) h k =
    ground (arith, same_bit_area_sound a b)
same_cell-of_missing m (some (bit_cell a i)) (some (word_cell b j)) h k = refl
same_cell-of_missing m (some (word_cell a i)) none h k = refl
same_cell-of_missing m (some (word_cell a i)) (some (bit_cell b j)) h k = refl
same_cell-of_missing m (some (word_cell a i)) (some (word_cell b j)) h k =
    ground (arith, same_word_area_sound a b)

-- A rule from a word to a bit, both in range, whose source holds more than 1: after two passes the
-- source holds 1.
pub two_passes_word_to_bit :
    (m : PlcMemory) (rule : MappingRule) (a : WordArea) (b : BitArea) (i j : ℕ)
    → rule.initialized ≡ false
    → cell_of rule.src ≡ some (word_cell a i)
    → cell_of rule.dst ≡ some (bit_cell b j)
    → exists m (cell_of rule.src) ≡ true
    → exists m (cell_of rule.dst) ≡ true
    → 1 < read_value m rule.src
    → read_value (two_passes m rule) rule.src ≡ 1
unfolding same_cell stored
two_passes_word_to_bit m rule a b i j init cs cd es ed big =
    let v = read_value m rule.src in
    let small = bit_cell-le-one m rule.dst b j cd in
    let on : stored (some (bit_cell b j)) v ≡ 1 = ground arith in
    let back : read_value (write_value m rule.dst v) rule.dst ≡ 1 =
      read_value-write_value m rule.dst rule.dst v
      ∙ (rw (same_cell_self m (cell_of rule.dst) ed, ed))
      ∙ ap (λ c. stored c v) cd
      ∙ on in
    two_passes-src m rule 1 init es (rw (cd, cs)) (omega arith) back (omega arith)
    ∙ ap (λ c. stored c 1) cs

-- A rule whose destination lies outside its area, whose source is a word in range that is not 0:
-- after two passes the source holds 0.
pub two_passes_missing_dst :
    (m : PlcMemory) (rule : MappingRule) (a : WordArea) (i : ℕ)
    → rule.initialized ≡ false
    → cell_of rule.src ≡ some (word_cell a i)
    → exists m (cell_of rule.src) ≡ true
    → exists m (cell_of rule.dst) ≡ false
    → 0 < read_value m rule.src
    → read_value (two_passes m rule) rule.src ≡ 0
unfolding stored
two_passes_missing_dst m rule a i init cs es ed pos =
    let v = read_value m rule.src in
    let zero_there : read_value m rule.dst ≡ 0 =
      read_value_refines m rule.dst ∙ get_cell-of_missing m (cell_of rule.dst) ed in
    let back : read_value (write_value m rule.dst v) rule.dst ≡ 0 =
      read_value-write_value m rule.dst rule.dst v ∙ ground (arith) in
    two_passes-src m rule 0 init es
      (same_cell-of_missing m (cell_of rule.dst) (cell_of rule.src) ed es) (omega arith) back
      (omega arith)
    ∙ ap (λ c. stored c 0) cs
