-- ===== src/Memory/CellInvariants.antt =====
-- Writes through a reference keep the invariants of the memory.
use v_plc_runtime.Shared.{
  ℕ, ◌<◌, ◌≡◌, ◌^◌, ap, refl, Bool, true, false, Option, none, some, arith, of_bool, ltb,
}
use v_plc_runtime.Memory.{PlcMemory, MemoryRef, read_bit, read_word}
use v_plc_runtime.Memory.Lens.{same_bit_area_self, same_word_area_self}
use v_plc_runtime.Memory.Laws.{mappings-write_bit, mappings-write_word}
use v_plc_runtime.Memory.Shape.{
  SameShape, SameShape-refl, write_bit-SameShape, write_word-SameShape, IsValid, write_bit-IsValid,
  write_word-IsValid, read_word-lt,
}
use v_plc_runtime.Memory.Values.{read_value, write_value, is_on}
use v_plc_runtime.Memory.Cells.{
  Cell, bit_cell, word_cell, cell_of, get_cell, put_cell, same_cell, exists, read_value_refines,
  write_value_refines,
}

put_cell-SameShape : (m : PlcMemory) (c : Option Cell) (v : ℕ) → SameShape m (put_cell m c v)
unfolding put_cell
put_cell-SameShape m none v = SameShape-refl m
put_cell-SameShape m (some (bit_cell a i)) v = write_bit-SameShape m a i (is_on v)
put_cell-SameShape m (some (word_cell a i)) v = write_word-SameShape m a i v

put_cell-IsValid :
    (m : PlcMemory) (c : Option Cell) (v : ℕ) → IsValid m → v < 2 ^ 16 → IsValid (put_cell m c v)
unfolding put_cell
put_cell-IsValid m none v h fits = h
put_cell-IsValid m (some (bit_cell a i)) v h fits = write_bit-IsValid m a i (is_on v) h
put_cell-IsValid m (some (word_cell a i)) v h fits = write_word-IsValid m a i v h fits

pub mappings-put_cell :
    (m : PlcMemory) (c : Option Cell) (v : ℕ) → (put_cell m c v).mappings ≡ m.mappings
unfolding put_cell
mappings-put_cell m none v = refl
mappings-put_cell m (some (bit_cell a i)) v = mappings-write_bit m a i (is_on v)
mappings-put_cell m (some (word_cell a i)) v = mappings-write_word m a i v

of_bool-lt : (b : Bool) → of_bool b < 2 ^ 16
of_bool-lt true = omega arith
of_bool-lt false = omega arith

get_cell-lt : (m : PlcMemory) (c : Option Cell) → IsValid m → get_cell m c < 2 ^ 16
unfolding get_cell
get_cell-lt m none h = omega arith
get_cell-lt m (some (bit_cell a i)) h = of_bool-lt (read_bit m a i)
get_cell-lt m (some (word_cell a i)) h = read_word-lt m a i h

pub write_value-SameShape :
    (m : PlcMemory) (r : MemoryRef) (v : ℕ) → SameShape m (write_value m r v)
write_value-SameShape m r v = rw (write_value_refines m r v) (put_cell-SameShape m (cell_of r) v)

pub write_value-IsValid :
    (m : PlcMemory) (r : MemoryRef) (v : ℕ) → IsValid m → v < 2 ^ 16 → IsValid (write_value m r v)
write_value-IsValid m r v h fits =
    rw (write_value_refines m r v) (put_cell-IsValid m (cell_of r) v h fits)

pub mappings-write_value :
    (m : PlcMemory) (r : MemoryRef) (v : ℕ) → (write_value m r v).mappings ≡ m.mappings
mappings-write_value m r v = rw (write_value_refines m r v) (mappings-put_cell m (cell_of r) v)

pub read_value-lt : (m : PlcMemory) (r : MemoryRef) → IsValid m → read_value m r < 2 ^ 16
read_value-lt m r h = rw (read_value_refines m r) (get_cell-lt m (cell_of r) h)

pub same_cell_self : (m : PlcMemory) (c : Option Cell) → exists m c ≡ true → same_cell c c ≡ true
unfolding same_cell exists
same_cell_self m none h = cc
same_cell_self m (some (bit_cell a i)) h = ground (arith, same_bit_area_self a)
same_cell_self m (some (word_cell a i)) h = ground (arith, same_word_area_self a)

pub exists-SameShape : {m n : PlcMemory} (c : Option Cell) → SameShape m n → exists n c ≡ exists m c
unfolding exists
exists-SameShape none s = refl
exists-SameShape (some (bit_cell a i)) s = ap (ltb i) (s.bit_sizes a)
exists-SameShape (some (word_cell a i)) s = ap (ltb i) (s.word_sizes a)

-- A cell that does not exist reads 0 whatever is written.
pub get_cell-of_missing : (m : PlcMemory) (c : Option Cell) → exists m c ≡ false → get_cell m c ≡ 0
unfolding exists get_cell read_bit read_word
get_cell-of_missing m none h = refl
get_cell-of_missing m (some (bit_cell a i)) h = ground arith
get_cell-of_missing m (some (word_cell a i)) h = ground arith
