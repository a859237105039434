-- ===== src/Memory/Cells.antt =====
-- The abstract view of the memory: a reference stands for at most one cell, a cell is a bit or a
-- 16-bit word of one area, and `readValue` and `writeValue` read and write just that cell.
use v_plc_runtime.Shared.{
  ℕ, ◌≡◌, refl, ap, Bool, false, ◌&&◌, ◌==◌, Option, none, some, arith, if◌then◌else◌, codes,
  text_eq, of_bool, Bool-cases, inl, inr, ltb, length,
}
use v_plc_runtime.Memory.{
  MemoryRef, PlcMemory, BitArea, WordArea, coils_area, discrete_inputs_area, s7_pe_area, s7_pa_area,
  input_registers_area, holding_registers_area, s7_db1_area, s7_db2_area, ls_w_area, read_bit,
  read_word, write_bit, write_word, bits, words, mc_bit_area, mc_word_area, ls_bit_area,
  read_mc_bit, read_mc_word, read_ls_bit, read_ls_word, read_named_bit, read_named_word,
  write_mc_bit, write_mc_word, write_ls_bit, write_ls_word, write_named_bit, write_named_word,
}
use v_plc_runtime.Memory.Lens.{same_bit_area, same_word_area}
use v_plc_runtime.Memory.Laws.{
  read_bit-write_bit, read_word-write_word, read_word-write_bit, read_bit-write_word,
}
use v_plc_runtime.Memory.Values.{
  read_value, read_modbus_value, read_s7_value, read_mc_value, read_ls_value, write_value,
  write_modbus_value, write_s7_value, write_mc_value, write_ls_value, is_on,
}

pub data Cell : Type 0 where
  bit_cell : BitArea → ℕ → Cell
  word_cell : WordArea → ℕ → Cell

unfoldable pub some_bit : Option BitArea → ℕ → Option Cell
some_bit none i = none
some_bit (some a) i = some (bit_cell a i)

unfoldable pub some_word : Option WordArea → ℕ → Option Cell
some_word none i = none
some_word (some a) i = some (word_cell a i)

unfoldable pub modbus_cell : MemoryRef → Option Cell
modbus_cell ref =
    if text_eq ref.area (codes "COIL")
    then some (bit_cell coils_area ref.index)
    else if text_eq ref.area (codes "DI")
    then some (bit_cell discrete_inputs_area ref.index)
    else if text_eq ref.area (codes "IR")
    then some (word_cell input_registers_area ref.index)
    else if text_eq ref.area (codes "HR")
    then some (word_cell holding_registers_area ref.index)
    else none

unfoldable pub s7_cell : MemoryRef → Option Cell
s7_cell ref =
    if text_eq ref.area (codes "PE")
    then some (bit_cell s7_pe_area ref.index)
    else if text_eq ref.area (codes "PA")
    then some (bit_cell s7_pa_area ref.index)
    else if text_eq ref.area (codes "DB1")
    then some (word_cell s7_db1_area ref.index)
    else if text_eq ref.area (codes "DB2")
    then some (word_cell s7_db2_area ref.index)
    else none

unfoldable pub mc_cell : MemoryRef → Option Cell
mc_cell ref =
    if ref.is_bit
    then some_bit (mc_bit_area ref.area) ref.index
    else some_word (mc_word_area ref.area) ref.index

unfoldable pub ls_cell : MemoryRef → Option Cell
ls_cell ref =
    if ref.is_bit
    then some_bit (ls_bit_area ref.area) ref.index
    else some (word_cell ls_w_area ref.index)

-- The cell that a reference stands for; `none` for an unknown protocol or area.
unfoldable pub cell_of : MemoryRef → Option Cell
cell_of ref =
    if text_eq ref.protocol (codes "MODBUS")
    then modbus_cell ref
    else if text_eq ref.protocol (codes "S7")
    then s7_cell ref
    else if text_eq ref.protocol (codes "MC")
    then mc_cell ref
    else if text_eq ref.protocol (codes "LS")
    then ls_cell ref
    else none

unfoldable pub get_cell : PlcMemory → Option Cell → ℕ
get_cell m none = 0
get_cell m (some (bit_cell a i)) = of_bool (read_bit m a i)
get_cell m (some (word_cell a i)) = read_word m a i

unfoldable pub put_cell : PlcMemory → Option Cell → ℕ → PlcMemory
put_cell m none v = m
put_cell m (some (bit_cell a i)) v = write_bit m a i (is_on v)
put_cell m (some (word_cell a i)) v = write_word m a i v

get_cell-none : (m : PlcMemory) → get_cell m none ≡ 0
unfolding get_cell
get_cell-none m = refl

put_cell-none : (m : PlcMemory) (v : ℕ) → put_cell m none v ≡ m
unfolding put_cell
put_cell-none m v = refl

read_modbus_refines :
    (m : PlcMemory) (ref : MemoryRef) → read_modbus_value m ref ≡ get_cell m (modbus_cell ref)
unfolding read_modbus_value modbus_cell get_cell
read_modbus_refines m ref = ground arith

read_s7_refines : (m : PlcMemory) (ref : MemoryRef) → read_s7_value m ref ≡ get_cell m (s7_cell ref)
unfolding read_s7_value s7_cell get_cell
read_s7_refines m ref = ground arith

get_cell-some_bit :
    (m : PlcMemory) (o : Option BitArea) (i : ℕ)
    → of_bool (read_named_bit m o i) ≡ get_cell m (some_bit o i)
unfolding read_named_bit some_bit get_cell
get_cell-some_bit m none i = refl
get_cell-some_bit m (some a) i = refl

get_cell-some_word :
    (m : PlcMemory) (o : Option WordArea) (i : ℕ)
    → read_named_word m o i ≡ get_cell m (some_word o i)
unfolding read_named_word some_word get_cell
get_cell-some_word m none i = refl
get_cell-some_word m (some a) i = refl

put_cell-some_bit :
    (m : PlcMemory) (o : Option BitArea) (i v : ℕ)
    → write_named_bit m o i (is_on v) ≡ put_cell m (some_bit o i) v
unfolding write_named_bit some_bit put_cell
put_cell-some_bit m none i v = refl
put_cell-some_bit m (some a) i v = refl

put_cell-some_word :
    (m : PlcMemory) (o : Option WordArea) (i v : ℕ)
    → write_named_word m o i v ≡ put_cell m (some_word o i) v
unfolding write_named_word some_word put_cell
put_cell-some_word m none i v = refl
put_cell-some_word m (some a) i v = refl

read_mc_refines : (m : PlcMemory) (ref : MemoryRef) → read_mc_value m ref ≡ get_cell m (mc_cell ref)
unfolding read_mc_value mc_cell read_mc_bit read_mc_word
read_mc_refines m ref = elim (Bool-cases ref.is_bit) [
  | inl e ↦ rw e (get_cell-some_bit m (mc_bit_area ref.area) ref.index)
  | inr e ↦ rw e (get_cell-some_word m (mc_word_area ref.area) ref.index)
]

read_ls_refines : (m : PlcMemory) (ref : MemoryRef) → read_ls_value m ref ≡ get_cell m (ls_cell ref)
unfolding read_ls_value ls_cell read_ls_bit read_ls_word
read_ls_refines m ref = elim (Bool-cases ref.is_bit) [
  | inl e ↦ rw e (get_cell-some_bit m (ls_bit_area ref.area) ref.index)
  | inr e ↦ rw e (unfold get_cell in refl)
]

write_modbus_refines :
    (m : PlcMemory) (ref : MemoryRef) (v : ℕ)
    → write_modbus_value m ref v ≡ put_cell m (modbus_cell ref) v
unfolding write_modbus_value modbus_cell put_cell
write_modbus_refines m ref v = ground arith

write_s7_refines :
    (m : PlcMemory) (ref : MemoryRef) (v : ℕ) → write_s7_value m ref v ≡ put_cell m (s7_cell ref) v
unfolding write_s7_value s7_cell put_cell
write_s7_refines m ref v = ground arith

write_mc_refines :
    (m : PlcMemory) (ref : MemoryRef) (v : ℕ) → write_mc_value m ref v ≡ put_cell m (mc_cell ref) v
unfolding write_mc_value mc_cell write_mc_bit write_mc_word
write_mc_refines m ref v = elim (Bool-cases ref.is_bit) [
  | inl e ↦ rw e (put_cell-some_bit m (mc_bit_area ref.area) ref.index v)
  | inr e ↦ rw e (put_cell-some_word m (mc_word_area ref.area) ref.index v)
]

write_ls_refines :
    (m : PlcMemory) (ref : MemoryRef) (v : ℕ) → write_ls_value m ref v ≡ put_cell m (ls_cell ref) v
unfolding write_ls_value ls_cell write_ls_bit write_ls_word
write_ls_refines m ref v = elim (Bool-cases ref.is_bit) [
  | inl e ↦ rw e (put_cell-some_bit m (ls_bit_area ref.area) ref.index v)
  | inr e ↦ rw e (unfold put_cell in refl)
]

-- `readValue` reads the cell of its reference, 0 if there is none.
pub read_value_refines :
    (m : PlcMemory) (ref : MemoryRef) → read_value m ref ≡ get_cell m (cell_of ref)
unfolding read_value cell_of
read_value_refines m ref = ground (
  arith,
  read_modbus_refines m ref,
  read_s7_refines m ref,
  read_mc_refines m ref,
  read_ls_refines m ref,
  get_cell-none m,
)

-- `writeValue` writes the cell of its reference, or nothing.
pub write_value_refines :
    (m : PlcMemory) (ref : MemoryRef) (v : ℕ) → write_value m ref v ≡ put_cell m (cell_of ref) v
unfolding write_value cell_of
write_value_refines m ref v = ground (
  arith,
  write_modbus_refines m ref v,
  write_s7_refines m ref v,
  write_mc_refines m ref v,
  write_ls_refines m ref v,
  put_cell-none m v,
)

-- One cell, twice named.
unfoldable pub same_cell : Option Cell → Option Cell → Bool
same_cell (some (bit_cell a i)) (some (bit_cell b j)) = same_bit_area a b && (i == j)
same_cell (some (word_cell a i)) (some (word_cell b j)) = same_word_area a b && (i == j)
same_cell _ _ = false

-- The cell lies inside its area.
unfoldable pub exists : PlcMemory → Option Cell → Bool
exists m none = false
exists m (some (bit_cell a i)) = ltb i (length (bits m a))
exists m (some (word_cell a i)) = ltb i (length (words m a))

-- What a cell keeps of a value: a bit cell whether it is not zero.
unfoldable pub stored : Option Cell → ℕ → ℕ
stored none v = 0
stored (some (bit_cell a i)) v = of_bool (is_on v)
stored (some (word_cell a i)) v = v

pub get_cell-put_cell :
    (m : PlcMemory) (c d : Option Cell) (v : ℕ)
    → get_cell (put_cell m c v) d
      ≡ (if same_cell c d && exists m d then stored c v else get_cell m d)
unfolding get_cell put_cell same_cell exists stored
get_cell-put_cell m none none v = refl
get_cell-put_cell m none (some d) v = refl
get_cell-put_cell m (some (bit_cell a i)) none v = refl
get_cell-put_cell m (some (word_cell a i)) none v = refl
get_cell-put_cell m (some (bit_cell a i)) (some (bit_cell b j)) v =
    ground (arith, read_bit-write_bit m a b i j (is_on v))
get_cell-put_cell m (some (bit_cell a i)) (some (word_cell b j)) v =
    read_word-write_bit m a b i j (is_on v)
get_cell-put_cell m (some (word_cell a i)) (some (bit_cell b j)) v =
    ap of_bool (read_bit-write_word m a b i j v)
get_cell-put_cell m (some (word_cell a i)) (some (word_cell b j)) v =
    ground (arith, read_word-write_word m a b i j v)

-- After `writeValue` the cell written holds what it can keep of the value, if it exists, and every
-- other reference reads as before.
pub read_value-write_value :
    (m : PlcMemory) (r q : MemoryRef) (v : ℕ)
    → read_value (write_value m r v) q ≡ (
        if same_cell (cell_of r) (cell_of q) && exists m (cell_of q)
        then stored (cell_of r) v
        else read_value m q)
read_value-write_value m r q v =
    rw (read_value_refines (write_value m r v) q, read_value_refines m q, write_value_refines m r v)
      (get_cell-put_cell m (cell_of r) (cell_of q) v)
