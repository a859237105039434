-- ===== src/Memory/Laws.antt =====
-- Single cells: what a read sees after a write, and what a write leaves alone.
use v_plc_runtime.Shared.{
  ℕ, Bool, false, ◌&&◌, ◌==◌, ◌≡◌, arith, if◌then◌else◌, ltb, length, get_or, set, get_or-set_self,
  get_or-set_ne, get_or-of-le, set-of-le,
}
use v_plc_runtime.Memory.{
  PlcMemory, BitArea, WordArea, bits, words, read_bit, read_word, write_bit, write_word,
}
use v_plc_runtime.Memory.Lens.{
  same_bit_area, same_word_area, bits-with_bits, words-with_words, words-with_bits, bits-with_words,
  same_bit_area_sound, same_word_area_sound, mappings-with_bits, mappings-with_words,
}

-- A read with its range check is a read with a default.
pub read_bit-eq-get_or :
    (m : PlcMemory) (a : BitArea) (i : ℕ) → read_bit m a i ≡ get_or (bits m a) i false
unfolding read_bit
read_bit-eq-get_or m a i = ground (arith, get_or-of-le (bits m a) i false)

pub read_word-eq-get_or :
    (m : PlcMemory) (a : WordArea) (i : ℕ) → read_word m a i ≡ get_or (words m a) i 0
unfolding read_word
read_word-eq-get_or m a i = ground (arith, get_or-of-le (words m a) i 0)

-- The vector of an area after a write of one cell.
pub bits-write_bit :
    (m : PlcMemory) (a b : BitArea) (i : ℕ) (v : Bool)
    → bits (write_bit m a i v) b ≡ (if same_bit_area a b then set (bits m b) i v else bits m b)
unfolding write_bit
bits-write_bit m a b i v = ground (
  arith,
  bits-with_bits a b m (set (bits m a) i v),
  same_bit_area_sound a b,
  set-of-le (bits m a) i v,
)

pub words-write_word :
    (m : PlcMemory) (a b : WordArea) (i : ℕ) (v : ℕ)
    → words (write_word m a i v) b ≡ (if same_word_area a b then set (words m b) i v else words m b)
unfolding write_word
words-write_word m a b i v = ground (
  arith,
  words-with_words a b m (set (words m a) i v),
  same_word_area_sound a b,
  set-of-le (words m a) i v,
)

pub words-write_bit :
    (m : PlcMemory) (a : BitArea) (b : WordArea) (i : ℕ) (v : Bool)
    → words (write_bit m a i v) b ≡ words m b
unfolding write_bit
words-write_bit m a b i v = ground (arith, words-with_bits a b m (set (bits m a) i v))

pub bits-write_word :
    (m : PlcMemory) (a : WordArea) (b : BitArea) (i : ℕ) (v : ℕ)
    → bits (write_word m a i v) b ≡ bits m b
unfolding write_word
bits-write_word m a b i v = ground (arith, bits-with_words a b m (set (words m a) i v))

pub mappings-write_bit :
    (m : PlcMemory) (a : BitArea) (i : ℕ) (v : Bool) → (write_bit m a i v).mappings ≡ m.mappings
unfolding write_bit
mappings-write_bit m a i v = ground (arith, mappings-with_bits a m (set (bits m a) i v))

pub mappings-write_word :
    (m : PlcMemory) (a : WordArea) (i : ℕ) (v : ℕ) → (write_word m a i v).mappings ≡ m.mappings
unfolding write_word
mappings-write_word m a i v = ground (arith, mappings-with_words a m (set (words m a) i v))

-- A read after a write: the new value at the cell written if it exists, the old one elsewhere.
pub read_bit-write_bit :
    (m : PlcMemory) (a b : BitArea) (i j : ℕ) (v : Bool)
    → read_bit (write_bit m a i v) b j
      ≡ (if same_bit_area a b && (i == j) && ltb i (length (bits m b)) then v else read_bit m b j)
read_bit-write_bit m a b i j v = ground (
  arith,
  read_bit-eq-get_or (write_bit m a i v) b j,
  read_bit-eq-get_or m b j,
  bits-write_bit m a b i v,
  get_or-set_self (bits m b) i v false,
  get_or-set_ne (bits m b) i j v false,
  set-of-le (bits m b) i v,
)

pub read_word-write_word :
    (m : PlcMemory) (a b : WordArea) (i j v : ℕ)
    → read_word (write_word m a i v) b j ≡ (
        if same_word_area a b && (i == j) && ltb i (length (words m b)) then v else read_word m b j)
read_word-write_word m a b i j v = ground (
  arith,
  read_word-eq-get_or (write_word m a i v) b j,
  read_word-eq-get_or m b j,
  words-write_word m a b i v,
  get_or-set_self (words m b) i v 0,
  get_or-set_ne (words m b) i j v 0,
  set-of-le (words m b) i v,
)

pub read_word-write_bit :
    (m : PlcMemory) (a : BitArea) (b : WordArea) (i j : ℕ) (v : Bool)
    → read_word (write_bit m a i v) b j ≡ read_word m b j
read_word-write_bit m a b i j v = ground (
  arith,
  read_word-eq-get_or (write_bit m a i v) b j,
  read_word-eq-get_or m b j,
  words-write_bit m a b i v,
)

pub read_bit-write_word :
    (m : PlcMemory) (a : WordArea) (b : BitArea) (i j v : ℕ)
    → read_bit (write_word m a i v) b j ≡ read_bit m b j
read_bit-write_word m a b i j v = ground (
  arith,
  read_bit-eq-get_or (write_word m a i v) b j,
  read_bit-eq-get_or m b j,
  bits-write_word m a b i v,
)
