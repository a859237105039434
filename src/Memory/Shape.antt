-- ===== src/Memory/Shape.antt =====
-- The invariant of the memory: operations keep every vector's size, and words stay below 2 ^ 16.
use v_plc_runtime.Shared.{
  ℕ, ◌^◌, ◌≡◌, refl, Bool, true, false, List, ◌∙◌, arith, length, length-set, set, All-set,
  All-get_or, IsWord, if◌then◌else◌, Option, none, some, All, ◌<◌,
}
use v_plc_runtime.Memory.{
  PlcMemory, BitArea, WordArea, bits, words, with_bits, with_words, write_bit, write_word,
  read_word, write_named_bit, write_named_word,
}
use v_plc_runtime.Memory.Lens.{
  bits-with_bits, words-with_words, words-with_bits, bits-with_words, same_bit_area_sound,
  same_word_area_sound, same_word_area,
}
use v_plc_runtime.Memory.Laws.{
  bits-write_bit, words-write_word, words-write_bit, bits-write_word, read_word-eq-get_or,
}

-- Every vector of `n` has the size that it has in `m`.
pub record SameShape (m n : PlcMemory) : Type 0 where
  pub bit_sizes : (a : BitArea) → length (bits n a) ≡ length (bits m a)
  pub word_sizes : (a : WordArea) → length (words n a) ≡ length (words m a)

-- Every word cell holds a 16-bit value.
pub record IsValid (m : PlcMemory) : Type 0 where
  pub in_range : (a : WordArea) → All IsWord (words m a)

pub SameShape-refl : (m : PlcMemory) → SameShape m m
SameShape-refl m = record { bit_sizes = λ a. refl; word_sizes = λ a. refl }

pub SameShape-trans : {m n o : PlcMemory} → SameShape m n → SameShape n o → SameShape m o
SameShape-trans p q = record {
  bit_sizes = λ a. q.bit_sizes a ∙ p.bit_sizes a;
  word_sizes = λ a. q.word_sizes a ∙ p.word_sizes a;
}

pub with_bits-SameShape :
    (m : PlcMemory) (a : BitArea) (l : List Bool)
    → length l ≡ length (bits m a)
    → SameShape m (with_bits m a l)
with_bits-SameShape m a l h = record {
  bit_sizes = λ b. ground (arith, bits-with_bits a b m l, same_bit_area_sound a b);
  word_sizes = λ b. ground (arith, words-with_bits a b m l);
}

pub with_words-SameShape :
    (m : PlcMemory) (a : WordArea) (l : List ℕ)
    → length l ≡ length (words m a)
    → SameShape m (with_words m a l)
with_words-SameShape m a l h = record {
  bit_sizes = λ b. ground (arith, bits-with_words a b m l);
  word_sizes = λ b. ground (arith, words-with_words a b m l, same_word_area_sound a b);
}

pub write_bit-SameShape :
    (m : PlcMemory) (a : BitArea) (i : ℕ) (v : Bool) → SameShape m (write_bit m a i v)
write_bit-SameShape m a i v = record {
  bit_sizes = λ b. ground (arith, bits-write_bit m a b i v, length-set (bits m b) i v);
  word_sizes = λ b. ground (arith, words-write_bit m a b i v);
}

pub write_word-SameShape :
    (m : PlcMemory) (a : WordArea) (i v : ℕ) → SameShape m (write_word m a i v)
write_word-SameShape m a i v = record {
  bit_sizes = λ b. ground (arith, bits-write_word m a b i v);
  word_sizes = λ b. ground (arith, words-write_word m a b i v, length-set (words m b) i v);
}

pub write_named_bit-SameShape :
    (m : PlcMemory) (o : Option BitArea) (i : ℕ) (v : Bool) → SameShape m (write_named_bit m o i v)
unfolding write_named_bit
write_named_bit-SameShape m none i v = SameShape-refl m
write_named_bit-SameShape m (some a) i v = write_bit-SameShape m a i v

pub write_named_word-SameShape :
    (m : PlcMemory) (o : Option WordArea) (i v : ℕ) → SameShape m (write_named_word m o i v)
unfolding write_named_word
write_named_word-SameShape m none i v = SameShape-refl m
write_named_word-SameShape m (some a) i v = write_word-SameShape m a i v

All-if :
    (c : Bool) (xs ys : List ℕ) → All IsWord xs → All IsWord ys → All IsWord (if c then xs else ys)
All-if c xs ys hx hy = elim c as (λ b. All IsWord (if b then xs else ys)) [ true ↦ hx | false ↦ hy ]

pub with_words-IsValid :
    (m : PlcMemory) (a : WordArea) (l : List ℕ)
    → IsValid m
    → All IsWord l
    → IsValid (with_words m a l)
with_words-IsValid m a l v h = record {
  in_range = λ b.
      rw (words-with_words a b m l) (All-if (same_word_area a b) l (words m b) h (v.in_range b));
}

pub with_bits-IsValid :
    (m : PlcMemory) (a : BitArea) (l : List Bool) → IsValid m → IsValid (with_bits m a l)
with_bits-IsValid m a l v = record { in_range = λ b. rw (words-with_bits a b m l) (v.in_range b) }

pub write_word-IsValid :
    (m : PlcMemory) (a : WordArea) (i v : ℕ) → IsValid m → v < 2 ^ 16 → IsValid (write_word m a i v)
write_word-IsValid m a i v h fits = record {
  in_range = λ b. rw (words-write_word m a b i v) (
      All-if (same_word_area a b) (set (words m b) i v) (words m b)
        (All-set IsWord (words m b) i v (h.in_range b) fits) (h.in_range b));
}

pub write_bit-IsValid :
    (m : PlcMemory) (a : BitArea) (i : ℕ) (v : Bool) → IsValid m → IsValid (write_bit m a i v)
write_bit-IsValid m a i v h = record {
  in_range = λ b. rw (words-write_bit m a b i v) (h.in_range b);
}

pub read_word-lt : (m : PlcMemory) (a : WordArea) (i : ℕ) → IsValid m → read_word m a i < 2 ^ 16
read_word-lt m a i h =
    rw (read_word-eq-get_or m a i) (All-get_or IsWord (words m a) i 0 (h.in_range a) (omega arith))

-- What every write keeps: the sizes, and the invariant on the values.
pub record IsKept (m n : PlcMemory) : Type 0 where
  pub shape : SameShape m n
  pub valid : IsValid m → IsValid n

pub IsKept-refl : (m : PlcMemory) → IsKept m m
IsKept-refl m = record { shape = SameShape-refl m; valid = λ v. v }

pub IsKept-trans : {m n o : PlcMemory} → IsKept m n → IsKept n o → IsKept m o
IsKept-trans p q = record {
  shape = SameShape-trans p.shape q.shape;
  valid = λ v. q.valid (p.valid v);
}
