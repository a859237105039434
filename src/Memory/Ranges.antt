-- ===== src/Memory/Ranges.antt =====
-- The range operations: `readCoils` and its like deliver what `writeCoils` and its like stored, and
-- an invalid range reads nothing and writes nothing.
use v_plc_runtime.Shared.{
  ℕ, zero, suc, ◌+◌, ◌<◌, ◌≤◌, Bool, true, false, List, [], ◌∷◌, ◌≡◌, refl, ◌∙◌, arith, length, set,
  get_or, length-set, get_or-set_self, get_or-set_ne, get_or_ext, All, All-set, All-get_or,
  if◌then◌else◌, leb, IsWord,
}
use v_plc_runtime.Memory.{
  PlcMemory, BitArea, WordArea, bits, words, with_bits, with_words, copy_range, store_range,
  read_bits, read_words, write_bits, write_words,
}
use v_plc_runtime.Memory.Lens.{
  bits-with_bits, words-with_words, same_bit_area_self, same_word_area_self,
}
use v_plc_runtime.Memory.Shape.{
  SameShape, SameShape-refl, with_bits-SameShape, with_words-SameShape, IsValid, with_words-IsValid,
  with_bits-IsValid,
}

module _ {ℓ} {A : Type ℓ} where
  pub length-copy_range : (l : List A) (d : A) (s n : ℕ) → length (copy_range l d s n) ≡ n
  unfolding copy_range
  length-copy_range l d s zero = refl
  length-copy_range l d s (suc n) = omega (arith, length-copy_range l d (s + 1) n)

  pub get_or-copy_range :
      (l : List A) (d : A) (s n i : ℕ)
      → i < n
      → get_or (copy_range l d s n) i d ≡ get_or l (s + i) d
  unfolding copy_range
  get_or-copy_range l d s zero i h = absurd (omega arith)
  get_or-copy_range l d s (suc n) zero h = ground arith
  get_or-copy_range l d s (suc n) (suc i) h =
      let e : s + 1 + i ≡ s + suc i = omega arith in
      rw (← e) (get_or-copy_range l d (s + 1) n i (omega arith))

  pub length-store_range :
      (l : List A) (s : ℕ) (vs : List A) → length (store_range l s vs) ≡ length l
  unfolding store_range
  length-store_range l s [] = refl
  length-store_range l s (v ∷ vs) = length-store_range (set l s v) (s + 1) vs ∙ length-set l s v

  pub get_or-store_range_below :
      (l : List A) (d : A) (s : ℕ) (vs : List A) (i : ℕ)
      → i < s
      → get_or (store_range l s vs) i d ≡ get_or l i d
  unfolding store_range
  get_or-store_range_below l d s [] i h = refl
  get_or-store_range_below l d s (v ∷ vs) i h =
      get_or-store_range_below (set l s v) d (s + 1) vs i (omega arith)
      ∙ get_or-set_ne l s i v d (omega arith)

  pub get_or-store_range_above :
      (l : List A) (d : A) (s : ℕ) (vs : List A) (i : ℕ)
      → s + length vs ≤ i
      → get_or (store_range l s vs) i d ≡ get_or l i d
  unfolding store_range
  get_or-store_range_above l d s [] i h = refl
  get_or-store_range_above l d s (v ∷ vs) i h =
      get_or-store_range_above (set l s v) d (s + 1) vs i (omega arith)
      ∙ get_or-set_ne l s i v d (omega arith)

  pub get_or-store_range_inside :
      (l : List A) (d : A) (s : ℕ) (vs : List A) (i : ℕ)
      → s + length vs ≤ length l
      → i < length vs
      → get_or (store_range l s vs) (s + i) d ≡ get_or vs i d
  unfolding store_range
  get_or-store_range_inside l d s [] i fits h = absurd (omega arith)
  get_or-store_range_inside l d s (v ∷ vs) zero fits h =
      let e : s ≡ s + zero = omega arith in
      rw (← e) (
        get_or-store_range_below (set l s v) d (s + 1) vs s (omega arith)
        ∙ get_or-set_self l s v d (omega arith))
  get_or-store_range_inside l d s (v ∷ vs) (suc i) fits h =
      let e : s + 1 + i ≡ s + suc i = omega arith in
      rw (← e) (
        get_or-store_range_inside (set l s v) d (s + 1) vs i (omega (arith, length-set l s v))
          (omega arith))

  -- Reading back a stored range gives the stored values.
  pub copy_range-store_range :
      (l : List A) (d : A) (s : ℕ) (vs : List A)
      → s + length vs ≤ length l
      → copy_range (store_range l s vs) d s (length vs) ≡ vs
  copy_range-store_range l d s vs fits =
      get_or_ext d _ _ (length-copy_range _ d s (length vs)) λ i h.
        let lt : i < length vs =
          omega (arith, length-copy_range (store_range l s vs) d s (length vs)) in
        get_or-copy_range (store_range l s vs) d s (length vs) i lt
        ∙ get_or-store_range_inside l d s vs i fits lt

pub All-store_range :
    (l : List ℕ) (s : ℕ) (vs : List ℕ)
    → All IsWord l
    → All IsWord vs
    → All IsWord (store_range l s vs)
unfolding store_range
All-store_range l s [] h k = h
All-store_range l s (v ∷ vs) h k =
    All-store_range (set l s v) (s + 1) vs (All-set IsWord l s v h k.0) k.1

pub All-copy_range : (l : List ℕ) (s n : ℕ) → All IsWord l → All IsWord (copy_range l 0 s n)
unfolding copy_range
All-copy_range l s zero h = tt
All-copy_range l s (suc n) h =
    (All-get_or IsWord l s 0 h (omega arith), All-copy_range l (s + 1) n h)

pub write_bits-SameShape :
    (m : PlcMemory) (a : BitArea) (s : ℕ) (vs : List Bool) → SameShape m (write_bits m a s vs)
unfolding write_bits
write_bits-SameShape m a s vs =
    elim (leb (s + length vs) (length (bits m a)))
      as (λ c. SameShape m (if c then with_bits m a (store_range (bits m a) s vs) else m)) [
        | true ↦ with_bits-SameShape m a _ (length-store_range (bits m a) s vs)
        | false ↦ SameShape-refl m
      ]

pub write_words-SameShape :
    (m : PlcMemory) (a : WordArea) (s : ℕ) (vs : List ℕ) → SameShape m (write_words m a s vs)
unfolding write_words
write_words-SameShape m a s vs =
    elim (leb (s + length vs) (length (words m a)))
      as (λ c. SameShape m (if c then with_words m a (store_range (words m a) s vs) else m)) [
        | true ↦ with_words-SameShape m a _ (length-store_range (words m a) s vs)
        | false ↦ SameShape-refl m
      ]

pub write_words-IsValid :
    (m : PlcMemory) (a : WordArea) (s : ℕ) (vs : List ℕ)
    → IsValid m
    → All IsWord vs
    → IsValid (write_words m a s vs)
unfolding write_words
write_words-IsValid m a s vs h k =
    elim (leb (s + length vs) (length (words m a)))
      as (λ c. IsValid (if c then with_words m a (store_range (words m a) s vs) else m)) [
        | true ↦ with_words-IsValid m a _ h (All-store_range (words m a) s vs (h.in_range a) k)
        | false ↦ h
      ]

pub write_bits-IsValid :
    (m : PlcMemory) (a : BitArea) (s : ℕ) (vs : List Bool)
    → IsValid m
    → IsValid (write_bits m a s vs)
unfolding write_bits
write_bits-IsValid m a s vs h =
    elim (leb (s + length vs) (length (bits m a)))
      as (λ c. IsValid (if c then with_bits m a (store_range (bits m a) s vs) else m)) [
        | true ↦ with_bits-IsValid m a _ h
        | false ↦ h
      ]

-- A range of bits that lies in the area, written and then read, gives the written values.
pub read_bits-write_bits :
    (m : PlcMemory) (a : BitArea) (s : ℕ) (vs : List Bool)
    → s + length vs ≤ length (bits m a)
    → read_bits (write_bits m a s vs) a s (length vs) ≡ vs
unfolding read_bits write_bits
read_bits-write_bits m a s [] fits = ground arith
read_bits-write_bits m a s (v ∷ vs) fits = ground (
  arith,
  bits-with_bits a a m (store_range (bits m a) s (v ∷ vs)),
  same_bit_area_self a,
  length-store_range (bits m a) s (v ∷ vs),
  copy_range-store_range (bits m a) false s (v ∷ vs),
)

-- A range of words that lies in the area, written and then read, gives the written values.
pub read_words-write_words :
    (m : PlcMemory) (a : WordArea) (s : ℕ) (vs : List ℕ)
    → s + length vs ≤ length (words m a)
    → read_words (write_words m a s vs) a s (length vs) ≡ vs
unfolding read_words write_words
read_words-write_words m a s [] fits = ground arith
read_words-write_words m a s (v ∷ vs) fits = ground (
  arith,
  words-with_words a a m (store_range (words m a) s (v ∷ vs)),
  same_word_area_self a,
  length-store_range (words m a) s (v ∷ vs),
  copy_range-store_range (words m a) 0 s (v ∷ vs),
)
