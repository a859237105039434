-- ===== src/Mc/Store.antt =====
-- The loops of the MC server against the vectors of the memory.
use v_plc_runtime.Shared.{
  ℕ, zero, suc, ◌+◌, ◌*◌, ◌^◌, ◌≤◌, ◌<◌, ◌≡◌, refl, ◌∙◌, ap, sym, Bool, false, List, [], ◌∷◌, ◌++◌,
  append_assoc, some, length, length-append, get_elem?, get_elem?-append_right, get_or, set, arith,
  u16, low_byte, high_byte, IsWord, All, Text, text_eq, ap₂,
}
use v_plc_runtime.Memory.{
  PlcMemory, WordArea, BitArea, words, bits, write_word, write_bit, read_word, read_bit, copy_range,
  store_range, mc_word_area, mc_bit_area, read_mc_word, write_mc_word, read_mc_bit, write_mc_bit,
  read_named_word, write_named_word, read_named_bit, write_named_bit,
}
use v_plc_runtime.Memory.Lens.{same_word_area_self, same_bit_area_self}
use v_plc_runtime.Memory.Laws.{
  words-write_word, bits-write_bit, read_word-eq-get_or, read_bit-eq-get_or,
}
use v_plc_runtime.Mc.{read_uint16_le, read_word_points, write_word_points, is_blank}
use v_plc_runtime.Mc.Nibbles.{bit_points}

-- Words in the byte order of the protocol.
unfoldable pub le_bytes : List ℕ → List ℕ
le_bytes [] = []
le_bytes (v ∷ vs) = low_byte v ∷ high_byte v ∷ le_bytes vs

pub length-le_bytes : (vs : List ℕ) → length (le_bytes vs) ≡ 2 * length vs
unfolding le_bytes
length-le_bytes [] = refl
length-le_bytes (v ∷ vs) = omega (arith, length-le_bytes vs)

-- The memory after the writes, one by one.
unfoldable pub store_words : PlcMemory → Text → ℕ → ℕ → List ℕ → PlcMemory
store_words m area s i [] = m
store_words m area s i (v ∷ vs) =
    store_words (write_mc_word m area (u16 (s + i)) v) area s (i + 1) vs

unfoldable pub store_bits : PlcMemory → Text → ℕ → ℕ → List Bool → PlcMemory
store_bits m area s i [] = m
store_bits m area s i (v ∷ vs) = store_bits (write_mc_bit m area (u16 (s + i)) v) area s (i + 1) vs

read_uint16_le-append :
    (pre rest : List ℕ) (v i : ℕ)
    → v < 2 ^ 16
    → i ≡ length pre
    → read_uint16_le (pre ++ (low_byte v ∷ high_byte v ∷ rest)) i ≡ some v
unfolding read_uint16_le
read_uint16_le-append pre rest v i h e =
    let l : List ℕ = low_byte v ∷ high_byte v ∷ rest in
    let first : get_elem? (pre ++ l) i ≡ some (low_byte v) =
      ap (get_elem? (pre ++ l)) (omega arith) ∙ get_elem?-append_right pre l 0 in
    let second : get_elem? (pre ++ l) (i + 1) ≡ some (high_byte v) =
      ap (get_elem? (pre ++ l)) (omega arith) ∙ get_elem?-append_right pre l 1 in
    rw (first, second) (ap some (omega arith))

pub write_word_points-append :
    (m : PlcMemory) (pre vs : List ℕ) (area : Text) (s i : ℕ)
    → All IsWord vs
    → 21 + i * 2 ≡ length pre
    → write_word_points m (pre ++ le_bytes vs) area s i (length vs)
      ≡ some (store_words m area s i vs)
unfolding write_word_points le_bytes store_words
write_word_points-append m pre [] area s i h e = refl
write_word_points-append m pre (v ∷ vs) area s i h e =
    let next : List ℕ = pre ++ (low_byte v ∷ high_byte v ∷ []) in
    let k : PlcMemory = write_mc_word m area (u16 (s + i)) v in
    let shape : next ++ le_bytes vs ≡ pre ++ (low_byte v ∷ high_byte v ∷ le_bytes vs) =
      append_assoc pre (low_byte v ∷ high_byte v ∷ []) (le_bytes vs) in
    let step : 21 + (i + 1) * 2 ≡ length next =
      omega (arith, length-append pre (low_byte v ∷ high_byte v ∷ [])) in
    rw (read_uint16_le-append pre (le_bytes vs) v (21 + i * 2) h.0 e) (
      ap (λ l. write_word_points k l area s (i + 1) (length vs)) (sym shape)
      ∙ write_word_points-append k next vs area s (i + 1) h.1 step)

-- A name that stands for an area is not blank.
pub not_blank_word :
    (area : Text) {a : WordArea} → mc_word_area area ≡ some a → is_blank area ≡ false
unfolding mc_word_area is_blank text_eq
not_blank_word [] h = cc
not_blank_word (c ∷ cs) h = refl

pub not_blank_bit : (area : Text) {a : BitArea} → mc_bit_area area ≡ some a → is_blank area ≡ false
unfolding mc_bit_area is_blank text_eq
not_blank_bit [] h = cc
not_blank_bit (c ∷ cs) h = refl

module _ (area : Text) (s : ℕ) where
  pub words-store_words :
      (m : PlcMemory) (a : WordArea) (i : ℕ) (vs : List ℕ)
      → mc_word_area area ≡ some a
      → s + i + length vs ≤ 2 ^ 16
      → words (store_words m area s i vs) a ≡ store_range (words m a) (s + i) vs
  unfolding store_words store_range
  words-store_words m a i [] e h = refl
  words-store_words m a i (v ∷ vs) e h =
      let fits : u16 (s + i) ≡ s + i = omega arith in
      let wrote : write_mc_word m area (u16 (s + i)) v ≡ write_word m a (s + i) v =
        unfold write_mc_word in rw (e, fits) (unfold write_named_word in refl) in
      let set_there : words (write_word m a (s + i) v) a ≡ set (words m a) (s + i) v =
        words-write_word m a a (s + i) v ∙ (rw (same_word_area_self a)) in
      let next : s + (i + 1) ≡ s + i + 1 = omega arith in
      rw (wrote) (
        words-store_words (write_word m a (s + i) v) a (i + 1) vs e (omega arith)
        ∙ ap₂ (λ l j. store_range l j vs) set_there next)

  pub read_word_points-eq :
      (m : PlcMemory) (a : WordArea) (i n : ℕ)
      → mc_word_area area ≡ some a
      → s + i + n ≤ 2 ^ 16
      → read_word_points m area s i n ≡ le_bytes (copy_range (words m a) 0 (s + i) n)
  unfolding read_word_points copy_range le_bytes
  read_word_points-eq m a i zero e h = refl
  read_word_points-eq m a i (suc n) e h =
      let fits : u16 (s + i) ≡ s + i = omega arith in
      let named : read_mc_word m area (u16 (s + i)) ≡ read_word m a (s + i) =
        unfold read_mc_word in rw (e, fits) (unfold read_named_word in refl) in
      let val : read_mc_word m area (u16 (s + i)) ≡ get_or (words m a) (s + i) 0 =
        named ∙ read_word-eq-get_or m a (s + i) in
      let next : s + (i + 1) ≡ s + i + 1 = omega arith in
      rw val (
        ap
          (λ l.
            low_byte (get_or (words m a) (s + i) 0) ∷ high_byte (get_or (words m a) (s + i) 0) ∷ l)
          (read_word_points-eq m a (i + 1) n e (omega arith)
            ∙ ap (λ j. le_bytes (copy_range (words m a) 0 j n)) next))

  pub bits-store_bits :
      (m : PlcMemory) (a : BitArea) (i : ℕ) (vs : List Bool)
      → mc_bit_area area ≡ some a
      → s + i + length vs ≤ 2 ^ 16
      → bits (store_bits m area s i vs) a ≡ store_range (bits m a) (s + i) vs
  unfolding store_bits store_range
  bits-store_bits m a i [] e h = refl
  bits-store_bits m a i (v ∷ vs) e h =
      let fits : u16 (s + i) ≡ s + i = omega arith in
      let wrote : write_mc_bit m area (u16 (s + i)) v ≡ write_bit m a (s + i) v =
        unfold write_mc_bit in rw (e, fits) (unfold write_named_bit in refl) in
      let set_there : bits (write_bit m a (s + i) v) a ≡ set (bits m a) (s + i) v =
        bits-write_bit m a a (s + i) v ∙ (rw (same_bit_area_self a)) in
      let next : s + (i + 1) ≡ s + i + 1 = omega arith in
      rw (wrote) (
        bits-store_bits (write_bit m a (s + i) v) a (i + 1) vs e (omega arith)
        ∙ ap₂ (λ l j. store_range l j vs) set_there next)

  pub bit_points-eq :
      (m : PlcMemory) (a : BitArea) (i n : ℕ)
      → mc_bit_area area ≡ some a
      → s + i + n ≤ 2 ^ 16
      → bit_points m area s i n ≡ copy_range (bits m a) false (s + i) n
  unfolding bit_points copy_range
  bit_points-eq m a i zero e h = refl
  bit_points-eq m a i (suc n) e h =
      let fits : u16 (s + i) ≡ s + i = omega arith in
      let named : read_mc_bit m area (u16 (s + i)) ≡ read_bit m a (s + i) =
        unfold read_mc_bit in rw (e, fits) (unfold read_named_bit in refl) in
      let val : read_mc_bit m area (u16 (s + i)) ≡ get_or (bits m a) (s + i) false =
        named ∙ read_bit-eq-get_or m a (s + i) in
      let next : s + (i + 1) ≡ s + i + 1 = omega arith in
      rw val (
        ap (λ l. get_or (bits m a) (s + i) false ∷ l)
          (bit_points-eq m a (i + 1) n e (omega arith)
            ∙ ap (λ j. copy_range (bits m a) false j n) next))
