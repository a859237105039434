-- ===== src/S7/Bits.antt =====
-- The bits of PE and PA in their buffers.
use v_plc_runtime.Shared.{
  ℕ, zero, suc, ◌+◌, ◌-◌, ◌*◌, ◌/◌, ◌%◌, ◌^◌, ◌≤◌, ◌<◌, ◌≡◌, ◌≢◌, refl, ◌∙◌, sym, ap, ap₂, subst,
  Bool, true, false, not, ltb, ltb→lt, ◌==◌, if◌then◌else◌, List, length, length-set, get_or, set,
  get_or-set_self, get_or-set_ne, IsByte, IsBytes, All-get_or, All-set, passes_all,
  passes_all_sound, arith, inl, inr, Bool-cases,
}
use v_plc_runtime.Memory.{PlcMemory, BitArea, read_bit}
use v_plc_runtime.S7.{put_bit, publish_bits}

-- Bit `j` of a byte is set.
abbrev pub bit_of : ℕ → ℕ → Bool
bit_of byte j = byte / 2 ^ j % 2 == 1

-- The byte with bit `j` replaced, as `put_bit` computes it.
abbrev with_bit : ℕ → ℕ → Bool → ℕ
with_bit byte j v =
    let cleared = byte - byte / 2 ^ j % 2 * 2 ^ j in if v then cleared + 2 ^ j else cleared

abbrev same_bits : Bool → Bool → Bool
same_bits true b = b
same_bits false b = not b

abbrev keeps_bits : Bool → ℕ → ℕ → ℕ → Bool
keeps_bits v j k byte =
    same_bits (bit_of (with_bit byte j v) k) (if j == k then v else bit_of byte k)

bits_table : Bool → Bool
bits_table v = passes_all (λ j. passes_all (λ k. passes_all (keeps_bits v j k) 256) 8) 8

table_on : bits_table true ≡ true
unfolding bits_table passes_all
table_on = refl

table_off : bits_table false ≡ true
unfolding bits_table passes_all
table_off = refl

byte_table : Bool → Bool
byte_table v = passes_all (λ j. passes_all (λ byte. ltb (with_bit byte j v) 256) 256) 8

byte_table_on : byte_table true ≡ true
unfolding byte_table passes_all
byte_table_on = refl

byte_table_off : byte_table false ≡ true
unfolding byte_table passes_all
byte_table_off = refl

with_bit-lt : (v : Bool) (byte j : ℕ) → byte < 256 → j < 8 → with_bit byte j v < 256
unfolding byte_table
with_bit-lt v byte j hb hj = ltb→lt _ _ (
    passes_all_sound (λ b. ltb (with_bit b j v) 256) 256 byte hb
      (passes_all_sound (λ j. passes_all (λ b. ltb (with_bit b j v) 256) 256) 8 j hj (row v)))
  where
    row : (v : Bool) → byte_table v ≡ true
    row true = byte_table_on
    row false = byte_table_off

same_bits_sound : (a b : Bool) → same_bits a b ≡ true → a ≡ b
same_bits_sound true true h = refl
same_bits_sound true false h = sym h
same_bits_sound false true h = h
same_bits_sound false false h = refl

bit_of-with_bit :
    (v : Bool) (byte j k : ℕ)
    → byte < 256
    → j < 8
    → k < 8
    → bit_of (with_bit byte j v) k ≡ (if j == k then v else bit_of byte k)
unfolding bits_table
bit_of-with_bit v byte j k hb hj hk = same_bits_sound _ _ (
    passes_all_sound (keeps_bits v j k) 256 byte hb (
      passes_all_sound (λ k. passes_all (keeps_bits v j k) 256) 8 k hk
        (passes_all_sound (λ j. passes_all (λ k. passes_all (keeps_bits v j k) 256) 8) 8 j hj
          (row v))))
  where
    row : (v : Bool) → bits_table v ≡ true
    row true = table_on
    row false = table_off

same_place : (i k : ℕ) → i / 8 ≡ k / 8 → (i % 8 == k % 8) ≡ (i == k)
same_place i k e = ground arith

other_place : (i k : ℕ) → i / 8 ≢ k / 8 → (i == k) ≡ false
other_place i k ne = ground arith

-- Bit `k` of a buffer.
abbrev pub buffer_bit : List ℕ → ℕ → Bool
buffer_bit b k = bit_of (get_or b (k / 8) 0) (k % 8)

module _ (b : List ℕ) (i : ℕ) (v : Bool) (bytes : IsBytes b) where
  put_bit-IsBytes : IsBytes (put_bit b i v)
  unfolding put_bit
  put_bit-IsBytes = All-set IsByte b (i / 8) _ bytes (
      with_bit-lt v (get_or b (i / 8) 0) (i % 8) (All-get_or IsByte b (i / 8) 0 bytes (omega arith))
        (omega arith))

  buffer_bit-put_bit :
      (k : ℕ)
      → i / 8 < length b
      → buffer_bit (put_bit b i v) k ≡ (if i == k then v else buffer_bit b k)
  unfolding put_bit
  buffer_bit-put_bit k h =
      let byte : ℕ = get_or b (i / 8) 0 in
      let small : byte < 256 = All-get_or IsByte b (i / 8) 0 bytes (omega arith) in
      elim (Bool-cases (i / 8 == k / 8)) [
        | inl e ↦
            (let same : i / 8 ≡ k / 8 = ground arith in
              let stored : get_or (set b (i / 8) (with_bit byte (i % 8) v)) (k / 8) 0
                  ≡ with_bit byte (i % 8) v =
                ap (λ n. get_or (set b (i / 8) (with_bit byte (i % 8) v)) n 0) (sym same)
                ∙ get_or-set_self b (i / 8) (with_bit byte (i % 8) v) 0 h in
              ap (λ n. bit_of n (k % 8)) stored
              ∙ (bit_of-with_bit v byte (i % 8) (k % 8) small (omega arith) (omega arith)
                  ∙ ap₂ (λ (c d : Bool). if c then v else d) (same_place i k same)
                      (ap (λ n. bit_of (get_or b n 0) (k % 8)) same)))
        | inr e ↦
            (let apart : i / 8 ≢ k / 8 = ground arith in
              ap (λ n. bit_of n (k % 8))
                (get_or-set_ne b (i / 8) (k / 8) (with_bit byte (i % 8) v) 0 apart)
              ∙ ap (λ (c : Bool). if c then v else buffer_bit b k) (sym (other_place i k apart)))
      ]

length-put_bit : (b : List ℕ) (i : ℕ) (v : Bool) → length (put_bit b i v) ≡ length b
unfolding put_bit
length-put_bit b i v = length-set b (i / 8) (with_bit (get_or b (i / 8) 0) (i % 8) v)

module _ (m : PlcMemory) (a : BitArea) where
  buffer_bit-publish_bits_below :
      (b : List ℕ) (i n k : ℕ)
      → IsBytes b
      → (i + n) ≤ length b * 8
      → k < i
      → buffer_bit (publish_bits m a b i n) k ≡ buffer_bit b k
  unfolding publish_bits
  buffer_bit-publish_bits_below b i zero k h fits lt = refl
  buffer_bit-publish_bits_below b i (suc n) k h fits lt =
      let v : Bool = read_bit m a i in
      buffer_bit-publish_bits_below (put_bit b i v) (i + 1) n k (put_bit-IsBytes b i v h)
        (omega (arith, length-put_bit b i v)) (omega arith)
      ∙ (buffer_bit-put_bit b i v h k (omega arith) ∙ ground arith)

  -- After the loop, bit `k` of the buffer is the bit of the memory.
  pub buffer_bit-publish_bits :
      (b : List ℕ) (i n k : ℕ)
      → IsBytes b
      → (i + n) ≤ length b * 8
      → i ≤ k
      → k < i + n
      → buffer_bit (publish_bits m a b i n) k ≡ read_bit m a k
  unfolding publish_bits
  buffer_bit-publish_bits b i zero k h fits p q = absurd (omega arith)
  buffer_bit-publish_bits b i (suc n) k h fits p q =
      let v : Bool = read_bit m a i in
      let next : List ℕ = put_bit b i v in
      let bytes : IsBytes next = put_bit-IsBytes b i v h in
      elim (Bool-cases (i == k)) [
        | inl e ↦
            (let same : i ≡ k = ground arith in
              subst (λ j. buffer_bit (publish_bits m a next (i + 1) n) j ≡ read_bit m a j) same
                (buffer_bit-publish_bits_below next (i + 1) n i bytes
                    (omega (arith, length-put_bit b i v)) (omega arith)
                  ∙ (buffer_bit-put_bit b i v h i (omega arith) ∙ ground arith)))
        | inr e ↦
            (let apart : i ≢ k = ground arith in
              buffer_bit-publish_bits next (i + 1) n k bytes (omega (arith, length-put_bit b i v))
                (omega arith) (omega arith))
      ]
