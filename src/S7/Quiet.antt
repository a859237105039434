-- ===== src/S7/Quiet.antt =====
-- The loops over the registers of the S7 buffers.
use v_plc_runtime.Shared.{
  ℕ, zero, suc, ◌+◌, ◌*◌, ◌%◌, ◌^◌, ◌≤◌, ◌<◌, ◌≡◌, ◌≢◌, refl, ◌∙◌, sym, subst, List, ◌==◌, length,
  get_or, set, length-set, get_or-set_ne, get_or-set_self, high_byte, low_byte, arith, inl, inr,
  Bool-cases,
}
use v_plc_runtime.Memory.{PlcMemory, WordArea, s7_db1_area, s7_db2_area, read_word}
use v_plc_runtime.S7.{
  Buffers, set_pair, detect_one, detect_writes, sync_before_cycle, publish_words, sync_after_cycle,
}

pub length-set_pair : (b : List ℕ) (i h l : ℕ) → length (set_pair b i h l) ≡ length b
unfolding set_pair
length-set_pair b i h l = length-set (set b (i * 2) h) (i * 2 + 1) l ∙ length-set b (i * 2) h

pub length-publish_words :
    (m : PlcMemory) (a : WordArea) (b : List ℕ) (i n : ℕ)
    → length (publish_words m a b i n) ≡ length b
unfolding publish_words
length-publish_words m a b i zero = refl
length-publish_words m a b i (suc n) =
    let v : ℕ = read_word m a i in
    length-publish_words m a (set_pair b i (high_byte v) (low_byte v)) (i + 1) n
    ∙ length-set_pair b i (high_byte v) (low_byte v)

pub get_or-set_pair_ne :
    (b : List ℕ) (i h l j : ℕ)
    → i * 2 ≢ j
    → i * 2 + 1 ≢ j
    → get_or (set_pair b i h l) j 0 ≡ get_or b j 0
unfolding set_pair
get_or-set_pair_ne b i h l j p q =
    get_or-set_ne (set b (i * 2) h) (i * 2 + 1) j l 0 q ∙ get_or-set_ne b (i * 2) j h 0 p

get_or-set_pair_high :
    (b : List ℕ) (i h l : ℕ) → i * 2 + 1 < length b → get_or (set_pair b i h l) (i * 2) 0 ≡ h
unfolding set_pair
get_or-set_pair_high b i h l lt =
    get_or-set_ne (set b (i * 2) h) (i * 2 + 1) (i * 2) l 0 (λ e. omega arith)
    ∙ get_or-set_self b (i * 2) h 0 (omega arith)

get_or-set_pair_low :
    (b : List ℕ) (i h l : ℕ) → i * 2 + 1 < length b → get_or (set_pair b i h l) (i * 2 + 1) 0 ≡ l
unfolding set_pair
get_or-set_pair_low b i h l lt =
    get_or-set_self (set b (i * 2) h) (i * 2 + 1) l 0 (omega (arith, length-set b (i * 2) h))

-- The bytes below the loop's index are not written again.
publish_words_below :
    (m : PlcMemory) (a : WordArea) (b : List ℕ) (i n j : ℕ)
    → j < i * 2
    → get_or (publish_words m a b i n) j 0 ≡ get_or b j 0
unfolding publish_words
publish_words_below m a b i zero j lt = refl
publish_words_below m a b i (suc n) j lt =
    let v : ℕ = read_word m a i in
    publish_words_below m a (set_pair b i (high_byte v) (low_byte v)) (i + 1) n j (omega arith)
    ∙ get_or-set_pair_ne b i (high_byte v) (low_byte v) j (λ e. omega arith) (λ e. omega arith)

module _ (m : PlcMemory) (a : WordArea) where
  -- After the loop, register `k` of the buffer is the word of the memory, the high byte first.
  pub publish_words_at :
      (b : List ℕ) (i n k : ℕ)
      → i ≤ k
      → k < i + n
      → k * 2 + 1 < length b
      → (get_or (publish_words m a b i n) (k * 2) 0 ≡ high_byte (read_word m a k))
        × (get_or (publish_words m a b i n) (k * 2 + 1) 0 ≡ low_byte (read_word m a k))
  unfolding publish_words
  publish_words_at b i zero k p q lt = absurd (omega arith)
  publish_words_at b i (suc n) k p q lt =
      let v : ℕ = read_word m a i in
      let next : List ℕ = set_pair b i (high_byte v) (low_byte v) in
      elim (Bool-cases (i == k)) [
        | inl e ↦
            (let same : i ≡ k = ground arith in
              let there : i * 2 + 1 < length b = omega arith in
              subst
                (λ j.
                  (get_or (publish_words m a next (i + 1) n) (j * 2) 0
                    ≡ high_byte (read_word m a j))
                  × (get_or (publish_words m a next (i + 1) n) (j * 2 + 1) 0
                      ≡ low_byte (read_word m a j)))
                same
                (
                  publish_words_below m a next (i + 1) n (i * 2) (omega arith)
                      ∙ get_or-set_pair_high b i (high_byte v) (low_byte v) there,
                  publish_words_below m a next (i + 1) n (i * 2 + 1) (omega arith)
                      ∙ get_or-set_pair_low b i (high_byte v) (low_byte v) there,
                ))
        | inr e ↦
            (let other : i ≢ k = ground arith in
              publish_words_at next (i + 1) n k (omega arith) (omega arith)
                (omega (arith, length-set_pair b i (high_byte v) (low_byte v))))
      ]

  -- A scan of a buffer that agrees with its shadow changes nothing.
  detect_writes_same :
      (b s : List ℕ) (i n : ℕ)
      → ((k : ℕ)
          → i ≤ k
          → k < i + n
          → (get_or b (k * 2) 0 ≡ get_or s (k * 2) 0)
            × (get_or b (k * 2 + 1) 0 ≡ get_or s (k * 2 + 1) 0))
      → detect_writes m a b s i n ≡ (m, s)
  unfolding detect_writes detect_one
  detect_writes_same b s i zero h = refl
  detect_writes_same b s i (suc n) h =
      let here = h i (omega arith) (omega arith) in
      let rest : detect_writes m a b s (i + 1) n ≡ (m, s) =
        detect_writes_same b s (i + 1) n (λ k p q. h k (omega arith) (omega arith)) in
      ground (arith, here, rest)

  pub detect_after_publish :
      (b s : List ℕ) (n : ℕ)
      → length b ≡ n * 2
      → length s ≡ n * 2
      → detect_writes m a (publish_words m a b 0 n) (publish_words m a s 0 n) 0 n
        ≡ (m, publish_words m a s 0 n)
  detect_after_publish b s n hb hs =
      detect_writes_same (publish_words m a b 0 n) (publish_words m a s 0 n) 0 n λ k p q.
        let x = publish_words_at b 0 n k (omega arith) (omega arith) (omega arith) in
        let y = publish_words_at s 0 n k (omega arith) (omega arith) (omega arith) in
        (x.0 ∙ sym y.0, x.1 ∙ sym y.1)

pub record IsSized (b : Buffers) : Type 0 where
  pub db1 : length b.db1 ≡ 2048
  pub db1_shadow : length b.db1_shadow ≡ 2048
  pub db2 : length b.db2 ≡ 2048
  pub db2_shadow : length b.db2_shadow ≡ 2048

-- Where no client writes between the copy after one scan and the copy before the next, the latter changes neither the
-- memory nor the buffers: the server never takes its own output for a client's write.
pub sync_before_cycle_quiet :
    (m : PlcMemory) (b : Buffers)
    → IsSized b
    → sync_before_cycle m (sync_after_cycle m b) ≡ (m, sync_after_cycle m b)
unfolding sync_before_cycle sync_after_cycle
sync_before_cycle_quiet m b h = rw (
  detect_after_publish m s7_db1_area b.db1 b.db1_shadow 1024 h.db1 h.db1_shadow,
  detect_after_publish m s7_db2_area b.db2 b.db2_shadow 1024 h.db2 h.db2_shadow,
)

-- After the copy, every register of DB1 and DB2 stands in its buffer, the high byte first.
pub sync_after_cycle_publishes :
    (m : PlcMemory) (b : Buffers) (k : ℕ)
    → IsSized b
    → k < 1024
    → let out = sync_after_cycle m b in
      (get_or out.db1 (k * 2) 0 * 2 ^ 8 + get_or out.db1 (k * 2 + 1) 0
        ≡ read_word m s7_db1_area k % 2 ^ 16)
      × (get_or out.db2 (k * 2) 0 * 2 ^ 8 + get_or out.db2 (k * 2 + 1) 0
          ≡ read_word m s7_db2_area k % 2 ^ 16)
unfolding sync_after_cycle
sync_after_cycle_publishes m b k h lt =
    let x =
      publish_words_at m s7_db1_area b.db1 0 1024 k (omega arith) (omega arith)
        (omega (arith, h.db1)) in
    let y =
      publish_words_at m s7_db2_area b.db2 0 1024 k (omega arith) (omega arith)
        (omega (arith, h.db2)) in
    (rw (x.0, x.1) (omega arith), rw (y.0, y.1) (omega arith))
