-- ===== src/S7/Clients.antt =====
-- What becomes of a client's writes to the buffers of DB1 and DB2.
use v_plc_runtime.Shared.{
  ℕ, zero, suc, ◌+◌, ◌*◌, ◌^◌, ◌≤◌, ◌<◌, ◌≡◌, ◌≢◌, refl, ◌∙◌, sym, ap, Bool, false, ◌⊎◌, not, ◌||◌,
  ◌/◌, ◌==◌, subst, either_branch, if◌then◌else◌, List, length, get_or, get_or_ext, arith, inl, inr,
  Bool-cases,
}
use v_plc_runtime.Memory.{PlcMemory, WordArea, words, s7_db1_area, s7_db2_area, read_word}
use v_plc_runtime.Memory.Laws.{read_word-write_word}
use v_plc_runtime.Memory.Lens.{same_word_area, same_word_area_self}
use v_plc_runtime.Memory.Shape.{write_word-SameShape}
use v_plc_runtime.S7.{
  Buffers, detect_one, detect_writes, sync_before_cycle, publish_words, sync_after_cycle,
}
use v_plc_runtime.S7.Quiet.{IsSized, length-publish_words, publish_words_at, get_or-set_pair_ne}

-- The register that the bytes of a pair stand for.
abbrev pub pair_value : List ℕ → ℕ → ℕ
pair_value b k = get_or b (k * 2) 0 * 2 ^ 8 + get_or b (k * 2 + 1) 0

-- The pair differs from its shadow.
abbrev pub is_changed : List ℕ → List ℕ → ℕ → Bool
is_changed b s k =
    not (get_or b (k * 2) 0 == get_or s (k * 2) 0)
    || not (get_or b (k * 2 + 1) 0 == get_or s (k * 2 + 1) 0)

-- The published buffer does not depend on what stood in it.
publish_words_overwrites :
    (m : PlcMemory) (a : WordArea) (b c : List ℕ)
    → length b ≡ 2048
    → length c ≡ 2048
    → publish_words m a b 0 1024 ≡ publish_words m a c 0 1024
publish_words_overwrites m a b c hb hc =
    let p : List ℕ = publish_words m a b 0 1024 in
    let q : List ℕ = publish_words m a c 0 1024 in
    let size : length p ≡ 2048 = length-publish_words m a b 0 1024 ∙ hb in
    get_or_ext 0 p q (size ∙ sym (length-publish_words m a c 0 1024 ∙ hc)) λ j h.
      (let k : ℕ = j / 2 in
        let x = publish_words_at m a b 0 1024 k (omega arith) (omega arith) (omega arith) in
        let y = publish_words_at m a c 0 1024 k (omega arith) (omega arith) (omega arith) in
        elim (Bool-cases (j == k * 2)) [
          | inl e ↦ subst (λ n. get_or p n 0 ≡ get_or q n 0) (ground arith) (x.0 ∙ sym y.0)
          | inr e ↦ subst (λ n. get_or p n 0 ≡ get_or q n 0) (ground arith) (x.1 ∙ sym y.1)
        ])

-- A write of a client between the two copies is overwritten by the second.
pub sync_after_cycle_overwrites :
    (m : PlcMemory) (b : Buffers) (db1 db2 : List ℕ)
    → IsSized b
    → length db1 ≡ 2048
    → length db2 ≡ 2048
    → sync_after_cycle m (record b { db1 = db1; db2 = db2 }) ≡ sync_after_cycle m b
unfolding sync_after_cycle
sync_after_cycle_overwrites m b db1 db2 h h1 h2 =
    ap (λ l. record (sync_after_cycle m (record b { db2 = db2 })) { db1 = l })
      (publish_words_overwrites m s7_db1_area db1 b.db1 h1 h.db1)
    ∙ ap (λ l. record (sync_after_cycle m b) { db2 = l })
        (publish_words_overwrites m s7_db2_area db2 b.db2 h2 h.db2)

module _ (a : WordArea) (b : List ℕ) where
  module _ (m : PlcMemory) (s : List ℕ) (i : ℕ) where
    length-words-detect_one :
        (c : WordArea) → length (words (detect_one m a b s i).0 c) ≡ length (words m c)
    unfolding detect_one
    length-words-detect_one c =
        either_branch (λ (o : PlcMemory × List ℕ). length (words o.0 c) ≡ length (words m c))
          (is_changed b s i) _ _ (λ _. (write_word-SameShape m a i (pair_value b i)).word_sizes c)
          (λ _. refl)

    -- Only register `i` of the area can change.
    detect_one_frame :
        (c : WordArea) (k : ℕ)
        → (same_word_area a c ≡ false) ⊎ (i ≢ k)
        → read_word (detect_one m a b s i).0 c k ≡ read_word m c k
    unfolding detect_one
    detect_one_frame c k (inl other) =
        ground (arith, read_word-write_word m a c i k (pair_value b i))
    detect_one_frame c k (inr other) =
        ground (arith, read_word-write_word m a c i k (pair_value b i))

    detect_one_here :
        i < length (words m a)
        → read_word (detect_one m a b s i).0 a i
          ≡ (if is_changed b s i then pair_value b i else read_word m a i)
    unfolding detect_one
    detect_one_here h =
        ground (arith, read_word-write_word m a a i i (pair_value b i), same_word_area_self a)

    detect_one_changed :
        (k : ℕ) → i ≢ k → is_changed b (detect_one m a b s i).1 k ≡ is_changed b s k
    unfolding detect_one
    detect_one_changed k ne =
        either_branch (λ (o : PlcMemory × List ℕ). is_changed b o.1 k ≡ is_changed b s k)
          (is_changed b s i) _ _
          (λ _.
            rw
              (
                get_or-set_pair_ne s i (get_or b (i * 2) 0) (get_or b (i * 2 + 1) 0) (k * 2)
                    (λ e. omega (arith, ne, e)) (λ e. omega (arith, e)),
                get_or-set_pair_ne s i (get_or b (i * 2) 0) (get_or b (i * 2 + 1) 0) (k * 2 + 1)
                    (λ e. omega (arith, e)) (λ e. omega (arith, e)),
              )
              refl)
          (λ _. refl)

  detect_writes_frame :
      (m : PlcMemory) (s : List ℕ) (i n : ℕ) (c : WordArea) (k : ℕ)
      → (same_word_area a c ≡ false) ⊎ (k < i)
      → read_word (detect_writes m a b s i n).0 c k ≡ read_word m c k
  unfolding detect_writes
  detect_writes_frame m s i zero c k h = refl
  detect_writes_frame m s i (suc n) c k (inl other) =
      detect_writes_frame (detect_one m a b s i).0 (detect_one m a b s i).1 (i + 1) n c k
        (inl other)
      ∙ detect_one_frame m s i c k (inl other)
  detect_writes_frame m s i (suc n) c k (inr below) =
      detect_writes_frame (detect_one m a b s i).0 (detect_one m a b s i).1 (i + 1) n c k
        (inr (omega arith))
      ∙ detect_one_frame m s i c k (inr (λ e. omega (arith, e)))

  -- The loop over an area stores the registers whose pairs have changed.
  detect_writes_read :
      (m : PlcMemory) (s : List ℕ) (i n k : ℕ)
      → i ≤ k
      → k < i + n
      → k < length (words m a)
      → read_word (detect_writes m a b s i n).0 a k
        ≡ (if is_changed b s k then pair_value b k else read_word m a k)
  unfolding detect_writes
  detect_writes_read m s i zero k p q h = absurd (omega arith)
  detect_writes_read m s i (suc n) k p q h =
      let m' : PlcMemory = (detect_one m a b s i).0 in
      let s' : List ℕ = (detect_one m a b s i).1 in
      elim (Bool-cases (i == k)) [
        | inl e ↦
            (let same : i ≡ k = ground arith in
              subst
                (λ j.
                  read_word (detect_writes m' a b s' (i + 1) n).0 a j
                  ≡ (if is_changed b s j then pair_value b j else read_word m a j))
                same
                (detect_writes_frame m' s' (i + 1) n a i (inr (omega arith))
                  ∙ detect_one_here m s i (omega arith)))
        | inr e ↦
            (let apart : i ≢ k = ground arith in
              detect_writes_read m' s' (i + 1) n k (omega arith) (omega arith)
                (omega (arith, length-words-detect_one m s i a))
              ∙ (rw (detect_one_changed m s i k apart, detect_one_frame m s i a k (inr apart))
                  refl))
      ]

  length-words-detect_writes :
      (m : PlcMemory) (s : List ℕ) (i n : ℕ) (c : WordArea)
      → length (words (detect_writes m a b s i n).0 c) ≡ length (words m c)
  unfolding detect_writes
  length-words-detect_writes m s i zero c = refl
  length-words-detect_writes m s i (suc n) c =
      length-words-detect_writes (detect_one m a b s i).0 (detect_one m a b s i).1 (i + 1) n c
      ∙ length-words-detect_one m s i c

-- The copy before a cycle stores a register of DB1 and DB2 exactly where its bytes differ from their shadow, with the value that the bytes
-- stand for; every other register keeps its value. The memory has the register.
pub sync_before_cycle_stores :
    (m : PlcMemory) (b : Buffers) (k : ℕ)
    → k < 1024
    → k < length (words m s7_db1_area)
    → k < length (words m s7_db2_area)
    → let out = (sync_before_cycle m b).0 in
      (read_word out s7_db1_area k ≡ (
        if is_changed b.db1 b.db1_shadow k then pair_value b.db1 k else read_word m s7_db1_area k))
      × (read_word out s7_db2_area k ≡ (
          if is_changed b.db2 b.db2_shadow k
          then pair_value b.db2 k
          else read_word m s7_db2_area k))
unfolding sync_before_cycle same_word_area
sync_before_cycle_stores m b k h h1 h2 =
    let first : PlcMemory = (detect_writes m s7_db1_area b.db1 b.db1_shadow 0 1024).0 in
    let size = length-words-detect_writes s7_db1_area b.db1 m b.db1_shadow 0 1024 s7_db2_area in
    (
      detect_writes_frame s7_db2_area b.db2 first b.db2_shadow 0 1024 s7_db1_area k (inl refl)
          ∙ detect_writes_read s7_db1_area b.db1 m b.db1_shadow 0 1024 k (omega arith) h h1,
      detect_writes_read s7_db2_area b.db2 first b.db2_shadow 0 1024 k (omega arith) h
            (omega (arith, size))
          ∙ (rw
              (detect_writes_frame s7_db1_area b.db1 m b.db1_shadow 0 1024 s7_db2_area k (inl refl))
              refl),
    )
