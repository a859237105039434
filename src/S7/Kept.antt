-- ===== src/S7/Kept.antt =====
-- The copies of the S7 server keep the memory's invariant and the buffers' sizes.
use v_plc_runtime.Shared.{
  ℕ, zero, suc, ◌+◌, ◌*◌, ◌^◌, ◌≡◌, refl, ◌∙◌, List, length, get_or, All-set, All-get_or, IsByte,
  IsBytes, high_byte, low_byte, either_branch, arith,
}
use v_plc_runtime.Memory.{PlcMemory, WordArea, s7_db1_area, s7_db2_area, read_word}
use v_plc_runtime.Memory.Shape.{IsKept, IsKept-refl, IsKept-trans}
use v_plc_runtime.Memory.Kept.{write_word-IsKept}
use v_plc_runtime.S7.Quiet.{IsSized, length-set_pair, length-publish_words}
use v_plc_runtime.S7.{
  Buffers, set_pair, detect_one, detect_writes, sync_before_cycle, publish_words, sync_after_cycle,
}

detect_one-IsKept :
    (m : PlcMemory) (a : WordArea) (b s : List ℕ) (i : ℕ)
    → IsBytes b
    → IsKept m (detect_one m a b s i).0
unfolding detect_one
detect_one-IsKept m a b s i h =
    let hi : IsByte (get_or b (i * 2) 0) = All-get_or IsByte b (i * 2) 0 h (omega arith) in
    let lo : IsByte (get_or b (i * 2 + 1) 0) = All-get_or IsByte b (i * 2 + 1) 0 h (omega arith) in
    either_branch (λ (o : PlcMemory × List ℕ). IsKept m o.0) _ _ _
      (λ _.
        write_word-IsKept m a i (get_or b (i * 2) 0 * 2 ^ 8 + get_or b (i * 2 + 1) 0) (omega arith))
      (λ _. IsKept-refl m)

detect_writes-IsKept :
    (m : PlcMemory) (a : WordArea) (b s : List ℕ) (i n : ℕ)
    → IsBytes b
    → IsKept m (detect_writes m a b s i n).0
unfolding detect_writes
detect_writes-IsKept m a b s i zero h = IsKept-refl m
detect_writes-IsKept m a b s i (suc n) h =
    IsKept-trans (detect_one-IsKept m a b s i h)
      (detect_writes-IsKept (detect_one m a b s i).0 a b (detect_one m a b s i).1 (i + 1) n h)

pub sync_before_cycle-IsKept :
    (m : PlcMemory) (b : Buffers)
    → IsBytes b.db1
    → IsBytes b.db2
    → IsKept m (sync_before_cycle m b).0
unfolding sync_before_cycle
sync_before_cycle-IsKept m b h1 h2 =
    IsKept-trans (detect_writes-IsKept m s7_db1_area b.db1 b.db1_shadow 0 1024 h1) (
      detect_writes-IsKept (detect_writes m s7_db1_area b.db1 b.db1_shadow 0 1024).0 s7_db2_area
        b.db2 b.db2_shadow 0 1024 h2)

publish_words-IsBytes :
    (m : PlcMemory) (a : WordArea) (b : List ℕ) (i n : ℕ)
    → IsBytes b
    → IsBytes (publish_words m a b i n)
unfolding publish_words set_pair
publish_words-IsBytes m a b i zero h = h
publish_words-IsBytes m a b i (suc n) h =
    let v : ℕ = read_word m a i in
    publish_words-IsBytes m a (set_pair b i (high_byte v) (low_byte v)) (i + 1) n
      (All-set IsByte _ (i * 2 + 1) _ (All-set IsByte b (i * 2) _ h (omega arith)) (omega arith))

-- The buffers of DB1 and DB2 have their sizes, and hold bytes.
pub record IsBacked (b : Buffers) : Type 0 where
  pub sized : IsSized b
  pub db1_bytes : IsBytes b.db1
  pub db2_bytes : IsBytes b.db2

length-detect_one :
    (m : PlcMemory) (a : WordArea) (b s : List ℕ) (i : ℕ)
    → length (detect_one m a b s i).1 ≡ length s
unfolding detect_one
length-detect_one m a b s i =
    either_branch (λ (o : PlcMemory × List ℕ). length o.1 ≡ length s) _ _ _
      (λ _. length-set_pair s i (get_or b (i * 2) 0) (get_or b (i * 2 + 1) 0)) (λ _. refl)

length-detect_writes :
    (m : PlcMemory) (a : WordArea) (b s : List ℕ) (i n : ℕ)
    → length (detect_writes m a b s i n).1 ≡ length s
unfolding detect_writes
length-detect_writes m a b s i zero = refl
length-detect_writes m a b s i (suc n) =
    length-detect_writes (detect_one m a b s i).0 a b (detect_one m a b s i).1 (i + 1) n
    ∙ length-detect_one m a b s i

pub sync_before_cycle-IsBacked :
    (m : PlcMemory) (b : Buffers) → IsBacked b → IsBacked (sync_before_cycle m b).1
unfolding sync_before_cycle
sync_before_cycle-IsBacked m b h =
    let first = detect_writes m s7_db1_area b.db1 b.db1_shadow 0 1024 in
    record {
      sized = record {
        db1 = h.sized.db1;
        db1_shadow =
            length-detect_writes m s7_db1_area b.db1 b.db1_shadow 0 1024 ∙ h.sized.db1_shadow;
        db2 = h.sized.db2;
        db2_shadow =
            length-detect_writes first.0 s7_db2_area b.db2 b.db2_shadow 0 1024 ∙ h.sized.db2_shadow;
      };
      db1_bytes = h.db1_bytes;
      db2_bytes = h.db2_bytes;
    }

pub sync_after_cycle-IsBacked :
    (m : PlcMemory) (b : Buffers) → IsBacked b → IsBacked (sync_after_cycle m b)
unfolding sync_after_cycle
sync_after_cycle-IsBacked m b h = record {
  sized = record {
    db1 = length-publish_words m s7_db1_area b.db1 0 1024 ∙ h.sized.db1;
    db1_shadow = length-publish_words m s7_db1_area b.db1_shadow 0 1024 ∙ h.sized.db1_shadow;
    db2 = length-publish_words m s7_db2_area b.db2 0 1024 ∙ h.sized.db2;
    db2_shadow = length-publish_words m s7_db2_area b.db2_shadow 0 1024 ∙ h.sized.db2_shadow;
  };
  db1_bytes = publish_words-IsBytes m s7_db1_area b.db1 0 1024 h.db1_bytes;
  db2_bytes = publish_words-IsBytes m s7_db2_area b.db2 0 1024 h.db2_bytes;
}
