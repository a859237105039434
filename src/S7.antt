-- ===== src/S7.antt =====
-- s7/S7Server.cpp: the copies between the memory and the buffers that the S7 library serves
-- (`syncBeforeCycle`, `syncAfterCycle`), while the server is running. The library itself, which
-- writes to the buffers when a client does, is a change of the buffers between the two.
pub mod Quiet
pub mod Kept
pub mod Clients
pub mod Bits
pub mod Published
pub mod Lifecycle
use v_plc_runtime.Shared.{
  ℕ, zero, suc, ◌+◌, ◌-◌, ◌*◌, ◌/◌, ◌%◌, ◌^◌, Bool, true, false, not, ◌||◌, List, [], ◌∷◌, ◌==◌,
  if◌then◌else◌, get_or, set, high_byte, low_byte,
}
use v_plc_runtime.Memory.{
  PlcMemory, BitArea, WordArea, s7_pe_area, s7_pa_area, s7_db1_area, s7_db2_area, read_bit,
  read_word, write_word,
}

-- The buffers: `pe` and `pa` of 256 bytes, the others of 2048. No index below runs past them, so
-- what `get_or` and `set` do there does not matter.
pub record Buffers : Type 0 where
  pub pe : List ℕ
  pub pa : List ℕ
  pub db1 : List ℕ
  pub db1_shadow : List ℕ
  pub db2 : List ℕ
  pub db2_shadow : List ℕ

-- Two bytes, the high one first, from byte `2 * i` on.
unfoldable pub set_pair : List ℕ → ℕ → ℕ → ℕ → List ℕ
set_pair buffer i h l = set (set buffer (i * 2) h) (i * 2 + 1) l

-- One round of the loop that looks for a client's writes: a pair that differs from its shadow is
-- stored in the memory and in the shadow.
unfoldable pub detect_one : PlcMemory → WordArea → List ℕ → List ℕ → ℕ → PlcMemory × List ℕ
detect_one m area buffer shadow i =
    let curr_h = get_or buffer (i * 2) 0 in
    let curr_l = get_or buffer (i * 2 + 1) 0 in
    let shad_h = get_or shadow (i * 2) 0 in
    let shad_l = get_or shadow (i * 2 + 1) 0 in
    if not (curr_h == shad_h) || not (curr_l == shad_l)
    then (write_word m area i (curr_h * 2 ^ 8 + curr_l), set_pair shadow i curr_h curr_l)
    else (m, shadow)

unfoldable pub detect_writes : PlcMemory → WordArea → List ℕ → List ℕ → ℕ → ℕ → PlcMemory × List ℕ
detect_writes m area buffer shadow i zero = (m, shadow)
detect_writes m area buffer shadow i (suc left) =
    let (m', shadow') = detect_one m area buffer shadow i in
    detect_writes m' area buffer shadow' (i + 1) left

-- `syncBeforeCycle`
unfoldable pub sync_before_cycle : PlcMemory → Buffers → PlcMemory × Buffers
sync_before_cycle m b =
    let (m1, shadow1) = detect_writes m s7_db1_area b.db1 b.db1_shadow 0 1024 in
    let (m2, shadow2) = detect_writes m1 s7_db2_area b.db2 b.db2_shadow 0 1024 in
    (m2, record b { db1_shadow = shadow1; db2_shadow = shadow2 })

-- `buffer[i / 8] |= 1 << i % 8`, or `&= ~(1 << i % 8)`: the bit is cleared, then set where it is on.
unfoldable pub put_bit : List ℕ → ℕ → Bool → List ℕ
put_bit buffer i val =
    let byte = get_or buffer (i / 8) 0 in
    let cleared = byte - byte / 2 ^ (i % 8) % 2 * 2 ^ (i % 8) in
    set buffer (i / 8) (if val then cleared + 2 ^ (i % 8) else cleared)

unfoldable pub publish_bits : PlcMemory → BitArea → List ℕ → ℕ → ℕ → List ℕ
publish_bits m area buffer i zero = buffer
publish_bits m area buffer i (suc left) =
    publish_bits m area (put_bit buffer i (read_bit m area i)) (i + 1) left

-- One of the loops over the registers, on the buffer or on its shadow.
unfoldable pub publish_words : PlcMemory → WordArea → List ℕ → ℕ → ℕ → List ℕ
publish_words m area buffer i zero = buffer
publish_words m area buffer i (suc left) =
    let val = read_word m area i in
    publish_words m area (set_pair buffer i (high_byte val) (low_byte val)) (i + 1) left

-- `syncAfterCycle`
unfoldable pub sync_after_cycle : PlcMemory → Buffers → Buffers
sync_after_cycle m b = record {
  pe = publish_bits m s7_pe_area b.pe 0 2048;
  pa = publish_bits m s7_pa_area b.pa 0 2048;
  db1 = publish_words m s7_db1_area b.db1 0 1024;
  db1_shadow = publish_words m s7_db1_area b.db1_shadow 0 1024;
  db2 = publish_words m s7_db2_area b.db2 0 1024;
  db2_shadow = publish_words m s7_db2_area b.db2_shadow 0 1024;
}
