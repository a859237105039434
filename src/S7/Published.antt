-- ===== src/S7/Published.antt =====
-- What the copy after a cycle leaves in the four buffers.
use v_plc_runtime.Shared.{ℕ, ◌%◌, ◌^◌, ◌<◌, ◌≡◌, length, IsBytes, arith}
use v_plc_runtime.Memory.{
  PlcMemory, s7_pe_area, s7_pa_area, s7_db1_area, s7_db2_area, read_bit, read_word,
}
use v_plc_runtime.S7.{Buffers, sync_after_cycle}
use v_plc_runtime.S7.Quiet.{IsSized, sync_after_cycle_publishes}
use v_plc_runtime.S7.Clients.{pair_value}
use v_plc_runtime.S7.Bits.{buffer_bit, buffer_bit-publish_bits}

-- The buffers of the bits have their sizes, and hold bytes.
pub record HasBits (b : Buffers) : Type 0 where
  pub pe : length b.pe ≡ 256
  pub pa : length b.pa ≡ 256
  pub pe_bytes : IsBytes b.pe
  pub pa_bytes : IsBytes b.pa

-- After the copy, every bit of PE and PA stands in its byte, and every register of DB1 and DB2 in its pair of bytes, the high byte first,
-- where the buffers have their sizes and those of PE and PA hold bytes.
pub sync_after_cycle_publishes_areas :
    (m : PlcMemory) (b : Buffers) (i k : ℕ)
    → IsSized b
    → HasBits b
    → i < 2048
    → k < 1024
    → let out = sync_after_cycle m b in
      (buffer_bit out.pe i ≡ read_bit m s7_pe_area i)
      × (buffer_bit out.pa i ≡ read_bit m s7_pa_area i)
      × (pair_value out.db1 k ≡ read_word m s7_db1_area k % 2 ^ 16)
      × (pair_value out.db2 k ≡ read_word m s7_db2_area k % 2 ^ 16)
sync_after_cycle_publishes_areas m b i k sized bits hi hk =
    let registers = sync_after_cycle_publishes m b k sized hk in
    (
      unfold sync_after_cycle in
          buffer_bit-publish_bits m s7_pe_area b.pe 0 2048 i bits.pe_bytes (omega (arith, bits.pe))
            (omega arith) hi,
      unfold sync_after_cycle in
          buffer_bit-publish_bits m s7_pa_area b.pa 0 2048 i bits.pa_bytes (omega (arith, bits.pa))
            (omega arith) hi,
      registers.0,
      registers.1,
    )
