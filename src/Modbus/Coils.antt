-- ===== src/Modbus/Coils.antt =====
-- Coils over the wire: function code 0x0F stores the coils that the client packed, and 0x01 sends
-- them back.
use v_plc_runtime.Shared.{
  ℕ, ◌+◌, ◌/◌, ◌^◌, ◌≤◌, ◌<◌, ◌≡◌, ◌∙◌, ap, Bool, false, List, [], ◌∷◌, some, length, arith,
  high_byte, low_byte, get_or_ext, get_or,
}
use v_plc_runtime.Memory.{PlcMemory, coils_area, bits, write_bits, copy_range}
use v_plc_runtime.Memory.Ranges.{
  write_bits-SameShape, read_bits-write_bits, length-copy_range, get_or-copy_range,
}
use v_plc_runtime.Modbus.{
  echo, read_bits_request, store_coils, write_coils_request, dispatch, process_request, pack_bytes,
}
use v_plc_runtime.Modbus.Answer.{length-pack_bytes}
use v_plc_runtime.Modbus.Packing.{unpack_coils-append}
use v_plc_runtime.Modbus.Registers.{process_request_decoded}

abbrev pub packed_size : List Bool → ℕ
packed_size vs = (length vs + 7) / 8

-- The PDU by which a client writes the coils from `start` on.
abbrev pub write_coils_pdu : ℕ → List Bool → List ℕ
write_coils_pdu start vs =
    0x0F
    ∷ high_byte start
    ∷ low_byte start
    ∷ high_byte (length vs)
    ∷ low_byte (length vs)
    ∷ packed_size vs
    ∷ pack_bytes vs 0 (packed_size vs)

-- The PDU by which it reads them.
abbrev pub read_coils_pdu : ℕ → ℕ → List ℕ
read_coils_pdu start n = 0x01 ∷ high_byte start ∷ low_byte start ∷ high_byte n ∷ low_byte n ∷ []

copy_range_whole : (vs : List Bool) → copy_range vs false 0 (length vs) ≡ vs
copy_range_whole vs = get_or_ext false _ _ (length-copy_range vs false 0 (length vs)) λ i h.
    get_or-copy_range vs false 0 (length vs) i
      (omega (arith, length-copy_range vs false 0 (length vs)))
    ∙ ap (λ j. get_or vs j false) (omega arith)

-- processRequest, given the PDU that writes 1 to 2000 coils that lie in the area, stores them and
-- acknowledges with their address and count; given the PDU that reads the same coils next, it
-- answers with the very bytes of the write.
pub write_then_read_coils :
    (m : PlcMemory) (start : ℕ) (vs : List Bool)
    → 1 ≤ length vs
    → length vs ≤ 2000
    → start < 2 ^ 16
    → start + length vs ≤ length (bits m coils_area)
    → let m' = write_bits m coils_area start vs in
      let n = length vs in
      (process_request m (write_coils_pdu start vs)
        ≡ some (m', 0x0F ∷ high_byte start ∷ low_byte start ∷ high_byte n ∷ low_byte n ∷ []))
      × (process_request m' (read_coils_pdu start n)
          ≡ some (m', 0x01 ∷ packed_size vs ∷ pack_bytes vs 0 (packed_size vs)))
write_then_read_coils m start vs pos most hs fits =
    let n = length vs in
    let bc = packed_size vs in
    let header = 0x0F ∷ high_byte start ∷ low_byte start ∷ high_byte n ∷ low_byte n ∷ bc ∷ [] in
    let m' = write_bits m coils_area start vs in
    (
      process_request_decoded m 0x0F start n (bc ∷ pack_bytes vs 0 bc) hs (omega arith)
          ∙ (unfold dispatch write_coils_request store_coils echo in
              ground (
                arith,
                unpack_coils-append header vs bc 0 n (omega arith) (omega arith) (omega arith),
                length-pack_bytes vs 0 bc,
                copy_range_whole vs,
              )),
      process_request_decoded m' 0x01 start n [] hs (omega arith)
          ∙ (unfold dispatch read_bits_request in
              ground (
                arith,
                read_bits-write_bits m coils_area start vs fits,
                (write_bits-SameShape m coils_area start vs).bit_sizes coils_area,
              )),
    )
