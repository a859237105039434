-- ===== src/Modbus/Registers.antt =====
-- Registers over the wire: function code 0x10 stores the words that the client encoded, and 0x03
-- sends them back.
use v_plc_runtime.Shared.{
  ℕ, suc, ◌+◌, ◌*◌, ◌^◌, ◌≤◌, ◌<◌, ◌≡◌, refl, ◌∙◌, ap, sym, false, List, [], ◌∷◌, ◌++◌,
  append_assoc, some, ltb, length, get_elem?, length-append, get_elem?-append_right, arith, IsWord,
  All, high_byte, low_byte, either_branch, leb,
}
use v_plc_runtime.Memory.{PlcMemory, holding_registers_area, words, write_words, write_word}
use v_plc_runtime.Memory.Ranges.{write_words-SameShape, read_words-write_words}
use v_plc_runtime.Modbus.{
  read_uint16, echo, read_words_request, unpack_registers, store_registers, write_registers_request,
  dispatch, process_request, register_bytes, write_register_request,
}
use v_plc_runtime.Modbus.Answer.{length-register_bytes}

-- The PDU by which a client writes the registers from `start` on.
abbrev pub write_registers_pdu : ℕ → List ℕ → List ℕ
write_registers_pdu start vs =
    0x10
    ∷ high_byte start
    ∷ low_byte start
    ∷ high_byte (length vs)
    ∷ low_byte (length vs)
    ∷ (2 * length vs)
    ∷ register_bytes vs

-- The PDU by which it reads them.
abbrev pub read_holding_pdu : ℕ → ℕ → List ℕ
read_holding_pdu start n = 0x03 ∷ high_byte start ∷ low_byte start ∷ high_byte n ∷ low_byte n ∷ []

read_uint16-append :
    (pre rest : List ℕ) (v i : ℕ)
    → v < 2 ^ 16
    → i ≡ length pre
    → read_uint16 (pre ++ (high_byte v ∷ low_byte v ∷ rest)) i ≡ some v
unfolding read_uint16
read_uint16-append pre rest v i h e =
    let l = high_byte v ∷ low_byte v ∷ rest in
    let first : get_elem? (pre ++ l) i ≡ some (high_byte v) =
      ap (get_elem? (pre ++ l)) (omega arith) ∙ get_elem?-append_right pre l 0 in
    let second : get_elem? (pre ++ l) (i + 1) ≡ some (low_byte v) =
      ap (get_elem? (pre ++ l)) (omega arith) ∙ get_elem?-append_right pre l 1 in
    rw (first, second) (ap some (omega arith))

-- The loop over the registers of a request reads what `register_bytes` wrote.
unpack_registers-append :
    (pre ws : List ℕ) (i : ℕ)
    → All IsWord ws
    → 6 + i * 2 ≡ length pre
    → unpack_registers (pre ++ register_bytes ws) i (length ws) ≡ some ws
unfolding unpack_registers register_bytes
unpack_registers-append pre [] i h e = refl
unpack_registers-append pre (w ∷ ws) i h e =
    let next = pre ++ (high_byte w ∷ low_byte w ∷ []) in
    let shape : next ++ register_bytes ws ≡ pre ++ (high_byte w ∷ low_byte w ∷ register_bytes ws) =
      append_assoc pre (high_byte w ∷ low_byte w ∷ []) (register_bytes ws) in
    let rest : unpack_registers (pre ++ (high_byte w ∷ low_byte w ∷ register_bytes ws)) (i + 1)
          (length ws)
        ≡ some ws =
      ap (λ l. unpack_registers l (i + 1) (length ws)) (sym shape)
      ∙ unpack_registers-append next ws (i + 1) h.1
          (omega (arith, length-append pre (high_byte w ∷ low_byte w ∷ []))) in
    rw (read_uint16-append pre (register_bytes ws) w (6 + i * 2) h.0 e, rest)

-- A PDU with its address and count is handed on with both decoded.
pub process_request_decoded :
    (m : PlcMemory) (fc start q : ℕ) (rest : List ℕ)
    → start < 2 ^ 16
    → q < 2 ^ 16
    → let request = fc ∷ high_byte start ∷ low_byte start ∷ high_byte q ∷ low_byte q ∷ rest in
      process_request m request ≡ dispatch m request fc start q
unfolding process_request read_uint16
process_request_decoded m fc start q rest hs hq =
    let s : high_byte start * 2 ^ 8 + low_byte start ≡ start = omega arith in
    let n : high_byte q * 2 ^ 8 + low_byte q ≡ q = omega arith in
    let long : ltb (suc (suc (suc (suc (suc (length rest)))))) 5 ≡ false = ground arith in
    rw (long, s, n)

-- processRequest, given the PDU that writes 1 to 123 registers that lie in the area, stores them
-- and acknowledges with their address and count; given the PDU that reads the same registers
-- next, it answers with the very bytes of the write.
pub write_then_read_registers :
    (m : PlcMemory) (start : ℕ) (vs : List ℕ)
    → 1 ≤ length vs
    → length vs ≤ 123
    → start < 2 ^ 16
    → start + length vs ≤ length (words m holding_registers_area)
    → All IsWord vs
    → let m' = write_words m holding_registers_area start vs in
      let n = length vs in
      (process_request m (write_registers_pdu start vs)
        ≡ some (m', 0x10 ∷ high_byte start ∷ low_byte start ∷ high_byte n ∷ low_byte n ∷ []))
      × (process_request m' (read_holding_pdu start n)
          ≡ some (m', 0x03 ∷ (2 * n) ∷ register_bytes vs))
write_then_read_registers m start vs pos most hs fits hw =
    let n = length vs in
    let header =
      0x10 ∷ high_byte start ∷ low_byte start ∷ high_byte n ∷ low_byte n ∷ (2 * n) ∷ [] in
    let m' = write_words m holding_registers_area start vs in
    (
      process_request_decoded m 0x10 start n ((2 * n) ∷ register_bytes vs) hs (omega arith)
          ∙ (unfold dispatch write_registers_request store_registers echo in
              ground (
                arith,
                unpack_registers-append header vs 0 hw (omega arith),
                length-register_bytes vs,
              )),
      process_request_decoded m' 0x03 start n [] hs (omega arith)
          ∙ (unfold dispatch read_words_request in
              ground (
                arith,
                read_words-write_words m holding_registers_area start vs fits,
                (write_words-SameShape m holding_registers_area start vs).word_sizes
                    holding_registers_area,
              )),
    )

-- The PDU by which a client writes one register.
abbrev pub write_register_pdu : ℕ → ℕ → List ℕ
write_register_pdu i v = 0x06 ∷ high_byte i ∷ low_byte i ∷ high_byte v ∷ low_byte v ∷ []

pub process_request-write_register_pdu :
    (m : PlcMemory) (i v : ℕ)
    → i < 2 ^ 16
    → v < 2 ^ 16
    → i < length (words m holding_registers_area)
    → process_request m (write_register_pdu i v)
      ≡ some (write_word m holding_registers_area i v, write_register_pdu i v)
unfolding process_request dispatch write_register_request echo
process_request-write_register_pdu m i v hi hv h =
    rw
      (
        read_uint16-append (0x06 ∷ []) (high_byte v ∷ low_byte v ∷ []) i 1 hi refl,
        read_uint16-append (0x06 ∷ high_byte i ∷ low_byte i ∷ []) [] v 3 hv refl,
      )
      (either_branch
        (λ o. o ≡ some (write_word m holding_registers_area i v, write_register_pdu i v))
        (leb (length (words m holding_registers_area)) i) _ _ (λ e. absurd (ground arith))
        (λ e. refl))
