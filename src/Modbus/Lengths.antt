-- ===== src/Modbus/Lengths.antt =====
-- Which frames of the Modbus server reach `processRequest`.
use v_plc_runtime.Shared.{
  ℕ, suc, ◌+◌, ◌-◌, ◌*◌, ◌^◌, ◌≤◌, ◌<◌, ◌≡◌, ◌∙◌, false, List, ◌∷◌, ◌++◌, Option, some, ltb, length,
  arith, high_byte, low_byte, take-append, drop-append, length-append, IsWord, All,
}
use v_plc_runtime.Memory.{PlcMemory, holding_registers_area, words, write_words}
use v_plc_runtime.Modbus.{read_uint16, process_request}
use v_plc_runtime.Modbus.Server.{Session, disconnect, answer, receive_pdu, serve_one, handle_client}
use v_plc_runtime.Modbus.Answer.{length-register_bytes}
use v_plc_runtime.Modbus.Registers.{write_registers_pdu, write_then_read_registers}

-- The frame that a client builds around a PDU.
abbrev pub request_frame : ℕ → ℕ → List ℕ → List ℕ
request_frame tid unit pdu =
    high_byte tid
    ∷ low_byte tid
    ∷ 0
    ∷ 0
    ∷ high_byte (length pdu + 1)
    ∷ low_byte (length pdu + 1)
    ∷ unit
    ∷ pdu

module _ (next : PlcMemory → List ℕ → Option Session) (m : PlcMemory) (tid unit : ℕ)
    (pdu rest : List ℕ) where
  header_decoded :
      tid < 2 ^ 16
      → length pdu + 1 < 2 ^ 16
      → serve_one next m (request_frame tid unit pdu ++ rest)
        ≡ receive_pdu next m tid 0 (length pdu + 1) unit (pdu ++ rest)
  unfolding serve_one read_uint16
  header_decoded ht hl =
      let t : high_byte tid * 2 ^ 8 + low_byte tid ≡ tid = omega arith in
      let l : high_byte (length pdu + 1) * 2 ^ 8 + low_byte (length pdu + 1) ≡ length pdu + 1 =
        omega arith in
      let long : ltb (suc (suc (suc (suc (suc (suc (suc (length (pdu ++ rest))))))))) 7 ≡ false =
        ground arith in
      rw (long, t, l)

  legal_frame :
      tid < 2 ^ 16
      → 1 ≤ length pdu
      → length pdu ≤ 249
      → serve_one next m (request_frame tid unit pdu ++ rest) ≡ answer next m tid 0 unit pdu rest
  legal_frame ht lo hi =
      let e : length pdu + 1 - 1 ≡ length pdu = omega arith in
      header_decoded ht (omega arith)
      ∙ (unfold receive_pdu in
          rw e (
            rw (take-append pdu rest, drop-append pdu rest)
              (ground (arith, length-append pdu rest))))

  long_frame :
      tid < 2 ^ 16
      → 250 ≤ length pdu
      → length pdu + 1 < 2 ^ 16
      → serve_one next m (request_frame tid unit pdu ++ rest) ≡ disconnect m
  long_frame ht lo hi = header_decoded ht hi ∙ (unfold receive_pdu in ground arith)

-- A frame around a PDU of 1 to 249 bytes is answered under its own transaction and unit, and the
-- connection goes on with the bytes behind it.
handle_client_legal :
    (fuel : ℕ) (m : PlcMemory) (tid unit : ℕ) (pdu rest : List ℕ)
    → tid < 2 ^ 16
    → 1 ≤ length pdu
    → length pdu ≤ 249
    → handle_client (suc fuel) m (request_frame tid unit pdu ++ rest)
      ≡ answer (handle_client fuel) m tid 0 unit pdu rest
unfolding handle_client
handle_client_legal fuel m tid unit pdu rest = legal_frame (handle_client fuel) m tid unit pdu rest

-- A write of 122 or 123 registers that lie in the area, which `processRequest` accepts, ends the
-- connection with no response and no change when it comes in a frame.
pub handle_client_long_write :
    (fuel : ℕ) (m : PlcMemory) (tid unit start : ℕ) (vs rest : List ℕ)
    → tid < 2 ^ 16
    → start < 2 ^ 16
    → 122 ≤ length vs
    → length vs ≤ 123
    → start + length vs ≤ length (words m holding_registers_area)
    → All IsWord vs
    → ((out : List ℕ) × (process_request m (write_registers_pdu start vs)
          ≡ some (write_words m holding_registers_area start vs, out)))
      × (handle_client (suc fuel) m (request_frame tid unit (write_registers_pdu start vs) ++ rest)
          ≡ disconnect m)
unfolding handle_client
handle_client_long_write fuel m tid unit start vs rest ht hs lo hi fits hw = (
  (_, (write_then_read_registers m start vs (omega arith) hi hs fits hw).0),
  long_frame (handle_client fuel) m tid unit (write_registers_pdu start vs) rest ht
      (omega (arith, length-register_bytes vs)) (omega (arith, length-register_bytes vs)),
)
