-- ===== src/Modbus.antt =====
-- modbus/ModbusServer.cpp: the Modbus TCP server. `process_request` maps a request PDU to a response
-- PDU and the new memory; `none` is a read of the request out of range, which C++ leaves undefined.
-- A byte is a number below 256; fields joined by `|` do not overlap, so `|` is `+` there.
pub mod Answer
pub mod Total
pub mod Keeps
pub mod Registers
pub mod Packing
pub mod Coils
pub mod Server
pub mod Frames
pub mod Lengths
use v_plc_runtime.Shared.{
  ℕ, zero, suc, ◌+◌, ◌*◌, ◌/◌, ◌%◌, ◌^◌, Bool, true, false, not, ◌||◌, ◌&&◌, List, [], ◌∷◌, ◌++◌,
  Option, none, some, ◌==◌, ltb, leb, if◌then◌else◌, length, get_elem?, get_or, u8, high_byte,
  low_byte, ◌>>=◌, bit_or,
}
use v_plc_runtime.Memory.{
  PlcMemory, BitArea, WordArea, coils_area, discrete_inputs_area, input_registers_area,
  holding_registers_area, bits, words, read_bits, read_words, write_bit, write_word, write_bits,
  write_words,
}

-- `readUint16`: big-endian.
unfoldable pub read_uint16 : List ℕ → ℕ → Option ℕ
read_uint16 buffer i = do
  high ← get_elem? buffer i
  low ← get_elem? buffer (i + 1)
  some (high * 2 ^ 8 + low)

-- `writeUint16`
unfoldable pub uint16_bytes : ℕ → List ℕ
uint16_bytes value = high_byte value ∷ low_byte value ∷ []

-- `makeExceptionResponse`
unfoldable pub exception_response : ℕ → ℕ → List ℕ
exception_response function_code exception_code = bit_or function_code 0x80 ∷ exception_code ∷ []

abbrev pub Reply : Type 0
Reply = Option (PlcMemory × List ℕ)

unfoldable pub fail : PlcMemory → ℕ → ℕ → Reply
fail m function_code exception_code = some (m, exception_response function_code exception_code)

-- `idx < coils.size() && coils[idx]`
unfoldable pub is_set : List Bool → ℕ → Bool
is_set coils idx = if ltb idx (length coils) then get_or coils idx false else false

-- The loop over the bits of one byte: `left` bits from index `idx` on, the first of weight `weight`.
unfoldable pub pack_from : List Bool → ℕ → ℕ → ℕ → ℕ
pack_from coils idx weight zero = 0
pack_from coils idx weight (suc left) =
    (if is_set coils idx then weight else 0) + pack_from coils (idx + 1) (weight * 2) left

-- The loop over the bytes, `left` of them from byte `b` on.
unfoldable pub pack_bytes : List Bool → ℕ → ℕ → List ℕ
pack_bytes coils b zero = []
pack_bytes coils b (suc left) = pack_from coils (b * 8) 1 8 ∷ pack_bytes coils (b + 1) left

-- Function codes 0x01 and 0x02, which differ in the area.
unfoldable pub read_bits_request : PlcMemory → BitArea → ℕ → ℕ → ℕ → Reply
read_bits_request m area function_code start_addr quantity_val =
    if ltb quantity_val 1 || ltb 2000 quantity_val
    then fail m function_code 0x03
    else if ltb (length (bits m area)) (start_addr + quantity_val)
    then fail m function_code 0x02
    else (let coils = read_bits m area start_addr quantity_val in
        let byte_count = u8 ((quantity_val + 7) / 8) in
        some (m, function_code ∷ byte_count ∷ pack_bytes coils 0 byte_count))

-- The loop over the registers of a response.
unfoldable pub register_bytes : List ℕ → List ℕ
register_bytes [] = []
register_bytes (val ∷ registers) = high_byte val ∷ low_byte val ∷ register_bytes registers

-- Function codes 0x03 and 0x04, which differ in the area.
unfoldable pub read_words_request : PlcMemory → WordArea → ℕ → ℕ → ℕ → Reply
read_words_request m area function_code start_addr quantity_val =
    if ltb quantity_val 1 || ltb 125 quantity_val
    then fail m function_code 0x03
    else if ltb (length (words m area)) (start_addr + quantity_val)
    then fail m function_code 0x02
    else (let registers = read_words m area start_addr quantity_val in
        let byte_count = u8 (2 * quantity_val) in
        some (m, function_code ∷ byte_count ∷ register_bytes registers))

-- The answer of a write: the function code and bytes 1 to 4 of the request.
unfoldable pub echo : PlcMemory → List ℕ → ℕ → Reply
echo m request function_code = do
  b1 ← get_elem? request 1
  b2 ← get_elem? request 2
  b3 ← get_elem? request 3
  b4 ← get_elem? request 4
  some (m, function_code ∷ b1 ∷ b2 ∷ b3 ∷ b4 ∷ [])

-- Function code 0x05
unfoldable pub write_coil_request : PlcMemory → List ℕ → ℕ → ℕ → ℕ → Reply
write_coil_request m request function_code start_addr quantity_val =
    if leb (length (bits m coils_area)) start_addr
    then fail m function_code 0x02
    else if not (quantity_val == 0xFF00) && not (quantity_val == 0x0000)
    then fail m function_code 0x03
    else echo (write_bit m coils_area start_addr (quantity_val == 0xFF00)) request function_code

-- Function code 0x06
unfoldable pub write_register_request : PlcMemory → List ℕ → ℕ → ℕ → ℕ → Reply
write_register_request m request function_code start_addr quantity_val =
    if leb (length (words m holding_registers_area)) start_addr
    then fail m function_code 0x02
    else echo (write_word m holding_registers_area start_addr quantity_val) request function_code

-- `(request[byte_idx] & (1 << bit_idx)) != 0`
unfoldable pub test_bit : ℕ → ℕ → Bool
test_bit byte bit_idx = byte / 2 ^ bit_idx % 2 == 1

-- The loop over the coils of a request, `left` of them from coil `i` on; the index is a `uint8_t`.
unfoldable pub unpack_coils : List ℕ → ℕ → ℕ → Option (List Bool)
unpack_coils request i zero = some []
unpack_coils request i (suc left) = do
  byte ← get_elem? request (u8 (6 + i / 8))
  rest ← unpack_coils request (i + 1) left
  some (test_bit byte (i % 8) ∷ rest)

-- Function code 0x0F, behind its guards.
unfoldable pub store_coils : PlcMemory → List ℕ → ℕ → ℕ → ℕ → Reply
store_coils m request function_code start_addr quantity_val = do
  values ← unpack_coils request 0 quantity_val
  echo (write_bits m coils_area start_addr values) request function_code

-- Function code 0x0F
unfoldable pub write_coils_request : PlcMemory → List ℕ → ℕ → ℕ → ℕ → Reply
write_coils_request m request function_code start_addr quantity_val =
    if ltb (length request) 6 then fail m function_code 0x03 else do
      byte_count ← get_elem? request 5
      if ltb (length request) (6 + byte_count)
          then fail m function_code 0x03
          else if ltb quantity_val 1
              || (ltb 2000 quantity_val || not (byte_count == (quantity_val + 7) / 8))
          then fail m function_code 0x03
          else if ltb (length (bits m coils_area)) (start_addr + quantity_val)
          then fail m function_code 0x02
          else store_coils m request function_code start_addr quantity_val

-- The loop over the registers of a request, `left` of them from register `i` on.
unfoldable pub unpack_registers : List ℕ → ℕ → ℕ → Option (List ℕ)
unpack_registers request i zero = some []
unpack_registers request i (suc left) = do
  value ← read_uint16 request (6 + i * 2)
  rest ← unpack_registers request (i + 1) left
  some (value ∷ rest)

-- Function code 0x10, behind its guards.
unfoldable pub store_registers : PlcMemory → List ℕ → ℕ → ℕ → ℕ → Reply
store_registers m request function_code start_addr quantity_val = do
  values ← unpack_registers request 0 quantity_val
  echo (write_words m holding_registers_area start_addr values) request function_code

-- Function code 0x10
unfoldable pub write_registers_request : PlcMemory → List ℕ → ℕ → ℕ → ℕ → Reply
write_registers_request m request function_code start_addr quantity_val =
    if ltb (length request) 6 then fail m function_code 0x03 else do
      byte_count ← get_elem? request 5
      if ltb (length request) (6 + byte_count)
          then fail m function_code 0x03
          else if ltb quantity_val 1
              || (ltb 123 quantity_val || not (byte_count == 2 * quantity_val))
          then fail m function_code 0x03
          else if ltb (length (words m holding_registers_area)) (start_addr + quantity_val)
          then fail m function_code 0x02
          else store_registers m request function_code start_addr quantity_val

-- The switch over the function code.
unfoldable pub dispatch : PlcMemory → List ℕ → ℕ → ℕ → ℕ → Reply
dispatch m request function_code start_addr quantity_val =
    if function_code == 0x01
    then read_bits_request m coils_area function_code start_addr quantity_val
    else if function_code == 0x02
    then read_bits_request m discrete_inputs_area function_code start_addr quantity_val
    else if function_code == 0x03
    then read_words_request m holding_registers_area function_code start_addr quantity_val
    else if function_code == 0x04
    then read_words_request m input_registers_area function_code start_addr quantity_val
    else if function_code == 0x05
    then write_coil_request m request function_code start_addr quantity_val
    else if function_code == 0x06
    then write_register_request m request function_code start_addr quantity_val
    else if function_code == 0x0F
    then write_coils_request m request function_code start_addr quantity_val
    else if function_code == 0x10
    then write_registers_request m request function_code start_addr quantity_val
    else fail m function_code 0x01

unfoldable pub process_request : PlcMemory → List ℕ → Reply
process_request m [] = fail m 0 0x04
process_request m (function_code ∷ rest) =
    if ltb (length (function_code ∷ rest)) 5 then fail m function_code 0x03 else do
      start_addr ← read_uint16 (function_code ∷ rest) 1
      quantity_val ← read_uint16 (function_code ∷ rest) 3
      dispatch m (function_code ∷ rest) function_code start_addr quantity_val
