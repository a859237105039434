-- ===== src/Mc.antt =====
-- mc/McServer.cpp: the MELSEC MC server (3E frames, binary). `process_request` maps a request frame to
-- the response frame and the new memory; `none` is a read of the request out of range, which C++
-- leaves undefined. A byte is a number below 256; fields joined by `|` do not overlap, so `|` is `+`.
pub mod Answer
pub mod Nibbles
pub mod Total
pub mod Store
pub mod Words
pub mod Server
pub mod Frames
use v_plc_runtime.Shared.{
  ℕ, zero, suc, ◌+◌, ◌*◌, ◌/◌, ◌%◌, ◌^◌, Bool, true, false, not, List, [], ◌∷◌, ◌++◌, Option, none,
  some, ◌==◌, ltb, if◌then◌else◌, length, get_elem?, get_or, set, replicate, u16, high_byte,
  low_byte, ◌>>=◌, Text, codes,
}
use v_plc_runtime.Memory.{PlcMemory, read_mc_word, read_mc_bit, write_mc_word, write_mc_bit}

-- `readUint16LE`
unfoldable pub read_uint16_le : List ℕ → ℕ → Option ℕ
read_uint16_le buffer i = do
  low ← get_elem? buffer i
  high ← get_elem? buffer (i + 1)
  some (low + high * 2 ^ 8)

-- `writeUint16LE`
abbrev pub uint16_le_bytes : ℕ → List ℕ
uint16_le_bytes value = low_byte value ∷ high_byte value ∷ []

-- `getMCWordAreaName`
unfoldable pub mc_word_area_name : ℕ → Text
mc_word_area_name code =
    if code == 0xA8
    then codes "D"
    else if code == 0xB4
    then codes "W"
    else if code == 0xAF
    then codes "R"
    else if code == 0xB0
    then codes "ZR"
    else if code == 0xA9
    then codes "SD"
    else codes ""

-- `getMCBitAreaName`
unfoldable pub mc_bit_area_name : ℕ → Text
mc_bit_area_name code =
    if code == 0x9C
    then codes "X"
    else if code == 0x9D
    then codes "Y"
    else if code == 0x90
    then codes "M"
    else if code == 0x92
    then codes "L"
    else if code == 0xA0
    then codes "B"
    else if code == 0x93
    then codes "F"
    else if code == 0x91
    then codes "SM"
    else codes ""

-- `makeErrorResponse`
unfoldable pub error_response : ℕ → List ℕ
error_response end_code =
    0xD0 ∷ 0x00 ∷ 0x00 ∷ 0xFF ∷ 0xFF ∷ 0x03 ∷ 0x00 ∷ (uint16_le_bytes 2 ++ uint16_le_bytes end_code)

abbrev pub Reply : Type 0
Reply = Option (PlcMemory × List ℕ)

unfoldable pub fail : PlcMemory → ℕ → Reply
fail m end_code = some (m, error_response end_code)

-- The loop of the word read, `left` points from point `i` on. The address is cut to 16 bits.
unfoldable pub read_word_points : PlcMemory → Text → ℕ → ℕ → ℕ → List ℕ
read_word_points m area start_addr i zero = []
read_word_points m area start_addr i (suc left) =
    let val = read_mc_word m area (u16 (start_addr + i)) in
    low_byte val ∷ high_byte val ∷ read_word_points m area start_addr (i + 1) left

-- `resp_data[2 + byte_idx] |= …`: the high nibble for an even point, the low one for an odd point.
-- The list is `resp_data` behind the end code; neither nibble has been set before.
unfoldable pub mark_point : ℕ → Bool → List ℕ → List ℕ
mark_point i false marks = marks
mark_point i true marks =
    set marks (i / 2) (get_or marks (i / 2) 0 + (if i % 2 == 0 then 0x10 else 0x01))

-- The loop of the bit read.
unfoldable pub read_bit_points : PlcMemory → Text → ℕ → ℕ → ℕ → List ℕ → List ℕ
read_bit_points m area start_addr i zero marks = marks
read_bit_points m area start_addr i (suc left) marks =
    read_bit_points m area start_addr (i + 1) left
      (mark_point i (read_mc_bit m area (u16 (start_addr + i))) marks)

-- The loop of the word write: each value is read from the request and stored at once.
unfoldable pub write_word_points : PlcMemory → List ℕ → Text → ℕ → ℕ → ℕ → Option PlcMemory
write_word_points m request area start_addr i zero = some m
write_word_points m request area start_addr i (suc left) = do
  val ← read_uint16_le request (21 + i * 2)
  write_word_points (write_mc_word m area (u16 (start_addr + i)) val) request area start_addr
      (i + 1) left

-- The nibble of a point is not zero.
unfoldable pub point_value : ℕ → ℕ → Bool
point_value i byte_val =
    if i % 2 == 0 then not (byte_val / 2 ^ 4 % 2 ^ 4 == 0) else not (byte_val % 2 ^ 4 == 0)

-- The loop of the bit write.
unfoldable pub write_bit_points : PlcMemory → List ℕ → Text → ℕ → ℕ → ℕ → Option PlcMemory
write_bit_points m request area start_addr i zero = some m
write_bit_points m request area start_addr i (suc left) = do
  byte_val ← get_elem? request (21 + i / 2)
  write_bit_points (write_mc_bit m area (u16 (start_addr + i)) (point_value i byte_val)) request
      area start_addr (i + 1) left

-- The response frame around `resp_data`, with the routing bytes of the request.
unfoldable pub respond : PlcMemory → List ℕ → List ℕ → Reply
respond m request resp_data = do
  network ← get_elem? request 2
  pc ← get_elem? request 3
  module_low ← get_elem? request 4
  module_high ← get_elem? request 5
  station ← get_elem? request 6
  some (
    m,
    0xD0
        ∷ 0x00
        ∷ network
        ∷ pc
        ∷ module_low
        ∷ module_high
        ∷ station
        ∷ (uint16_le_bytes (u16 (length resp_data)) ++ resp_data),
  )

unfoldable pub is_blank : Text → Bool
is_blank [] = true
is_blank (c ∷ cs) = false

-- Command 0x0401, subcommand 0x0000
unfoldable pub read_words_request : PlcMemory → List ℕ → ℕ → ℕ → ℕ → Reply
read_words_request m request start_addr device_code points =
    let area = mc_word_area_name device_code in
    if is_blank area
    then fail m 0xC05C
    else respond m request (uint16_le_bytes 0x0000 ++ read_word_points m area start_addr 0 points)

-- Command 0x0401, subcommand 0x0001
unfoldable pub read_bits_request : PlcMemory → List ℕ → ℕ → ℕ → ℕ → Reply
read_bits_request m request start_addr device_code points =
    let area = mc_bit_area_name device_code in
    if is_blank area
    then fail m 0xC05C
    else respond m request (
        uint16_le_bytes 0x0000
        ++ read_bit_points m area start_addr 0 points (replicate ((points + 1) / 2) 0))

-- Command 0x1401, subcommand 0x0000
unfoldable pub write_words_request : PlcMemory → List ℕ → ℕ → ℕ → ℕ → Reply
write_words_request m request start_addr device_code points =
    let area = mc_word_area_name device_code in
    if is_blank area
    then fail m 0xC05C
    else if ltb (length request) (21 + points * 2)
    then fail m 0xC051
    else (do
      m' ← write_word_points m request area start_addr 0 points
      respond m' request (uint16_le_bytes 0x0000))

-- Command 0x1401, subcommand 0x0001
unfoldable pub write_bits_request : PlcMemory → List ℕ → ℕ → ℕ → ℕ → Reply
write_bits_request m request start_addr device_code points =
    let area = mc_bit_area_name device_code in
    if is_blank area
    then fail m 0xC05C
    else if ltb (length request) (21 + (points + 1) / 2)
    then fail m 0xC051
    else (do
      m' ← write_bit_points m request area start_addr 0 points
      respond m' request (uint16_le_bytes 0x0000))

-- The choice by command and subcommand.
unfoldable pub dispatch : PlcMemory → List ℕ → ℕ → ℕ → ℕ → ℕ → ℕ → Reply
dispatch m request command subcommand start_addr device_code points =
    if command == 0x0401
    then (if subcommand == 0x0000
        then read_words_request m request start_addr device_code points
        else if subcommand == 0x0001
        then read_bits_request m request start_addr device_code points
        else fail m 0xC051)
    else if command == 0x1401
    then (if subcommand == 0x0000
        then write_words_request m request start_addr device_code points
        else if subcommand == 0x0001
        then write_bits_request m request start_addr device_code points
        else fail m 0xC051)
    else fail m 0xC051

unfoldable pub process_request : PlcMemory → List ℕ → Reply
process_request m request = if ltb (length request) 21 then fail m 0xC051 else do
  command ← read_uint16_le request 11
  subcommand ← read_uint16_le request 13
  low ← get_elem? request 15
  middle ← get_elem? request 16
  high ← get_elem? request 17
  device_code ← get_elem? request 18
  points ← read_uint16_le request 19
  dispatch m request command subcommand (low + middle * 2 ^ 8 + high * 2 ^ 16) device_code points
