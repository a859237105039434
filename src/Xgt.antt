-- ===== src/Xgt.antt =====
-- xgt/XgtServer.cpp: the LS XGT server (FEnet). `process_request` maps a request packet to the
-- response and the new memory; `none` is a read of the request out of range, which C++ leaves
-- undefined. A byte is a number below 256.
pub mod Address
pub mod Packet
pub mod Blocks
pub mod Reads
pub mod Total
pub mod Kept
pub mod Requests
pub mod Server
pub mod Drain
use v_plc_runtime.Shared.{
  ℕ, zero, suc, ◌+◌, ◌*◌, ◌/◌, not, List, [], ◌∷◌, ◌++◌, Option, none, some, ◌==◌, ltb,
  if◌then◌else◌, length, get_elem?, take, drop, u16, ◌>>=◌, of_bool,
}
use v_plc_runtime.Memory.{PlcMemory, read_ls_bit, write_ls_bit, read_ls_word, write_ls_word}
unfoldable pub use Address.*
unfoldable pub use Packet.*

-- The loop of the continuous read, `left` words from word `i` on. The address is cut to 16 bits.
unfoldable pub continuous_words : PlcMemory → ℕ → ℕ → ℕ → List ℕ
continuous_words m index i zero = []
continuous_words m index i (suc left) =
    uint16_le_bytes (read_ls_word m (u16 (index + i))) ++ continuous_words m index (i + 1) left

-- The loop of the continuous write.
unfoldable pub store_continuous : PlcMemory → List ℕ → ℕ → ℕ → ℕ → ℕ → Option PlcMemory
store_continuous m request data_offset index i zero = some m
store_continuous m request data_offset index i (suc left) = do
  val ← read_uint16_le request (data_offset + i * 2)
  store_continuous (write_ls_word m (u16 (index + i)) val) request data_offset index (i + 1) left

unfoldable pub continuous_read : PlcMemory → List ℕ → ℕ → ℕ → Option Target → Reply
continuous_read m request data_type var_len none = respond m request 0x0054 data_type 0x1102 1 []
continuous_read m request data_type var_len (some t) =
    if ltb (length request) (30 + var_len + 2)
    then respond m request 0x0054 data_type 0x1102 1 []
    else do
      byte_count ← read_uint16_le request (30 + var_len)
      respond m request 0x0054 data_type 0 1
          (uint16_le_bytes byte_count ++ continuous_words m t.index 0 (byte_count / 2))

-- The store, once the length of the data is known.
unfoldable pub continuous_store : PlcMemory → List ℕ → ℕ → ℕ → Option Target → ℕ → Reply
continuous_store m request data_type var_len none write_data_len =
    respond m request 0x0058 data_type 0x1102 1 []
continuous_store m request data_type var_len (some t) write_data_len =
    if ltb (length request) (30 + var_len + 2 + write_data_len)
    then respond m request 0x0058 data_type 0x1102 1 []
    else do
      m' ← store_continuous m request (30 + var_len + 2) t.index 0 (write_data_len / 2)
      respond m' request 0x0058 data_type 0 1 []

unfoldable pub continuous_write : PlcMemory → List ℕ → ℕ → ℕ → Option Target → Reply
continuous_write m request data_type var_len target =
    if ltb (length request) (30 + var_len + 2)
    then respond m request 0x0058 data_type 0x1102 1 []
    else do
      len ← read_uint16_le request (30 + var_len)
      continuous_store m request data_type var_len target (fixed_data_len len)

unfoldable pub continuous_dispatch : PlcMemory → List ℕ → ℕ → ℕ → ℕ → Reply
continuous_dispatch m request command data_type var_len =
    if ltb (length request) (30 + var_len)
    then some (m, error_packet (response_command command) 0x1102)
    else (let target = resolve_address (take var_len (drop 30 request)) in
        if command == 0x0054
        then continuous_read m request data_type var_len target
        else if command == 0x0058
        then continuous_write m request data_type var_len target
        else respond m request command data_type 0x00FF 1 [])

-- The branch for data type 0x0014.
unfoldable pub continuous_request : PlcMemory → List ℕ → ℕ → ℕ → Reply
continuous_request m request command data_type = do
  var_len ← read_uint16_le request 28
  continuous_dispatch m request command data_type var_len

abbrev pub with_offset : Option Target → ℕ → Option (Target × ℕ)
with_offset none next = none
with_offset (some t) next = some (t, next)

-- The name of `var_len` bytes, resolved, and the offset behind it.
unfoldable pub block_name : List ℕ → ℕ → ℕ → Option (Target × ℕ)
block_name request offset var_len =
    if ltb (length request) (offset + var_len)
    then none
    else with_offset (resolve_address (take var_len (drop offset request))) (offset + var_len)

-- The name at the head of a block and what follows it: `some none` is error status 0x1102.
unfoldable pub block_target : List ℕ → ℕ → Option (Option (Target × ℕ))
block_target request offset =
    if ltb (length request) (offset + 2)
    then some none
    else do var_len ← read_uint16_le request offset; some (block_name request (offset + 2) var_len)

-- What the read of a block appends to the response data.
unfoldable pub block_bytes : PlcMemory → Target → List ℕ
block_bytes m t =
    if t.is_bit
    then uint16_le_bytes 1 ++ (of_bool (read_ls_bit m (t.area_char ∷ []) (flat_idx t)) ∷ [])
    else uint16_le_bytes 2 ++ uint16_le_bytes (read_ls_word m t.index)

abbrev pub read_on :
    PlcMemory → (ℕ → Option (ℕ × List ℕ)) → Option (Target × ℕ) → Option (ℕ × List ℕ)
read_on m rest none = some (0x1102, [])
read_on m rest (some (t, next)) = do tail ← rest next; some (tail.0, block_bytes m t ++ tail.1)

-- The loop of the individual read, `left` blocks from `offset` on: the status and the data.
unfoldable pub read_blocks : PlcMemory → List ℕ → ℕ → ℕ → Option (ℕ × List ℕ)
read_blocks m request offset zero = some (0, [])
read_blocks m request offset (suc left) = do
  head ← block_target request offset
  read_on m (λ next. read_blocks m request next left) head

-- The store of one block; the value is read without a look at `write_data_len`.
unfoldable pub store_block : PlcMemory → List ℕ → Target → ℕ → Option PlcMemory
store_block m request t offset =
    if t.is_bit
    then (do
      val ← get_elem? request offset
      some (write_ls_bit m (t.area_char ∷ []) (flat_idx t) (not (val == 0))))
    else (do val ← read_uint16_le request offset; some (write_ls_word m t.index val))

-- A block whose data of `write_data_len` bytes begin at `offset`, and the blocks behind it.
unfoldable pub write_data :
    PlcMemory
    → List ℕ
    → (PlcMemory → ℕ → Option (ℕ × PlcMemory))
    → Target
    → ℕ
    → ℕ
    → Option (ℕ × PlcMemory)
write_data m request rest t offset write_data_len =
    if ltb (length request) (offset + write_data_len)
    then some (0x1102, m)
    else do m' ← store_block m request t offset; rest m' (offset + write_data_len)

unfoldable pub write_on :
    PlcMemory
    → List ℕ
    → (PlcMemory → ℕ → Option (ℕ × PlcMemory))
    → Option (Target × ℕ)
    → Option (ℕ × PlcMemory)
write_on m request rest none = some (0x1102, m)
write_on m request rest (some (t, offset)) =
    if ltb (length request) (offset + 2) then some (0x1102, m) else do
      len ← read_uint16_le request offset
      write_data m request rest t (offset + 2) (fixed_data_len len)

-- The loop of the individual write: the status and the memory.
unfoldable pub write_blocks : PlcMemory → List ℕ → ℕ → ℕ → Option (ℕ × PlcMemory)
write_blocks m request offset zero = some (0, m)
write_blocks m request offset (suc left) = do
  head ← block_target request offset
  write_on m request (λ m' next. write_blocks m' request next left) head

unfoldable pub individual_dispatch : PlcMemory → List ℕ → ℕ → ℕ → ℕ → Reply
individual_dispatch m request command data_type block_count =
    if command == 0x0054
    then (do
      out ← read_blocks m request 28 block_count
      respond m request command data_type out.0 block_count out.1)
    else if command == 0x0058
    then (do
      out ← write_blocks m request 28 block_count
      respond out.1 request command data_type out.0 block_count [])
    else respond m request command data_type 0x00FF block_count []

-- The branch for every other data type.
unfoldable pub individual_request : PlcMemory → List ℕ → ℕ → ℕ → Reply
individual_request m request command data_type = do
  block_count ← read_uint16_le request 26
  individual_dispatch m request command data_type block_count

unfoldable pub dispatch : PlcMemory → List ℕ → ℕ → ℕ → Reply
dispatch m request command data_type =
    if data_type == 0x0014
    then continuous_request m request command data_type
    else individual_request m request command data_type

unfoldable pub process_request : PlcMemory → List ℕ → Reply
process_request m request =
    if ltb (length request) 30 then some (m, error_packet 0x00FF 0x00FF) else do
      command ← read_uint16_le request 20
      data_type ← read_uint16_le request 22
      dispatch m request command data_type
