-- ===== src/Xgt/Server.antt =====
-- `handleClient` of the XGT server: the packets of one connection, over the bytes that the client
-- sends, with the reading of the bytes that a packet's length field leaves out. A read of `n` bytes
-- takes the next `n` of the stream, and fails where the stream ends first, which is a closed
-- connection. Sending succeeds, and the server is running.
use v_plc_runtime.Shared.{
  ℕ, zero, suc, ◌+◌, ◌-◌, ◌*◌, ◌^◌, not, ◌||◌, ◌&&◌, List, [], ◌∷◌, ◌++◌, Option, none, some, ◌==◌,
  ltb, if◌then◌else◌, length, take, drop, get_or, codes, text_eq, ◌>>=◌,
}
use v_plc_runtime.Memory.{PlcMemory}
use v_plc_runtime.Xgt.{fixed_data_len, process_request}

-- The body read so far, and the bytes still to come.
pub record Wire : Type 0 where
  pub body : List ℕ
  pub stream : List ℕ

-- `readUint16LE` of bytes that are there.
unfoldable pub field_at : List ℕ → ℕ → ℕ
field_at body i = get_or body i 0 + get_or body (i + 1) 0 * 2 ^ 8

-- The body has `size` bytes, or is brought to that size by `read_extra_blockingly`, and the reading goes
-- on by `next`. Where the stream ends first the bytes that came are dropped and the reading stops.
unfoldable pub extend_to : ℕ → Wire → (Wire → Wire) → Wire
extend_to size w next =
    if ltb (length w.body) size
    then (let missing = size - length w.body in
        if ltb (length w.stream) missing
        then record w { stream = [] }
        else next
            (record { body = w.body ++ take missing w.stream; stream = drop missing w.stream }))
    else next w

-- The blocks of an individual read, `left` of them from `offset` on.
unfoldable pub drain_reads : ℕ → ℕ → Wire → Wire
drain_reads offset zero w = w
drain_reads offset (suc left) w = extend_to (offset + 2) w λ w1.
    let var_len = field_at w1.body offset in
    extend_to (offset + 2 + var_len) w1 λ w2. drain_reads (offset + 2 + var_len) left w2

-- The blocks of an individual write.
unfoldable pub drain_writes : ℕ → ℕ → Wire → Wire
drain_writes offset zero w = w
drain_writes offset (suc left) w = extend_to (offset + 2) w λ w1.
    let var_len = field_at w1.body offset in
    extend_to (offset + 2 + var_len) w1 λ w2. extend_to (offset + 2 + var_len + 2) w2 λ w3.
      let write_data_len = fixed_data_len (field_at w3.body (offset + 2 + var_len)) in
      let next = offset + 2 + var_len + 2 + write_data_len in
      extend_to next w3 λ w4. drain_writes next left w4

-- A continuous request: its name, and the length field behind it.
unfoldable pub drain_continuous : ℕ → Wire → Wire
drain_continuous command w =
    let var_len = field_at w.body 10 in
    if command == 0x0054
    then extend_to (12 + var_len + 2) w (λ w1. w1)
    else if command == 0x0058
    then (extend_to (12 + var_len + 2) w λ w1.
        extend_to (12 + var_len + 2 + fixed_data_len (field_at w1.body (12 + var_len))) w1
          (λ w2. w2))
    else w

unfoldable pub drain_individual : ℕ → ℕ → Wire → Wire
drain_individual command block_count w =
    if command == 0x0054
    then drain_reads 10 block_count w
    else if command == 0x0058
    then drain_writes 10 block_count w
    else w

-- The drain, from the body of `packet_len` bytes on.
unfoldable pub drain : Wire → Wire
drain w = extend_to 12 w λ w1.
    let command = field_at w1.body 2 in
    if field_at w1.body 4 == 0x0014
    then drain_continuous command w1
    else drain_individual command (field_at w1.body 8) w1

-- What a connection has done when it ends: the memory, and the responses in order.
pub record Session : Type 0 where
  pub memory : PlcMemory
  pub responses : List (List ℕ)

unfoldable pub more : List ℕ → Option Session → Option Session
more response none = none
more response (some s) = some (record s { responses = response ∷ s.responses })

-- The end of the connection.
unfoldable pub disconnect : PlcMemory → Option Session
disconnect m = some (record { memory = m; responses = [] })

-- The packet is answered whether the drain was complete or not.
unfoldable pub answer :
    (PlcMemory → List ℕ → Option Session) → PlcMemory → List ℕ → Wire → Option Session
answer next m header w = do
  out ← process_request m (header ++ w.body)
  more out.1 (next out.0 w.stream)

unfoldable pub receive_body :
    (PlcMemory → List ℕ → Option Session) → PlcMemory → List ℕ → List ℕ → Option Session
receive_body next m header stream =
    let packet_len = field_at header 16 in
    if not (text_eq (take 8 header) (codes "LSIS-XGT"))
      && not (text_eq (take 8 header) (codes "LGIS-GLO"))
    then disconnect m
    else if (packet_len == 0) || ltb 2048 packet_len
    then disconnect m
    else if ltb (length stream) packet_len
    then disconnect m
    else answer next m header
        (drain (record { body = take packet_len stream; stream = drop packet_len stream }))

-- The loop, with fuel: each round consumes at least nineteen bytes. `none` is also a fault of
-- `process_request`.
unfoldable pub handle_client : ℕ → PlcMemory → List ℕ → Option Session
handle_client zero m stream = none
handle_client (suc fuel) m stream =
    if ltb (length stream) 18
    then disconnect m
    else receive_body (handle_client fuel) m (take 18 stream) (drop 18 stream)
