-- ===== src/Modbus/Server.antt =====
-- `handleClient`: the frames of one connection, over the bytes that the client sends. `recv` and the
-- socket are the system's: a read of `n` bytes takes the next `n` of the stream, and fails where the
-- stream ends first, which is a closed connection. Sending succeeds, and the server is running.
use v_plc_runtime.Shared.{
  ℕ, zero, suc, ◌+◌, ◌-◌, not, ◌||◌, List, [], ◌∷◌, ◌++◌, Option, none, some, ◌==◌, ltb,
  if◌then◌else◌, length, take, drop, get_elem?, ◌>>=◌, u16,
}
use v_plc_runtime.Memory.{PlcMemory}
use v_plc_runtime.Modbus.{read_uint16, uint16_bytes, process_request}

-- What a connection has done when it ends: the memory, and the responses in order.
pub record Session : Type 0 where
  pub memory : PlcMemory
  pub responses : List (List ℕ)

-- The response frame around a PDU.
unfoldable pub response_frame : ℕ → ℕ → ℕ → List ℕ → List ℕ
response_frame transaction_id protocol_id unit_id response_pdu =
    uint16_bytes transaction_id
    ++ (uint16_bytes protocol_id
        ++ (uint16_bytes (u16 (length response_pdu + 1)) ++ (unit_id ∷ response_pdu)))

unfoldable pub more : List ℕ → Option Session → Option Session
more response none = none
more response (some s) = some (record s { responses = response ∷ s.responses })

-- The end of the connection.
unfoldable pub disconnect : PlcMemory → Option Session
disconnect m = some (record { memory = m; responses = [] })

-- One round of the loop, and by `next` those that follow it. `none` is a fault of `process_request`.
unfoldable pub answer :
    (PlcMemory → List ℕ → Option Session) → PlcMemory → ℕ → ℕ → ℕ → List ℕ → List ℕ → Option Session
answer next m transaction_id protocol_id unit_id request_pdu rest = do
  out ← process_request m request_pdu
  more (response_frame transaction_id protocol_id unit_id (out.1)) (next (out.0) rest)

unfoldable pub receive_pdu :
    (PlcMemory → List ℕ → Option Session) → PlcMemory → ℕ → ℕ → ℕ → ℕ → List ℕ → Option Session
receive_pdu next m transaction_id protocol_id len unit_id stream =
    if not (protocol_id == 0)
    then disconnect m
    else if ltb len 2 || ltb 250 len
    then disconnect m
    else if ltb (length stream) (len - 1)
    then disconnect m
    else answer next m transaction_id protocol_id unit_id (take (len - 1) stream)
        (drop (len - 1) stream)

unfoldable pub serve_one :
    (PlcMemory → List ℕ → Option Session) → PlcMemory → List ℕ → Option Session
serve_one next m stream = if ltb (length stream) 7 then disconnect m else do
  transaction_id ← read_uint16 stream 0
  protocol_id ← read_uint16 stream 2
  len ← read_uint16 stream 4
  unit_id ← get_elem? stream 6
  receive_pdu next m transaction_id protocol_id len unit_id (drop 7 stream)

-- The loop, with fuel: each round consumes at least eight bytes.
unfoldable pub handle_client : ℕ → PlcMemory → List ℕ → Option Session
handle_client zero m stream = none
handle_client (suc fuel) m stream = serve_one (handle_client fuel) m stream
