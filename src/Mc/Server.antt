-- ===== src/Mc/Server.antt =====
-- `handleClient` of the MC server: the frames of one connection, over the bytes that the client
-- sends. A read of `n` bytes takes the next `n` of the stream, and fails where the stream ends first,
-- which is a closed connection. Sending succeeds, and the server is running.
use v_plc_runtime.Shared.{
  ℕ, zero, suc, Bool, not, ◌||◌, List, [], ◌∷◌, ◌++◌, Option, none, some, ◌==◌, ltb, if◌then◌else◌,
  length, take, drop, get_elem?, ◌>>=◌,
}
use v_plc_runtime.Memory.{PlcMemory}
use v_plc_runtime.Mc.{read_uint16_le, process_request}

-- What a connection has done when it ends: the memory, and the responses in order.
pub record Session : Type 0 where
  pub memory : PlcMemory
  pub responses : List (List ℕ)

unfoldable pub more : List ℕ → Option Session → Option Session
more response none = none
more response (some s) = some (record s { responses = response ∷ s.responses })

-- The end of the connection.
unfoldable pub disconnect : PlcMemory → Option Session
disconnect m = some (record { memory = m; responses = [] })

-- The request is complete: one round of the loop ends with its response.
unfoldable pub answer :
    (PlcMemory → List ℕ → Option Session) → PlcMemory → List ℕ → List ℕ → Option Session
answer next m request rest = do out ← process_request m request; more out.1 (next out.0 rest)

-- The body of `req_data_len` bytes behind the header.
unfoldable pub receive_body :
    (PlcMemory → List ℕ → Option Session) → PlcMemory → List ℕ → ℕ → List ℕ → Option Session
receive_body next m header req_data_len stream =
    if (req_data_len == 0) || ltb 2048 req_data_len
    then disconnect m
    else if ltb (length stream) req_data_len
    then disconnect m
    else answer next m (header ++ take req_data_len stream) (drop req_data_len stream)

unfoldable pub receive_header :
    (PlcMemory → List ℕ → Option Session) → PlcMemory → List ℕ → List ℕ → Option Session
receive_header next m header stream = do
  first ← get_elem? header 0
  second ← get_elem? header 1
  req_data_len ← read_uint16_le header 7
  refuse_or_go (not (first == 0x50) || not (second == 0x00))
      (receive_body next m header req_data_len stream)
  where
    refuse_or_go : Bool → Option Session → Option Session
    refuse_or_go bad go = if bad then disconnect m else go

unfoldable pub serve_one :
    (PlcMemory → List ℕ → Option Session) → PlcMemory → List ℕ → Option Session
serve_one next m stream =
    if ltb (length stream) 9
    then disconnect m
    else receive_header next m (take 9 stream) (drop 9 stream)

-- The loop, with fuel: each round consumes at least ten bytes.
unfoldable pub handle_client : ℕ → PlcMemory → List ℕ → Option Session
handle_client zero m stream = none
handle_client (suc fuel) m stream = serve_one (handle_client fuel) m stream
