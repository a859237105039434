-- ===== src/Modbus/Frames.antt =====
-- The connections of the Modbus server: they end, every frame of a legal length is answered, and
-- which are not.
use v_plc_runtime.Shared.{
  ℕ, zero, suc, ◌+◌, ◌-◌, ◌≤◌, ◌<◌, not, ◌||◌, List, Option, none, some, ◌==◌, ltb, length, take,
  drop, arith, Yields, Yields-bind, Yields-byte, IsByte, IsBytes, IsWord, All, Bool-cases, inl, inr,
  length-drop, All-take, All-drop,
}
use v_plc_runtime.Memory.{PlcMemory}
use v_plc_runtime.Memory.Shape.{SameShape, IsValid, SameShape-refl, SameShape-trans}
use v_plc_runtime.Modbus.{read_uint16, uint16_bytes, process_request}
use v_plc_runtime.Modbus.Answer.{IsAnswer, read_uint16-Yields}
use v_plc_runtime.Modbus.Total.{process_request-IsAnswer}
use v_plc_runtime.Modbus.Server.{
  Session, response_frame, more, disconnect, answer, receive_pdu, serve_one, handle_client,
}

-- A frame of the server: at most 259 bytes.
abbrev pub IsFrame : List ℕ → Type 0
IsFrame frame = IsBytes frame × (length frame ≤ 259)

-- How a connection that began in `m` ends.
pub record IsServed (m : PlcMemory) (s : Session) : Type 0 where
  pub shape : SameShape m s.memory
  pub valid : IsValid m → IsValid s.memory
  pub frames : All IsFrame s.responses

disconnect-IsServed : (m : PlcMemory) → Yields (IsServed m) (disconnect m)
unfolding disconnect
disconnect-IsServed m = record { shape = SameShape-refl m; valid = λ v. v; frames = tt }

response_frame-IsFrame :
    (tid pid unit : ℕ) (pdu : List ℕ)
    → IsByte unit
    → IsBytes pdu
    → length pdu ≤ 252
    → IsFrame (response_frame tid pid unit pdu)
unfolding response_frame uint16_bytes
response_frame-IsFrame tid pid unit pdu hu hp k = (
  (
    omega arith,
    (omega arith, (omega arith, (omega arith, (omega arith, (omega arith, (hu, hp)))))),
  ),
  omega arith,
)

-- What a continuation must do on a shorter stream.
abbrev Continues : ℕ → (PlcMemory → List ℕ → Option Session) → Type 0
Continues n next =
    (k : PlcMemory) (s : List ℕ) → IsBytes s → length s < n → Yields (IsServed k) (next k s)

more-IsServed :
    (m k : PlcMemory) (frame : List ℕ) (o : Option Session)
    → IsFrame frame
    → SameShape m k
    → (IsValid m → IsValid k)
    → Yields (IsServed k) o
    → Yields (IsServed m) (more frame o)
unfolding more
more-IsServed m k frame none f s v h = absurd h
more-IsServed m k frame (some t) f s v h = record {
  shape = SameShape-trans s h.shape;
  valid = λ p. h.valid (v p);
  frames = (f, h.frames);
}

module _ (next : PlcMemory → List ℕ → Option Session) (n : ℕ) (go : Continues n next) where
  answer-IsServed :
      (m : PlcMemory) (tid pid unit : ℕ) (pdu rest : List ℕ)
      → IsByte unit
      → IsBytes pdu
      → IsBytes rest
      → length rest < n
      → Yields (IsServed m) (answer next m tid pid unit pdu rest)
  unfolding answer
  answer-IsServed m tid pid unit pdu rest hu hp hr lt =
      Yields-bind (IsAnswer m) (IsServed m) (process_request m pdu) _
        (process_request-IsAnswer m pdu hp)
        λ out a.
          more-IsServed m out.0 (response_frame tid pid unit out.1) (next out.0 rest)
            (response_frame-IsFrame tid pid unit out.1 hu a.bytes a.at_most) a.shape a.valid
            (go out.0 rest hr lt)

  receive_pdu-IsServed :
      (m : PlcMemory) (tid pid len unit : ℕ) (stream : List ℕ)
      → IsByte unit
      → IsBytes stream
      → length stream < n
      → Yields (IsServed m) (receive_pdu next m tid pid len unit stream)
  unfolding receive_pdu
  receive_pdu-IsServed m tid pid len unit stream hu hs lt = elim (Bool-cases (not (pid == 0))) [
    | inl e ↦ rw e (disconnect-IsServed m)
    | inr e ↦ elim (Bool-cases (ltb len 2 || ltb 250 len)) [
      | inl f ↦ rw (e, f) (disconnect-IsServed m)
      | inr f ↦ elim (Bool-cases (ltb (length stream) (len - 1))) [
        | inl g ↦ rw (e, f, g) (disconnect-IsServed m)
        | inr g ↦
            rw (e, f, g)
              (answer-IsServed m tid pid unit (take (len - 1) stream) (drop (len - 1) stream) hu
                (All-take IsByte (len - 1) stream hs) (All-drop IsByte (len - 1) stream hs)
                (omega (arith, length-drop (len - 1) stream)))
      ]
    ]
  ]

  serve_one-IsServed :
      (m : PlcMemory) (stream : List ℕ)
      → IsBytes stream
      → length stream < n + 7
      → Yields (IsServed m) (serve_one next m stream)
  unfolding serve_one
  serve_one-IsServed m stream hs lt = elim (Bool-cases (ltb (length stream) 7)) [
    | inl e ↦ rw e (disconnect-IsServed m)
    | inr e ↦ rw e (
        Yields-bind IsWord (IsServed m) (read_uint16 stream 0) _
          (read_uint16-Yields stream 0 hs (ground arith))
          λ tid ht.
            Yields-bind IsWord (IsServed m) (read_uint16 stream 2) _
              (read_uint16-Yields stream 2 hs (ground arith))
              λ pid hp.
                Yields-bind IsWord (IsServed m) (read_uint16 stream 4) _
                  (read_uint16-Yields stream 4 hs (ground arith))
                  λ len hl. Yields-byte (IsServed m) stream 6 _ hs (ground arith) λ unit hu.
                    receive_pdu-IsServed m tid pid len unit (drop 7 stream) hu
                      (All-drop IsByte 7 stream hs) (ground (arith, length-drop 7 stream)))
  ]

handle_client_fuel :
    (fuel : ℕ) (m : PlcMemory) (stream : List ℕ)
    → IsBytes stream
    → length stream < fuel
    → Yields (IsServed m) (handle_client fuel m stream)
unfolding handle_client
handle_client_fuel zero m stream hs lt = absurd (omega arith)
handle_client_fuel (suc fuel) m stream hs lt =
    serve_one-IsServed (handle_client fuel) fuel (handle_client_fuel fuel) m stream hs (omega arith)

-- Whatever bytes a client sends, fuel above their number is enough: the connection ends with no read
-- out of range, the memory keeps its shape and its invariant, and every response is a frame of at
-- most 259 bytes.
pub handle_client-IsServed :
    (m : PlcMemory) (stream : List ℕ)
    → IsBytes stream
    → Yields (IsServed m) (handle_client (suc (length stream)) m stream)
handle_client-IsServed m stream hs =
    handle_client_fuel (suc (length stream)) m stream hs (omega arith)
