-- ===== src/Mc/Frames.antt =====
-- Connections of the MC server: whatever a client sends, the loop ends with no read out of range.
use v_plc_runtime.Shared.{
  ℕ, zero, suc, ◌+◌, ◌≤◌, ◌<◌, ◌≡◌, not, ◌||◌, List, ◌++◌, Option, none, some, ◌==◌, ltb, length,
  take, drop, length-take, length-drop, All, All-take, All-drop, All-append, arith, IsByte, IsBytes,
  IsWord, Yields, Yields-bind, Yields-byte, inl, inr, Bool-cases,
}
use v_plc_runtime.Memory.{PlcMemory}
use v_plc_runtime.Memory.Shape.{SameShape, SameShape-refl, SameShape-trans, IsValid}
use v_plc_runtime.Mc.{read_uint16_le, process_request}
use v_plc_runtime.Mc.Answer.{IsAnswer, read_uint16_le-Yields}
use v_plc_runtime.Mc.Total.{process_request-Answers}
use v_plc_runtime.Mc.Server.{
  Session, more, disconnect, answer, receive_body, receive_header, serve_one, handle_client,
}

-- How a connection that began in `m` ends: every response is a frame of at least eleven bytes.
pub record IsServed (m : PlcMemory) (s : Session) : Type 0 where
  pub shape : SameShape m s.memory
  pub valid : IsValid m → IsValid s.memory
  pub frames : All (λ frame. IsBytes frame × (11 ≤ length frame)) s.responses

disconnect-IsServed : (m : PlcMemory) → Yields (IsServed m) (disconnect m)
unfolding disconnect
disconnect-IsServed m = record { shape = SameShape-refl m; valid = λ v. v; frames = tt }

more-IsServed :
    (m : PlcMemory) (out : PlcMemory × List ℕ) (o : Option Session)
    → IsAnswer m out
    → Yields (IsServed out.0) o
    → Yields (IsServed m) (more out.1 o)
unfolding more
more-IsServed m out none a h = absurd h
more-IsServed m out (some t) a h = record {
  shape = SameShape-trans a.shape h.shape;
  valid = λ p. h.valid (a.valid p);
  frames = ((a.bytes, a.at_least), h.frames);
}

module _ (next : PlcMemory → List ℕ → Option Session) (n : ℕ)
    (go : (k : PlcMemory) (s : List ℕ)
      → IsBytes s
      → length s < n
      → Yields (IsServed k) (next k s)) where
  answer-IsServed :
      (m : PlcMemory) (request rest : List ℕ)
      → IsBytes request
      → IsBytes rest
      → length rest < n
      → Yields (IsServed m) (answer next m request rest)
  unfolding answer
  answer-IsServed m request rest hq hr lt =
      Yields-bind (IsAnswer m) (IsServed m) (process_request m request) _
        (process_request-Answers m request hq)
        λ out a. more-IsServed m out (next out.0 rest) a (go out.0 rest hr lt)

  receive_body-IsServed :
      (m : PlcMemory) (header : List ℕ) (len : ℕ) (stream : List ℕ)
      → IsBytes header
      → IsBytes stream
      → length stream < n
      → Yields (IsServed m) (receive_body next m header len stream)
  unfolding receive_body
  receive_body-IsServed m header len stream hh hs lt =
      elim (Bool-cases ((len == 0) || ltb 2048 len)) [
        | inl e ↦ rw e (disconnect-IsServed m)
        | inr e ↦ elim (Bool-cases (ltb (length stream) len)) [
          | inl f ↦ rw (e, f) (disconnect-IsServed m)
          | inr f ↦
              rw (e, f)
                (answer-IsServed m (header ++ take len stream) (drop len stream)
                  (All-append IsByte header (take len stream) hh (All-take IsByte len stream hs))
                  (All-drop IsByte len stream hs) (omega (arith, length-drop len stream)))
        ]
      ]

  receive_header-IsServed :
      (m : PlcMemory) (header stream : List ℕ)
      → length header ≡ 9
      → IsBytes header
      → IsBytes stream
      → length stream < n
      → Yields (IsServed m) (receive_header next m header stream)
  unfolding receive_header
  receive_header-IsServed m header stream size hh hs lt =
      Yields-byte (IsServed m) header 0 _ hh (omega arith) λ a ha.
        Yields-byte (IsServed m) header 1 _ hh (omega arith) λ b hb.
          Yields-bind IsWord (IsServed m) (read_uint16_le header 7) _
            (read_uint16_le-Yields header 7 hh (omega arith))
            λ len hl. elim (Bool-cases (not (a == 0x50) || not (b == 0x00))) [
              | inl e ↦ rw e (disconnect-IsServed m)
              | inr e ↦ rw e (receive_body-IsServed m header len stream hh hs lt)
            ]

  serve_one-IsServed :
      (m : PlcMemory) (stream : List ℕ)
      → IsBytes stream
      → length stream < n + 9
      → Yields (IsServed m) (serve_one next m stream)
  unfolding serve_one
  serve_one-IsServed m stream hs lt = elim (Bool-cases (ltb (length stream) 9)) [
    | inl e ↦ rw e (disconnect-IsServed m)
    | inr e ↦ rw e (
        receive_header-IsServed m (take 9 stream) (drop 9 stream)
          (ground (arith, length-take 9 stream)) (All-take IsByte 9 stream hs)
          (All-drop IsByte 9 stream hs) (ground (arith, length-drop 9 stream)))
  ]

connection_fuel :
    (fuel : ℕ) (m : PlcMemory) (stream : List ℕ)
    → IsBytes stream
    → length stream < fuel
    → Yields (IsServed m) (handle_client fuel m stream)
unfolding handle_client
connection_fuel zero m stream hs lt = absurd (omega arith)
connection_fuel (suc fuel) m stream hs lt =
    serve_one-IsServed (handle_client fuel) fuel (connection_fuel fuel) m stream hs (omega arith)

-- Whatever bytes a client sends, fuel one above their number is enough: the connection ends with no read out of range, the
-- memory keeps its sizes and its invariant, and every response is a frame of at least eleven bytes.
pub connection-IsServed :
    (m : PlcMemory) (stream : List ℕ)
    → IsBytes stream
    → Yields (IsServed m) (handle_client (suc (length stream)) m stream)
connection-IsServed m stream hs = connection_fuel (suc (length stream)) m stream hs (omega arith)
