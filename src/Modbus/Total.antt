-- ===== src/Modbus/Total.antt =====
-- Every request PDU has an answer: no read of the request is out of range, whatever the client sent.
use v_plc_runtime.Shared.{
  ℕ, ◌+◌, ◌*◌, ◌/◌, ◌≤◌, ◌≡◌, Bool, true, false, not, ◌||◌, ◌&&◌, List, [], ◌∷◌, Option, ◌==◌, ltb,
  leb, if◌then◌else◌, length, arith, u8, inl, inr, Bool-cases, IsByte, IsBytes, IsWord, All, Yields,
  Yields-bind, Yields-byte,
}
use v_plc_runtime.Memory.{
  PlcMemory, BitArea, WordArea, coils_area, discrete_inputs_area, input_registers_area,
  holding_registers_area, words, bits, read_bits, read_words,
}
use v_plc_runtime.Memory.Shape.{
  SameShape-refl, write_bit-SameShape, write_word-SameShape, write_bit-IsValid, write_word-IsValid,
}
use v_plc_runtime.Memory.Ranges.{
  write_bits-SameShape, write_words-SameShape, write_bits-IsValid, write_words-IsValid,
  length-copy_range,
}
use v_plc_runtime.Modbus.{
  read_uint16, read_bits_request, read_words_request, write_coil_request, write_register_request,
  unpack_coils, store_coils, write_coils_request, unpack_registers, store_registers,
  write_registers_request, dispatch, process_request,
}
use v_plc_runtime.Modbus.Answer.{
  IsAnswer, fail-IsAnswer, length-pack_bytes, pack_bytes-IsBytes, length-register_bytes,
  register_bytes-IsBytes, read_uint16-Yields, echo-Yields, unpack_coils-Yields,
  unpack_registers-Yields,
}

read_bits-Yields :
    (m : PlcMemory) (a : BitArea) (fc s q : ℕ)
    → IsByte fc
    → Yields (IsAnswer m) (read_bits_request m a fc s q)
unfolding read_bits_request
read_bits-Yields m a fc s q h = elim (Bool-cases (ltb q 1 || ltb 2000 q)) [
  | inl e ↦ rw e (fail-IsAnswer m fc 0x03 h (omega arith))
  | inr e ↦ elim (Bool-cases (ltb (length (bits m a)) (s + q))) [
    | inl f ↦ rw (e, f) (fail-IsAnswer m fc 0x02 h (omega arith))
    | inr f ↦
        rw (e, f)
          (record {
            shape = SameShape-refl m;
            valid = λ v. v;
            at_least = omega arith;
            at_most = ground (arith, length-pack_bytes (read_bits m a s q) 0 (u8 ((q + 7) / 8)));
            bytes = (h, (omega arith, pack_bytes-IsBytes (read_bits m a s q) 0 (u8 ((q + 7) / 8))));
          })
  ]
]

length-read_words : (m : PlcMemory) (a : WordArea) (s q : ℕ) → length (read_words m a s q) ≤ q
unfolding read_words
length-read_words m a s q = ground (arith, length-copy_range (words m a) 0 s q)

read_words-Yields :
    (m : PlcMemory) (a : WordArea) (fc s q : ℕ)
    → IsByte fc
    → Yields (IsAnswer m) (read_words_request m a fc s q)
unfolding read_words_request
read_words-Yields m a fc s q h = elim (Bool-cases (ltb q 1 || ltb 125 q)) [
  | inl e ↦ rw e (fail-IsAnswer m fc 0x03 h (omega arith))
  | inr e ↦ elim (Bool-cases (ltb (length (words m a)) (s + q))) [
    | inl f ↦ rw (e, f) (fail-IsAnswer m fc 0x02 h (omega arith))
    | inr f ↦
        rw (e, f)
          (record {
            shape = SameShape-refl m;
            valid = λ v. v;
            at_least = omega arith;
            at_most =
                ground
                  (arith, length-register_bytes (read_words m a s q), length-read_words m a s q);
            bytes = (h, (omega arith, register_bytes-IsBytes (read_words m a s q)));
          })
  ]
]

module _ (m : PlcMemory) (request : List ℕ) (b : IsBytes request) (long : 5 ≤ length request) where
  write_coil-Yields :
      (fc s q : ℕ) → IsByte fc → Yields (IsAnswer m) (write_coil_request m request fc s q)
  unfolding write_coil_request
  write_coil-Yields fc s q h = elim (Bool-cases (leb (length (bits m coils_area)) s)) [
    | inl e ↦ rw e (fail-IsAnswer m fc 0x02 h (omega arith))
    | inr e ↦ elim (Bool-cases (not (q == 0xFF00) && not (q == 0x0000))) [
      | inl f ↦ rw (e, f) (fail-IsAnswer m fc 0x03 h (omega arith))
      | inr f ↦
          rw (e, f)
            (echo-Yields request fc b long h (write_bit-SameShape m coils_area s (q == 0xFF00))
              (write_bit-IsValid m coils_area s (q == 0xFF00)))
    ]
  ]

  write_register-Yields :
      (fc s q : ℕ)
      → IsByte fc
      → IsWord q
      → Yields (IsAnswer m) (write_register_request m request fc s q)
  unfolding write_register_request
  write_register-Yields fc s q h w =
      elim (Bool-cases (leb (length (words m holding_registers_area)) s)) [
        | inl e ↦ rw e (fail-IsAnswer m fc 0x02 h (omega arith))
        | inr e ↦ rw e (
            echo-Yields request fc b long h (write_word-SameShape m holding_registers_area s q)
              (λ v. write_word-IsValid m holding_registers_area s q v w))
      ]

  store_coils-Yields :
      (fc s q : ℕ)
      → IsByte fc
      → q ≤ 2000
      → 6 + (q + 7) / 8 ≤ length request
      → Yields (IsAnswer m) (store_coils m request fc s q)
  unfolding store_coils
  store_coils-Yields fc s q h k fits =
      Yields-bind (λ l. length l ≡ q) (IsAnswer m) (unpack_coils request 0 q) _
        (unpack_coils-Yields request 0 q (omega arith) (omega arith))
        λ values e.
          echo-Yields request fc b long h (write_bits-SameShape m coils_area s values)
            (write_bits-IsValid m coils_area s values)

  store_registers-Yields :
      (fc s q : ℕ)
      → IsByte fc
      → 6 + 2 * q ≤ length request
      → Yields (IsAnswer m) (store_registers m request fc s q)
  unfolding store_registers
  store_registers-Yields fc s q h fits =
      Yields-bind (λ l. (length l ≡ q) × All IsWord l) (IsAnswer m) (unpack_registers request 0 q) _
        (unpack_registers-Yields request 0 q b (omega arith))
        λ values e.
          echo-Yields request fc b long h (write_words-SameShape m holding_registers_area s values)
            (λ v. write_words-IsValid m holding_registers_area s values v e.1)

  write_coils-Yields :
      (fc s q : ℕ) → IsByte fc → Yields (IsAnswer m) (write_coils_request m request fc s q)
  unfolding write_coils_request
  write_coils-Yields fc s q h = elim (Bool-cases (ltb (length request) 6)) [
    | inl e ↦ rw e (fail-IsAnswer m fc 0x03 h (omega arith))
    | inr e ↦ rw e (
        Yields-byte (IsAnswer m) request 5 _ b (ground arith) λ n hn.
          elim (Bool-cases (ltb (length request) (6 + n))) [
            | inl f ↦ rw f (fail-IsAnswer m fc 0x03 h (omega arith))
            | inr f ↦ elim (Bool-cases (ltb q 1 || (ltb 2000 q || not (n == (q + 7) / 8)))) [
              | inl g ↦ rw (f, g) (fail-IsAnswer m fc 0x03 h (omega arith))
              | inr g ↦ elim (Bool-cases (ltb (length (bits m coils_area)) (s + q))) [
                | inl k ↦ rw (f, g, k) (fail-IsAnswer m fc 0x02 h (omega arith))
                | inr k ↦ rw (f, g, k) (store_coils-Yields fc s q h (ground arith) (ground arith))
              ]
            ]
          ])
  ]

  write_registers-Yields :
      (fc s q : ℕ) → IsByte fc → Yields (IsAnswer m) (write_registers_request m request fc s q)
  unfolding write_registers_request
  write_registers-Yields fc s q h = elim (Bool-cases (ltb (length request) 6)) [
    | inl e ↦ rw e (fail-IsAnswer m fc 0x03 h (omega arith))
    | inr e ↦ rw e (
        Yields-byte (IsAnswer m) request 5 _ b (ground arith) λ n hn.
          elim (Bool-cases (ltb (length request) (6 + n))) [
            | inl f ↦ rw f (fail-IsAnswer m fc 0x03 h (omega arith))
            | inr f ↦ elim (Bool-cases (ltb q 1 || (ltb 123 q || not (n == 2 * q)))) [
              | inl g ↦ rw (f, g) (fail-IsAnswer m fc 0x03 h (omega arith))
              | inr g ↦ elim (Bool-cases (ltb (length (words m holding_registers_area)) (s + q))) [
                | inl k ↦ rw (f, g, k) (fail-IsAnswer m fc 0x02 h (omega arith))
                | inr k ↦ rw (f, g, k) (store_registers-Yields fc s q h (ground arith))
              ]
            ]
          ])
  ]

  dispatch-Yields :
      (fc s q : ℕ) → IsByte fc → IsWord q → Yields (IsAnswer m) (dispatch m request fc s q)
  unfolding dispatch
  dispatch-Yields fc s q h w = Yields-if (fc == 0x01) _ _ (read_bits-Yields m coils_area fc s q h) (
      Yields-if (fc == 0x02) _ _ (read_bits-Yields m discrete_inputs_area fc s q h) (
        Yields-if (fc == 0x03) _ _ (read_words-Yields m holding_registers_area fc s q h) (
          Yields-if (fc == 0x04) _ _ (read_words-Yields m input_registers_area fc s q h) (
            Yields-if (fc == 0x05) _ _ (write_coil-Yields fc s q h) (
              Yields-if (fc == 0x06) _ _ (write_register-Yields fc s q h w) (
                Yields-if (fc == 0x0F) _ _ (write_coils-Yields fc s q h) (
                  Yields-if (fc == 0x10) _ _ (write_registers-Yields fc s q h)
                    (fail-IsAnswer m fc 0x01 h (omega arith)))))))))
    where
      Yields-if :
          (c : Bool) (x y : Option (PlcMemory × List ℕ))
          → Yields (IsAnswer m) x
          → Yields (IsAnswer m) y
          → Yields (IsAnswer m) (if c then x else y)
      Yields-if true x y p q = p
      Yields-if false x y p q = q

-- Every PDU of bytes has an answer.
pub process_request-IsAnswer :
    (m : PlcMemory) (request : List ℕ)
    → IsBytes request
    → Yields (IsAnswer m) (process_request m request)
unfolding process_request
process_request-IsAnswer m [] b = fail-IsAnswer m 0 0x04 (omega arith) (omega arith)
process_request-IsAnswer m (fc ∷ rest) b = elim (Bool-cases (ltb (length (fc ∷ rest)) 5)) [
  | inl e ↦ rw e (fail-IsAnswer m fc 0x03 b.0 (omega arith))
  | inr e ↦ rw e (
      Yields-bind IsWord (IsAnswer m) (read_uint16 (fc ∷ rest) 1) _
        (read_uint16-Yields (fc ∷ rest) 1 b (ground arith))
        λ s hs.
          Yields-bind IsWord (IsAnswer m) (read_uint16 (fc ∷ rest) 3) _
            (read_uint16-Yields (fc ∷ rest) 3 b (ground arith))
            λ q hq. dispatch-Yields m (fc ∷ rest) b (ground arith) fc s q b.0 hq)
]
