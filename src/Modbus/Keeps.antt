-- ===== src/Modbus/Keeps.antt =====
-- Which requests can change the memory.
use v_plc_runtime.Shared.{
  ℕ, ◌≡◌, Bool, true, ◌||◌, List, ◌∷◌, some, ◌==◌, ◌⊎◌, inl, inr, length, arith, Option-cases,
}
use v_plc_runtime.Memory.{
  PlcMemory, BitArea, WordArea, coils_area, discrete_inputs_area, holding_registers_area,
  input_registers_area, write_bit, write_word, write_bits, write_words,
}
use v_plc_runtime.Modbus.{
  read_uint16, fail, read_bits_request, read_words_request, echo, write_coil_request,
  write_register_request, unpack_coils, store_coils, write_coils_request, unpack_registers,
  store_registers, write_registers_request, dispatch, process_request,
}

-- The four writing function codes.
unfoldable pub is_write : ℕ → Bool
is_write fc = fc == 0x05 || (fc == 0x06 || (fc == 0x0F || fc == 0x10))

-- The memory is as before, or a writing request has been acknowledged.
abbrev pub ChangesOnWrite : PlcMemory → ℕ → PlcMemory × List ℕ → Type 0
ChangesOnWrite m fc out = (out.0 ≡ m) ⊎ ((is_write fc ≡ true) × (length out.1 ≡ 5))

length-echo :
    (n : PlcMemory) (request : List ℕ) (fc : ℕ) (out : PlcMemory × List ℕ)
    → echo n request fc ≡ some out
    → length out.1 ≡ 5
unfolding echo
length-echo n request fc out h = ground arith

fail-Changes :
    (m : PlcMemory) (fc code : ℕ) (out : PlcMemory × List ℕ) → fail m fc code ≡ some out → out.0 ≡ m
unfolding fail
fail-Changes m fc code out h = ground arith

read_bits-Changes :
    (m : PlcMemory) (a : BitArea) (fc s q : ℕ) (out : PlcMemory × List ℕ)
    → read_bits_request m a fc s q ≡ some out
    → out.0 ≡ m
unfolding read_bits_request
read_bits-Changes m a fc s q out h =
    ground (arith, fail-Changes m fc 0x03 out, fail-Changes m fc 0x02 out)

read_words-Changes :
    (m : PlcMemory) (a : WordArea) (fc s q : ℕ) (out : PlcMemory × List ℕ)
    → read_words_request m a fc s q ≡ some out
    → out.0 ≡ m
unfolding read_words_request
read_words-Changes m a fc s q out h =
    ground (arith, fail-Changes m fc 0x03 out, fail-Changes m fc 0x02 out)

-- Unchanged, or acknowledged by five bytes.
abbrev Acknowledged : PlcMemory → PlcMemory × List ℕ → Type 0
Acknowledged m out = (out.0 ≡ m) ⊎ (length out.1 ≡ 5)

module _ (m : PlcMemory) (request : List ℕ) (fc s q : ℕ) (out : PlcMemory × List ℕ) where
  write_coil-Changes : write_coil_request m request fc s q ≡ some out → Acknowledged m out
  unfolding write_coil_request
  write_coil-Changes h = ground (
    arith,
    fail-Changes m fc 0x03 out,
    fail-Changes m fc 0x02 out,
    length-echo (write_bit m coils_area s (q == 0xFF00)) request fc out,
  )

  write_register-Changes : write_register_request m request fc s q ≡ some out → Acknowledged m out
  unfolding write_register_request
  write_register-Changes h = ground (
    arith,
    fail-Changes m fc 0x02 out,
    length-echo (write_word m holding_registers_area s q) request fc out,
  )

  store_coils-Changes : store_coils m request fc s q ≡ some out → length out.1 ≡ 5
  unfolding store_coils
  store_coils-Changes h = elim (Option-cases (unpack_coils request 0 q)) [
    | inl e ↦ cc (rw e at h)
    | inr (vs, e) ↦ length-echo (write_bits m coils_area s vs) request fc out (rw e at h)
  ]

  store_registers-Changes : store_registers m request fc s q ≡ some out → length out.1 ≡ 5
  unfolding store_registers
  store_registers-Changes h = elim (Option-cases (unpack_registers request 0 q)) [
    | inl e ↦ cc (rw e at h)
    | inr (vs, e) ↦
        length-echo (write_words m holding_registers_area s vs) request fc out (rw e at h)
  ]

  write_coils-Changes : write_coils_request m request fc s q ≡ some out → Acknowledged m out
  unfolding write_coils_request
  write_coils-Changes h =
      ground (arith, fail-Changes m fc 0x03 out, fail-Changes m fc 0x02 out, store_coils-Changes)

  write_registers-Changes : write_registers_request m request fc s q ≡ some out → Acknowledged m out
  unfolding write_registers_request
  write_registers-Changes h =
      ground
        (arith, fail-Changes m fc 0x03 out, fail-Changes m fc 0x02 out, store_registers-Changes)

  dispatch-Changes : dispatch m request fc s q ≡ some out → ChangesOnWrite m fc out
  unfolding dispatch is_write
  dispatch-Changes h = ground (
    arith,
    read_bits-Changes m coils_area fc s q out,
    read_bits-Changes m discrete_inputs_area fc s q out,
    read_words-Changes m holding_registers_area fc s q out,
    read_words-Changes m input_registers_area fc s q out,
    write_coil-Changes,
    write_register-Changes,
    write_coils-Changes,
    write_registers-Changes,
    fail-Changes m fc 0x01 out,
  )

-- Only a request with a writing function code that is acknowledged, by five bytes, changes the
-- memory: a read, an exception and an unknown function code leave it as it was.
pub process_request-Changes :
    (m : PlcMemory) (fc : ℕ) (rest : List ℕ) (out : PlcMemory × List ℕ)
    → process_request m (fc ∷ rest) ≡ some out
    → ChangesOnWrite m fc out
unfolding process_request
process_request-Changes m fc rest out h = elim (Option-cases (read_uint16 (fc ∷ rest) 1)) [
  | inl e ↦ ground (arith, fail-Changes m fc 0x03 out)
  | inr (s, e) ↦ elim (Option-cases (read_uint16 (fc ∷ rest) 3)) [
    | inl f ↦ ground (arith, fail-Changes m fc 0x03 out)
    | inr (q, f) ↦
        ground (arith, fail-Changes m fc 0x03 out, dispatch-Changes m (fc ∷ rest) fc s q out)
  ]
]
