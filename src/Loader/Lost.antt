-- ===== src/Loader/Lost.antt =====
-- A register that is written between the two copies of a scan.
use v_plc_runtime.Shared.{
  ℕ, zero, suc, ◌≡◌, ◌≢◌, refl, ◌∙◌, sym, ap, Bool, true, false, ◌||◌, ◌==◌, ltb, List, [], ◌∷◌,
  length, set, set-of-le, inl, inr, Bool-cases, arith,
}
use v_plc_runtime.Memory.{
  PlcMemory, bits, words, with_bits, with_words, holding_registers_area, write_bit, write_word,
}
use v_plc_runtime.Memory.Sync.{sync_mappings}
use v_plc_runtime.Loader.{
  BindingType, discrete_input, coil, input_register, holding_register, VarBinding, is_control,
  store_output, store_outputs, sync_outputs_from_dll,
}

set-set : {A : Type 0} (l : List A) (i : ℕ) (x y : A) → set (set l i x) i y ≡ set l i y
set-set [] i x y = refl
set-set (z ∷ l) zero x y = refl
set-set (z ∷ l) (suc i) x y = ap (λ k. z ∷ k) (set-set l i x y)

set_comm :
    {A : Type 0} (l : List A) (i j : ℕ) (x y : A)
    → i ≢ j
    → set (set l i x) j y ≡ set (set l j y) i x
set_comm [] i j x y h = refl
set_comm (z ∷ l) zero zero x y h = absurd (h refl)
set_comm (z ∷ l) zero (suc j) x y h = refl
set_comm (z ∷ l) (suc i) zero x y h = refl
set_comm (z ∷ l) (suc i) (suc j) x y h = ap (λ k. z ∷ k) (set_comm l i j x y (λ e. h (ap suc e)))

-- A holding register replaced.
abbrev poke : PlcMemory → ℕ → ℕ → PlcMemory
poke m i v = record m { holding_registers = set m.holding_registers i v }

write_word-eq-poke :
    (m : PlcMemory) (i v : ℕ) → write_word m holding_registers_area i v ≡ poke m i v
unfolding write_word words with_words
write_word-eq-poke m i v = elim (Bool-cases (ltb i (length m.holding_registers))) [
  | inl e ↦ rw e refl
  | inr e ↦ rw e (
      ap (λ l. record m { holding_registers = l })
        (sym (set-of-le m.holding_registers i v (ground arith))))
]

-- The copy writes holding register `i`.
unfoldable pub writes_register : ℕ → BindingType → ℕ → Bool
writes_register i holding_register address = address == i
writes_register i discrete_input address = false
writes_register i coil address = false
writes_register i input_register address = false

-- A variable of register `i` is among them.
unfoldable pub has_register : ℕ → List VarBinding → Bool
has_register i [] = false
has_register i (b ∷ bs) = writes_register i b.type b.plc_address || has_register i bs

store_output-poke_same :
    (m : PlcMemory) (type : BindingType) (address value i v : ℕ)
    → writes_register i type address ≡ true
    → store_output (poke m i v) type address value ≡ store_output m type address value
unfolding store_output writes_register
store_output-poke_same m holding_register address value i v h =
    let here : address ≡ i = ground arith in
    write_word-eq-poke (poke m i v) address value
    ∙ (ap (λ l. record m { holding_registers = l })
          (ap (λ j. set (set m.holding_registers j v) address value) (sym here)
            ∙ set-set m.holding_registers address v value)
        ∙ sym (write_word-eq-poke m address value))
store_output-poke_same m discrete_input address value i v h = absurd (ground arith)
store_output-poke_same m coil address value i v h = absurd (ground arith)
store_output-poke_same m input_register address value i v h = absurd (ground arith)

store_output-poke_other :
    (m : PlcMemory) (type : BindingType) (address value i v : ℕ)
    → writes_register i type address ≡ false
    → store_output (poke m i v) type address value ≡ poke (store_output m type address value) i v
unfolding store_output writes_register write_bit write_word bits words with_bits with_words
store_output-poke_other m holding_register address value i v h =
    let apart : i ≢ address = λ e. ground (arith, e) in
    write_word-eq-poke (poke m i v) address value
    ∙ (ap (λ l. record m { holding_registers = l })
          (set_comm m.holding_registers i address v value apart)
        ∙ ap (λ n. poke n i v) (sym (write_word-eq-poke m address value)))
store_output-poke_other m discrete_input address value i v h =
    elim (Bool-cases (is_control address)) [
      | inl c ↦ rw c refl
      | inr c ↦ rw c (elim (Bool-cases (ltb address (length m.discrete_inputs))) [
        | inl e ↦ rw e refl
        | inr e ↦ rw e refl
      ])
    ]
store_output-poke_other m coil address value i v h =
    elim (Bool-cases (ltb address (length m.coils))) [ inl e ↦ rw e refl | inr e ↦ rw e refl ]
store_output-poke_other m input_register address value i v h =
    elim (Bool-cases (ltb address (length m.input_registers))) [
      | inl e ↦ rw e refl
      | inr e ↦ rw e refl
    ]

store_outputs-poke :
    (m : PlcMemory) (bs : List VarBinding) (i v : ℕ)
    → has_register i bs ≡ true
    → store_outputs (poke m i v) bs ≡ store_outputs m bs
unfolding store_outputs has_register
store_outputs-poke m [] i v h = absurd (ground arith)
store_outputs-poke m (b ∷ bs) i v h = elim (Bool-cases (writes_register i b.type b.plc_address)) [
  | inl e ↦
      ap (λ n. store_outputs n bs) (store_output-poke_same m b.type b.plc_address b.value i v e)
  | inr e ↦
      ap (λ n. store_outputs n bs) (store_output-poke_other m b.type b.plc_address b.value i v e)
      ∙ store_outputs-poke (store_output m b.type b.plc_address b.value) bs i v (ground arith)
]

pub sync_outputs_from_dll-write_word :
    (m : PlcMemory) (bs : List VarBinding) (i v : ℕ)
    → has_register i bs ≡ true
    → sync_outputs_from_dll (write_word m holding_registers_area i v) bs
      ≡ sync_outputs_from_dll m bs
unfolding sync_outputs_from_dll
sync_outputs_from_dll-write_word m bs i v h =
    ap sync_mappings
      (ap (λ n. store_outputs n bs) (write_word-eq-poke m i v) ∙ store_outputs-poke m bs i v h)
