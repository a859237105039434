-- ===== src/Memory/Access.antt =====
-- core/PlcMemory.cpp: the reads and writes of one element or of a range of a vector.
use v_plc_runtime.Shared.{
  ℕ, zero, suc, ◌+◌, Bool, false, ◌||◌, List, [], ◌∷◌, length, get_or, set, ltb, leb, ◌==◌,
  if◌then◌else◌,
}
use v_plc_runtime.Memory.Areas.{PlcMemory, BitArea, WordArea, bits, words, with_bits, with_words}

-- `readCoil` and its like: out of range a read gives the safe default.
unfoldable pub read_bit : PlcMemory → BitArea → ℕ → Bool
read_bit m a address =
    if leb (length (bits m a)) address then false else get_or (bits m a) address false

unfoldable pub read_word : PlcMemory → WordArea → ℕ → ℕ
read_word m a address = if leb (length (words m a)) address then 0 else get_or (words m a) address 0

-- `writeCoil` and its like: out of range a write changes nothing.
unfoldable pub write_bit : PlcMemory → BitArea → ℕ → Bool → PlcMemory
write_bit m a address value =
    if ltb address (length (bits m a)) then with_bits m a (set (bits m a) address value) else m

unfoldable pub write_word : PlcMemory → WordArea → ℕ → ℕ → PlcMemory
write_word m a address value =
    if ltb address (length (words m a)) then with_words m a (set (words m a) address value) else m

-- The loop of `readCoils` and its like: `count` elements from `start` on.
unfoldable pub copy_range {ℓ} : {A : Type ℓ} → List A → A → ℕ → ℕ → List A
copy_range l d start zero = []
copy_range l d start (suc count) = get_or l start d ∷ copy_range l d (start + 1) count

-- The loop of `writeCoils` and its like.
unfoldable pub store_range {ℓ} : {A : Type ℓ} → List A → ℕ → List A → List A
store_range l start [] = l
store_range l start (v ∷ vs) = store_range (set l start v) (start + 1) vs

-- `readCoils`, `readDiscreteInputs`: empty if the range is invalid.
unfoldable pub read_bits : PlcMemory → BitArea → ℕ → ℕ → List Bool
read_bits m a start_address count =
    if ltb (length (bits m a)) (start_address + count) || count == 0
    then []
    else copy_range (bits m a) false start_address count

-- `readInputRegisters`, `readHoldingRegisters`
unfoldable pub read_words : PlcMemory → WordArea → ℕ → ℕ → List ℕ
read_words m a start_address count =
    if ltb (length (words m a)) (start_address + count) || count == 0
    then []
    else copy_range (words m a) 0 start_address count

-- `writeCoils`, `writeDiscreteInputs`: all values, or none if they do not fit.
unfoldable pub write_bits : PlcMemory → BitArea → ℕ → List Bool → PlcMemory
write_bits m a start_address values =
    if leb (start_address + length values) (length (bits m a))
    then with_bits m a (store_range (bits m a) start_address values)
    else m

-- `writeInputRegisters`, `writeHoldingRegisters`
unfoldable pub write_words : PlcMemory → WordArea → ℕ → List ℕ → PlcMemory
write_words m a start_address values =
    if leb (start_address + length values) (length (words m a))
    then with_words m a (store_range (words m a) start_address values)
    else m
