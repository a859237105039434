-- ===== src/Tui/Kept.antt =====
-- The keys keep the memory's invariant.
use v_plc_runtime.Shared.{ℕ, ◌+◌, ◌<◌, ◌^◌, ◌||◌, ◌==◌, not, leb, Text, either_branch, arith}
use v_plc_runtime.Memory.{discrete_inputs_area, holding_registers_area, read_bit, read_word}
use v_plc_runtime.Memory.Shape.{IsKept, IsKept-refl, IsValid, read_word-lt}
use v_plc_runtime.Memory.Kept.{write_bit-IsKept, write_word-IsKept}
use v_plc_runtime.Tui.{
  Console, is_trim, store_register, toggle_auto, raise_setting, lower_setting, handle_key,
}

module _ (s : Console) (v : IsValid s.memory) where
  abbrev KeptBy : Console → Type 0
  KeptBy t = IsKept s.memory t.memory

  store_register-KeptBy : (a n : ℕ) → n < 2 ^ 16 → KeptBy (store_register s a n)
  unfolding store_register
  store_register-KeptBy a n h = write_word-IsKept s.memory holding_registers_area a n h

  raise_setting-KeptBy : (path : Text) → KeptBy (raise_setting path s)
  unfolding raise_setting
  raise_setting-KeptBy path =
      either_branch KeptBy (is_trim path) _ _
        (λ _.
          either_branch KeptBy (leb (read_word s.memory holding_registers_area 3 + 50) 1000) _ _
            (λ small. store_register-KeptBy 3 _ (ground arith)) (λ _. IsKept-refl s.memory))
        (λ _.
          either_branch KeptBy (leb (read_word s.memory holding_registers_area 1 + 50) 1000) _ _
            (λ small. store_register-KeptBy 1 _ (ground arith))
            (λ _. store_register-KeptBy 1 1000 (omega arith)))

  lower_setting-KeptBy : (path : Text) → KeptBy (lower_setting path s)
  unfolding lower_setting
  lower_setting-KeptBy path =
      either_branch KeptBy (is_trim path) _ _
        (λ _.
          either_branch KeptBy (leb 50 (read_word s.memory holding_registers_area 3)) _ _
            (λ _.
              store_register-KeptBy 3 _
                (omega (arith, read_word-lt s.memory holding_registers_area 3 v)))
            (λ _. IsKept-refl s.memory))
        (λ _.
          either_branch KeptBy (leb 50 (read_word s.memory holding_registers_area 1)) _ _
            (λ _.
              store_register-KeptBy 1 _
                (omega (arith, read_word-lt s.memory holding_registers_area 1 v)))
            (λ _. store_register-KeptBy 1 0 (omega arith)))

  pub handle_key-IsKept : (path : Text) (c : ℕ) → IsKept s.memory (handle_key path c s).memory
  unfolding handle_key toggle_auto
  handle_key-IsKept path c =
      either_branch KeptBy ((c == b'q') || (c == b'Q')) _ _ (λ _. IsKept-refl s.memory)
        (λ _.
          either_branch KeptBy ((c == b'i') || (c == b'I')) _ _
            (λ _.
              write_bit-IsKept s.memory discrete_inputs_area 0
                (not (read_bit s.memory discrete_inputs_area 0)))
            (λ _.
              either_branch KeptBy ((c == b'a') || (c == b'A')) _ _ (λ _. raise_setting-KeptBy path)
                (λ _.
                  either_branch KeptBy ((c == b'z') || (c == b'Z')) _ _
                    (λ _. lower_setting-KeptBy path) (λ _. IsKept-refl s.memory))))
