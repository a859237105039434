-- ===== src/Tui/Keys.antt =====
-- What the keys of the terminal interface may change.
use v_plc_runtime.Shared.{
  ℕ, ◌+◌, ◌≤◌, ◌≡◌, ◌≢◌, refl, ◌∙◌, Bool, not, ◌||◌, if◌then◌else◌, ◌==◌, leb, List, [], ◌∷◌, Text,
  either_branch, arith,
}
use v_plc_runtime.Memory.{discrete_inputs_area, holding_registers_area, read_bit, read_word}
use v_plc_runtime.Memory.Lens.{same_bit_area, same_word_area}
use v_plc_runtime.Memory.Laws.{
  read_bit-write_bit, read_word-write_word, read_word-write_bit, read_bit-write_word,
}
use v_plc_runtime.Tui.{
  Console, is_trim, store_register, toggle_auto, raise_setting, lower_setting, handle_key,
  input_loop,
}

-- The register that the keys set.
unfoldable pub setting : Text → ℕ
setting lib_path = if is_trim lib_path then 3 else 1

-- From `s` to `t` the setting stays at most 1000, and of the other holding registers and discrete inputs only %IX0.0
-- changes.
pub record IsKeyed (lib_path : Text) (s t : Console) : Type 0 where
  pub bounded :
      read_word s.memory holding_registers_area (setting lib_path) ≤ 1000
      → read_word t.memory holding_registers_area (setting lib_path) ≤ 1000
  pub register :
      (j : ℕ)
      → j ≢ setting lib_path
      → read_word t.memory holding_registers_area j ≡ read_word s.memory holding_registers_area j
  pub input :
      (i : ℕ)
      → i ≢ 0
      → read_bit t.memory discrete_inputs_area i ≡ read_bit s.memory discrete_inputs_area i

same-IsKeyed : (lib_path : Text) (s t : Console) → t.memory ≡ s.memory → IsKeyed lib_path s t
same-IsKeyed lib_path s t e = record {
  bounded = λ h. rw e h;
  register = λ j n. rw e refl;
  input = λ i n. rw e refl;
}

store_register-IsKeyed :
    (lib_path : Text) (s : Console) (a v : ℕ)
    → a ≡ setting lib_path
    → (read_word s.memory holding_registers_area a ≤ 1000 → v ≤ 1000)
    → IsKeyed lib_path s (store_register s a v)
unfolding store_register same_word_area
store_register-IsKeyed lib_path s a v e h = record {
  bounded = λ k. ground (
    arith,
    read_word-write_word s.memory holding_registers_area holding_registers_area a (setting lib_path)
        v,
  );
  register = λ j n.
      ground
        (arith, read_word-write_word s.memory holding_registers_area holding_registers_area a j v);
  input = λ i n. read_bit-write_word s.memory holding_registers_area discrete_inputs_area a i v;
}

toggle_auto-IsKeyed : (lib_path : Text) (s : Console) → IsKeyed lib_path s (toggle_auto s)
unfolding toggle_auto same_bit_area
toggle_auto-IsKeyed lib_path s =
    let v : Bool = not (read_bit s.memory discrete_inputs_area 0) in
    record {
      bounded = λ k.
          rw
            (read_word-write_bit s.memory discrete_inputs_area holding_registers_area 0
              (setting lib_path) v)
            k;
      register =
          λ j n. read_word-write_bit s.memory discrete_inputs_area holding_registers_area 0 j v;
      input = λ i n.
          ground
            (arith, read_bit-write_bit s.memory discrete_inputs_area discrete_inputs_area 0 i v);
    }

raise_setting-IsKeyed :
    (lib_path : Text) (s : Console) → IsKeyed lib_path s (raise_setting lib_path s)
unfolding raise_setting setting
raise_setting-IsKeyed lib_path s =
    either_branch (IsKeyed lib_path s) (is_trim lib_path) _ _
      (λ trim.
        either_branch (IsKeyed lib_path s)
          (leb (read_word s.memory holding_registers_area 3 + 50) 1000) _ _
          (λ small. store_register-IsKeyed lib_path s 3 _ (rw trim refl) (λ h. ground arith))
          (λ large. same-IsKeyed lib_path s s refl))
      (λ tank.
        either_branch (IsKeyed lib_path s)
          (leb (read_word s.memory holding_registers_area 1 + 50) 1000) _ _
          (λ small. store_register-IsKeyed lib_path s 1 _ (rw tank refl) (λ h. ground arith))
          (λ large. store_register-IsKeyed lib_path s 1 1000 (rw tank refl) (λ h. ground arith)))

lower_setting-IsKeyed :
    (lib_path : Text) (s : Console) → IsKeyed lib_path s (lower_setting lib_path s)
unfolding lower_setting setting
lower_setting-IsKeyed lib_path s =
    either_branch (IsKeyed lib_path s) (is_trim lib_path) _ _
      (λ trim.
        either_branch (IsKeyed lib_path s) (leb 50 (read_word s.memory holding_registers_area 3)) _
          _ (λ small. store_register-IsKeyed lib_path s 3 _ (rw trim refl) (λ h. ground arith))
          (λ large. same-IsKeyed lib_path s s refl))
      (λ tank.
        either_branch (IsKeyed lib_path s) (leb 50 (read_word s.memory holding_registers_area 1)) _
          _ (λ small. store_register-IsKeyed lib_path s 1 _ (rw tank refl) (λ h. ground arith))
          (λ large. store_register-IsKeyed lib_path s 1 0 (rw tank refl) (λ h. ground arith)))

handle_key-IsKeyed :
    (lib_path : Text) (c : ℕ) (s : Console) → IsKeyed lib_path s (handle_key lib_path c s)
unfolding handle_key
handle_key-IsKeyed lib_path c s =
    either_branch (IsKeyed lib_path s) ((c == b'q') || (c == b'Q')) _ _
      (λ _. same-IsKeyed lib_path s _ refl)
      (λ _.
        either_branch (IsKeyed lib_path s) ((c == b'i') || (c == b'I')) _ _
          (λ _. toggle_auto-IsKeyed lib_path s)
          (λ _.
            either_branch (IsKeyed lib_path s) ((c == b'a') || (c == b'A')) _ _
              (λ _. raise_setting-IsKeyed lib_path s)
              (λ _.
                either_branch (IsKeyed lib_path s) ((c == b'z') || (c == b'Z')) _ _
                  (λ _. lower_setting-IsKeyed lib_path s) (λ _. same-IsKeyed lib_path s s refl))))

trans-IsKeyed :
    (lib_path : Text) (s t u : Console)
    → IsKeyed lib_path s t
    → IsKeyed lib_path t u
    → IsKeyed lib_path s u
trans-IsKeyed lib_path s t u h k = record {
  bounded = λ b. k.bounded (h.bounded b);
  register = λ j n. k.register j n ∙ h.register j n;
  input = λ i n. k.input i n ∙ h.input i n;
}

-- After any keys: a setting that is at most 1000 still is, every other holding register is as it was, and so is every
-- discrete input but %IX0.0. The setting is register 3 where the library is the trim line's, and register 1 otherwise.
pub input_loop-IsKeyed :
    (lib_path : Text) (cs : List ℕ) (s : Console) → IsKeyed lib_path s (input_loop lib_path cs s)
unfolding input_loop
input_loop-IsKeyed lib_path [] s = same-IsKeyed lib_path s s refl
input_loop-IsKeyed lib_path (c ∷ cs) s =
    either_branch (IsKeyed lib_path s) s.is_running _ _
      (λ _.
        trans-IsKeyed lib_path s (handle_key lib_path c s) _ (handle_key-IsKeyed lib_path c s)
          (input_loop-IsKeyed lib_path cs (handle_key lib_path c s)))
      (λ _. same-IsKeyed lib_path s s refl)
