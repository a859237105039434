-- ===== src/Xgt/Reads.antt =====
-- Reads of a request within its length, and the stores and the blocks that they are for.
use v_plc_runtime.Shared.{
  ℕ, zero, suc, ◌+◌, ◌*◌, ◌^◌, ◌≤◌, ◌<◌, ◌≡◌, inl, inr, refl, Bool, true, false, List, Option, none,
  some, ltb, if◌then◌else◌, length, All-append, arith, Bool-cases, IsByte, IsBytes, IsWord, Yields,
  u16, Yields-bind, Yields-byte, Yields-mono, of_bool,
}
use v_plc_runtime.Memory.{PlcMemory, ls_w_area, write_ls_word}
use v_plc_runtime.Memory.Shape.{
  IsKept, IsKept-refl, IsKept-trans, write_word-SameShape, write_word-IsValid,
}
use v_plc_runtime.Xgt.{
  read_uint16_le, Target, continuous_words, store_continuous, block_target, block_bytes, read_on,
  read_blocks,
}

pub read_uint16_le-Yields :
    (l : List ℕ) (i : ℕ) → IsBytes l → i + 1 < length l → Yields IsWord (read_uint16_le l i)
unfolding read_uint16_le
read_uint16_le-Yields l i b h =
    Yields-byte IsWord l i _ b (omega arith)
      λ x hx. Yields-byte IsWord l (i + 1) _ b h λ y hy. omega arith

pub Yields-if {ℓ} :
    {A : Type ℓ} (P : A → Type 0) (c : Bool) (x y : Option A)
    → (c ≡ true → Yields P x)
    → (c ≡ false → Yields P y)
    → Yields P (if c then x else y)
Yields-if P true x y p q = p refl
Yields-if P false x y p q = q refl

pub write_ls_word-IsKept : (m : PlcMemory) (i v : ℕ) → v < 2 ^ 16 → IsKept m (write_ls_word m i v)
unfolding write_ls_word
write_ls_word-IsKept m i v h = record {
  shape = write_word-SameShape m ls_w_area i v;
  valid = λ k. write_word-IsValid m ls_w_area i v k h;
}

pub continuous_words-IsBytes :
    (m : PlcMemory) (index i n : ℕ) → IsBytes (continuous_words m index i n)
unfolding continuous_words
continuous_words-IsBytes m index i zero = tt
continuous_words-IsBytes m index i (suc n) =
    (omega arith, (omega arith, continuous_words-IsBytes m index (i + 1) n))

of_bool-IsByte : (b : Bool) → IsByte (of_bool b)
of_bool-IsByte true = omega arith
of_bool-IsByte false = omega arith

block_bytes-IsBytes : (m : PlcMemory) (t : Target) → IsBytes (block_bytes m t)
unfolding block_bytes
block_bytes-IsBytes m t = elim (Bool-cases t.is_bit) [
  | inl e ↦ rw e (omega arith, (omega arith, (of_bool-IsByte _, tt)))
  | inr e ↦ rw e (omega arith)
]

read_on-Yields :
    (m : PlcMemory) (rest : ℕ → Option (ℕ × List ℕ)) (t : Option (Target × ℕ))
    → ((next : ℕ) → Yields (λ out. IsBytes out.1) (rest next))
    → Yields (λ out. IsBytes out.1) (read_on m rest t)
read_on-Yields m rest none h = tt
read_on-Yields m rest (some (t, next)) h =
    Yields-bind (λ out. IsBytes out.1) (λ out. IsBytes out.1) (rest next) _ (h next)
      λ out k. All-append IsByte (block_bytes m t) out.1 (block_bytes-IsBytes m t) k

module _ (request : List ℕ) (b : IsBytes request) where
  pub store_continuous-Yields :
      (m : PlcMemory) (o index i n : ℕ)
      → o + (i + n) * 2 ≤ length request
      → Yields (IsKept m) (store_continuous m request o index i n)
  unfolding store_continuous
  store_continuous-Yields m o index i zero h = IsKept-refl m
  store_continuous-Yields m o index i (suc n) h =
      Yields-bind IsWord (IsKept m) (read_uint16_le request (o + i * 2)) _
        (read_uint16_le-Yields request (o + i * 2) b (omega arith))
        λ v hv.
          let k : PlcMemory = write_ls_word m (u16 (index + i)) v in
          Yields-mono (IsKept k) (IsKept m) (store_continuous k request o index (i + 1) n)
            (λ q h'. IsKept-trans (write_ls_word-IsKept m (u16 (index + i)) v hv) h')
            (store_continuous-Yields k o index (i + 1) n (omega arith))

  block_target-Yields : (o : ℕ) → Yields (λ t. Unit) (block_target request o)
  unfolding block_target
  block_target-Yields o =
      Yields-if (λ t. Unit) (ltb (length request) (o + 2)) _ _ (λ _. tt)
        λ e.
          Yields-bind IsWord (λ t. Unit) (read_uint16_le request o) _
            (read_uint16_le-Yields request o b (ground arith)) λ v hv. tt

  pub read_blocks-Yields :
      (m : PlcMemory) (o n : ℕ) → Yields (λ out. IsBytes out.1) (read_blocks m request o n)
  unfolding read_blocks
  read_blocks-Yields m o zero = tt
  read_blocks-Yields m o (suc n) =
      Yields-bind (λ t. Unit) (λ out. IsBytes out.1) (block_target request o) _
        (block_target-Yields o)
        λ t _.
          read_on-Yields m (λ next. read_blocks m request next n) t
            λ next. read_blocks-Yields m next n
