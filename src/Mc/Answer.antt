-- ===== src/Mc/Answer.antt =====
-- Every request frame has an answer of the MC server: no read of the request is out of range.
use v_plc_runtime.Shared.{
  ℕ, zero, suc, ◌+◌, ◌^◌, ◌≤◌, ◌<◌, Bool, List, Option, none, some, length, arith, IsBytes, IsWord,
  Yields, Yields-byte, Text,
}
use v_plc_runtime.Memory.{
  PlcMemory, write_mc_word, write_mc_bit, write_named_word, write_named_bit, mc_word_area,
  mc_bit_area, WordArea, BitArea,
}
use v_plc_runtime.Memory.Shape.{
  SameShape, SameShape-refl, IsValid, IsKept, write_named_word-SameShape, write_named_bit-SameShape,
  write_word-IsValid, write_bit-IsValid,
}
use v_plc_runtime.Mc.{read_uint16_le, error_response, fail, read_word_points, respond}

-- The memory keeps its shape and its invariant, and the answer is a frame of at least eleven bytes.
pub record IsAnswer (m : PlcMemory) (out : PlcMemory × List ℕ) : Type 0 where
  pub shape : SameShape m out.0
  pub valid : IsValid m → IsValid out.0
  pub at_least : 11 ≤ length out.1
  pub bytes : IsBytes out.1

pub fail-IsAnswer : (m : PlcMemory) (end_code : ℕ) → Yields (IsAnswer m) (fail m end_code)
unfolding fail error_response
fail-IsAnswer m end_code = record {
  shape = SameShape-refl m;
  valid = λ v. v;
  at_least = omega arith;
  bytes = omega arith;
}

pub read_uint16_le-Yields :
    (l : List ℕ) (i : ℕ) → IsBytes l → i + 1 < length l → Yields IsWord (read_uint16_le l i)
unfolding read_uint16_le
read_uint16_le-Yields l i b h =
    Yields-byte IsWord l i _ b (omega arith)
      λ x hx. Yields-byte IsWord l (i + 1) _ b h λ y hy. omega arith

pub respond-Yields :
    {m n : PlcMemory} (request resp_data : List ℕ)
    → IsBytes request
    → 21 ≤ length request
    → IsKept m n
    → IsBytes resp_data
    → 2 ≤ length resp_data
    → Yields (IsAnswer m) (respond n request resp_data)
unfolding respond
respond-Yields {m} {n} request resp_data b long kept hd h2 =
    Yields-byte (IsAnswer m) request 2 _ b (omega arith) λ a ha.
      Yields-byte (IsAnswer m) request 3 _ b (omega arith) λ c hc.
        Yields-byte (IsAnswer m) request 4 _ b (omega arith) λ d hd'.
          Yields-byte (IsAnswer m) request 5 _ b (omega arith) λ e he.
            Yields-byte (IsAnswer m) request 6 _ b (omega arith) λ f hf. record {
              shape = kept.shape;
              valid = kept.valid;
              at_least = omega arith;
              bytes = (
                omega arith,
                (omega arith, (ha, (hc, (hd', (he, (hf, (omega arith, (omega arith, hd)))))))),
              );
            }

pub read_word_points-IsBytes :
    (m : PlcMemory) (area : Text) (s i n : ℕ) → IsBytes (read_word_points m area s i n)
unfolding read_word_points
read_word_points-IsBytes m area s i zero = tt
read_word_points-IsBytes m area s i (suc n) =
    (omega arith, (omega arith, read_word_points-IsBytes m area s (i + 1) n))

pub write_mc_word-IsKept :
    (m : PlcMemory) (area : Text) (i v : ℕ) → v < 2 ^ 16 → IsKept m (write_mc_word m area i v)
unfolding write_mc_word
write_mc_word-IsKept m area i v h = record {
  shape = write_named_word-SameShape m (mc_word_area area) i v;
  valid = named (mc_word_area area);
}
  where
    named : (o : Option WordArea) → IsValid m → IsValid (write_named_word m o i v)
    named none k = unfold write_named_word in k
    named (some a) k = unfold write_named_word in write_word-IsValid m a i v k h

pub write_mc_bit-IsKept :
    (m : PlcMemory) (area : Text) (i : ℕ) (v : Bool) → IsKept m (write_mc_bit m area i v)
unfolding write_mc_bit
write_mc_bit-IsKept m area i v = record {
  shape = write_named_bit-SameShape m (mc_bit_area area) i v;
  valid = named (mc_bit_area area);
}
  where
    named : (o : Option BitArea) → IsValid m → IsValid (write_named_bit m o i v)
    named none k = unfold write_named_bit in k
    named (some a) k = unfold write_named_bit in write_bit-IsValid m a i v k
