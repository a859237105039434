-- ===== src/Modbus/Answer.antt =====
-- What every answer of the Modbus server is like.
use native.Mathlib.Nat.{pow-suc}
use v_plc_runtime.Shared.{
  ℕ, zero, suc, ◌+◌, ◌*◌, ◌/◌, ◌^◌, ◌≤◌, ◌<◌, ◌≡◌, refl, Bool, true, List, [], ◌∷◌, ltb, length,
  get_elem?, arith, IsByte, IsBytes, IsWord, All, All-get_or, Yields, get_elem?-Yields, Yields-bind,
  Yields-byte, bit_or, passes_all, passes_all_sound, ltb→lt, u8, ap,
}
use v_plc_runtime.Memory.{PlcMemory}
use v_plc_runtime.Memory.Shape.{SameShape, IsValid, SameShape-refl}
use v_plc_runtime.Modbus.{
  read_uint16, exception_response, fail, pack_from, pack_bytes, register_bytes, echo, unpack_coils,
  unpack_registers,
}

-- The memory keeps its shape and its invariant, and the PDU is made of 2 to 252 bytes.
pub record IsAnswer (m : PlcMemory) (out : PlcMemory × List ℕ) : Type 0 where
  pub shape : SameShape m out.0
  pub valid : IsValid m → IsValid out.0
  pub at_least : 2 ≤ length out.1
  pub at_most : length out.1 ≤ 252
  pub bytes : IsBytes out.1

exception_table : passes_all (λ x. ltb (bit_or x 0x80) 256) 256 ≡ true
unfolding passes_all
exception_table = refl

pub bit_or-lt : (fc : ℕ) → fc < 256 → bit_or fc 0x80 < 256
bit_or-lt fc h =
    ltb→lt _ _ (passes_all_sound (λ x. ltb (bit_or x 0x80) 256) 256 fc h exception_table)

pub fail-IsAnswer :
    (m : PlcMemory) (fc code : ℕ) → IsByte fc → IsByte code → Yields (IsAnswer m) (fail m fc code)
unfolding fail exception_response
fail-IsAnswer m fc code hf hc = record {
  shape = SameShape-refl m;
  valid = λ v. v;
  at_least = omega arith;
  at_most = omega arith;
  bytes = (bit_or-lt fc hf, (hc, tt));
}

pub pack_from-lt : (l : List Bool) (i w n : ℕ) → pack_from l i w n + w ≤ w * 2 ^ n
unfolding pack_from
pack_from-lt l i w zero = omega arith
pack_from-lt l i w (suc n) =
    ground
      (arith, pow-suc 2 n, ap (λ (t : ℕ). w * t) (pow-suc 2 n), pack_from-lt l (i + 1) (w * 2) n)

pub length-pack_bytes : (l : List Bool) (b n : ℕ) → length (pack_bytes l b n) ≡ n
unfolding pack_bytes
length-pack_bytes l b zero = refl
length-pack_bytes l b (suc n) = ap suc (length-pack_bytes l (b + 1) n)

pub pack_bytes-IsBytes : (l : List Bool) (b n : ℕ) → IsBytes (pack_bytes l b n)
unfolding pack_bytes
pack_bytes-IsBytes l b zero = tt
pack_bytes-IsBytes l b (suc n) =
    (omega (arith, pack_from-lt l (b * 8) 1 8), pack_bytes-IsBytes l (b + 1) n)

pub length-register_bytes : (l : List ℕ) → length (register_bytes l) ≡ 2 * length l
unfolding register_bytes
length-register_bytes [] = refl
length-register_bytes (v ∷ l) = omega (arith, length-register_bytes l)

pub register_bytes-IsBytes : (l : List ℕ) → IsBytes (register_bytes l)
unfolding register_bytes
register_bytes-IsBytes [] = tt
register_bytes-IsBytes (v ∷ l) = (omega arith, (omega arith, register_bytes-IsBytes l))

pub read_uint16-Yields :
    (l : List ℕ) (i : ℕ) → IsBytes l → i + 1 < length l → Yields IsWord (read_uint16 l i)
unfolding read_uint16
read_uint16-Yields l i b h =
    Yields-bind IsByte IsWord (get_elem? l i) _
      (get_elem?-Yields IsByte l i 0 (omega arith) (All-get_or IsByte l i 0 b (omega arith)))
      λ x hx.
        Yields-bind IsByte IsWord (get_elem? l (i + 1)) _
          (get_elem?-Yields IsByte l (i + 1) 0 h (All-get_or IsByte l (i + 1) 0 b (omega arith)))
          λ y hy. omega arith

-- An echoed request of at least five bytes.
pub echo-Yields :
    {m n : PlcMemory} (request : List ℕ) (fc : ℕ)
    → IsBytes request
    → 5 ≤ length request
    → IsByte fc
    → SameShape m n
    → (IsValid m → IsValid n)
    → Yields (IsAnswer m) (echo n request fc)
unfolding echo
echo-Yields {m} {n} request fc b h hf s v =
    Yields-byte (IsAnswer m) request 1 _ b (omega arith) λ b1 h1.
      Yields-byte (IsAnswer m) request 2 _ b (omega arith) λ b2 h2.
        Yields-byte (IsAnswer m) request 3 _ b (omega arith) λ b3 h3.
          Yields-byte (IsAnswer m) request 4 _ b (omega arith) λ b4 h4. record {
            shape = s;
            valid = v;
            at_least = omega arith;
            at_most = omega arith;
            bytes = (hf, (h1, (h2, (h3, (h4, tt)))));
          }

pub unpack_coils-Yields :
    (request : List ℕ) (i n : ℕ)
    → i + n ≤ 2000
    → 6 + (i + n + 7) / 8 ≤ length request
    → Yields (λ l. length l ≡ n) (unpack_coils request i n)
unfolding unpack_coils
unpack_coils-Yields request i zero k h = refl
unpack_coils-Yields request i (suc n) k h =
    Yields-bind (λ x. Unit {0}) (λ l. length l ≡ suc n) (get_elem? request (u8 (6 + i / 8))) _
      (get_elem?-Yields (λ x. Unit {0}) request (u8 (6 + i / 8)) 0 (omega arith) tt)
      λ byte t.
        Yields-bind (λ l. length l ≡ n) (λ l. length l ≡ suc n) (unpack_coils request (i + 1) n) _
          (unpack_coils-Yields request (i + 1) n (omega arith) (omega arith)) λ rest e. ap suc e

pub unpack_registers-Yields :
    (request : List ℕ) (i n : ℕ)
    → IsBytes request
    → 6 + (i + n) * 2 ≤ length request
    → Yields (λ l. (length l ≡ n) × All IsWord l) (unpack_registers request i n)
unfolding unpack_registers
unpack_registers-Yields request i zero b h = (refl, tt)
unpack_registers-Yields request i (suc n) b h =
    Yields-bind IsWord (λ l. (length l ≡ suc n) × All IsWord l) (read_uint16 request (6 + i * 2)) _
      (read_uint16-Yields request (6 + i * 2) b (omega arith))
      λ x hx.
        Yields-bind (λ l. (length l ≡ n) × All IsWord l) (λ l. (length l ≡ suc n) × All IsWord l)
          (unpack_registers request (i + 1) n) _
          (unpack_registers-Yields request (i + 1) n b (omega arith))
          λ rest e. (ap suc e.0, (hx, e.1))
