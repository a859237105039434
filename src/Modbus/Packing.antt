-- ===== src/Modbus/Packing.antt =====
-- Eight coils to a byte, and back.
use v_plc_runtime.Shared.{
  ℕ, zero, suc, ◌+◌, ◌*◌, ◌/◌, ◌%◌, ◌^◌, ◌≤◌, ◌<◌, ◌≡◌, refl, ◌∙◌, ap, Bool, true, false, List,
  ◌++◌, some, ◌==◌, length, get_elem?, get_or, get_or-of-le, arith, of_bool, if◌then◌else◌, u8,
  get_elem?-append_right,
}
use v_plc_runtime.Memory.{copy_range}
use v_plc_runtime.Modbus.{is_set, pack_from, pack_bytes, test_bit, unpack_coils}

pub is_set-eq-get_or : (l : List Bool) (i : ℕ) → is_set l i ≡ get_or l i false
unfolding is_set
is_set-eq-get_or l i = ground (arith, get_or-of-le l i false)

-- `i + k`, counted up from `i` as the loop does.
abbrev up : ℕ → ℕ → ℕ
up i zero = i
up i (suc k) = up (i + 1) k

up-eq : (i k : ℕ) → up i k ≡ i + k
up-eq i zero = omega arith
up-eq i (suc k) = omega (arith, up-eq (i + 1) k)

digit : List Bool → ℕ → ℕ → ℕ
digit l i k = of_bool (is_set l (up i k))

of_bool-le-one : (b : Bool) → of_bool b ≤ 1
of_bool-le-one true = omega arith
of_bool-le-one false = omega arith

weigh : (c : Bool) (w : ℕ) → (if c then w else 0) ≡ of_bool c * w
weigh true w = omega arith
weigh false w = omega arith

-- A packed byte is the sum of its bits.
pack_eight :
    (l : List Bool) (i : ℕ)
    → pack_from l i 1 8
      ≡ digit l i 0
        + digit l i 1 * 2
        + digit l i 2 * 4
        + digit l i 3 * 8
        + digit l i 4 * 16
        + digit l i 5 * 32
        + digit l i 6 * 64
        + digit l i 7 * 128
unfolding pack_from digit
pack_eight l i = omega (
  arith,
  weigh (is_set l (up i 0)) 1,
  weigh (is_set l (up i 1)) 2,
  weigh (is_set l (up i 2)) 4,
  weigh (is_set l (up i 3)) 8,
  weigh (is_set l (up i 4)) 16,
  weigh (is_set l (up i 5)) 32,
  weigh (is_set l (up i 6)) 64,
  weigh (is_set l (up i 7)) 128,
)

of_bool-eq-one : (b : Bool) → (of_bool b == 1) ≡ b
of_bool-eq-one true = refl
of_bool-eq-one false = refl

digit-le-one : (l : List Bool) (i k : ℕ) → digit l i k ≤ 1
unfolding digit
digit-le-one l i k = of_bool-le-one (is_set l (up i k))

digit-eq-one : (l : List Bool) (i k : ℕ) → (digit l i k == 1) ≡ is_set l (i + k)
unfolding digit
digit-eq-one l i k = of_bool-eq-one (is_set l (up i k)) ∙ ap (is_set l) (up-eq i k)

ruleset digits = (arith, pack_eight, digit-le-one)

module _ (l : List Bool) (i : ℕ) where
  digit_0 : pack_from l i 1 8 / 2 ^ 0 % 2 ≡ digit l i 0
  digit_0 = omega digits

  digit_1 : pack_from l i 1 8 / 2 ^ 1 % 2 ≡ digit l i 1
  digit_1 = omega digits

  digit_2 : pack_from l i 1 8 / 2 ^ 2 % 2 ≡ digit l i 2
  digit_2 = omega digits

  digit_3 : pack_from l i 1 8 / 2 ^ 3 % 2 ≡ digit l i 3
  digit_3 = omega digits

  digit_4 : pack_from l i 1 8 / 2 ^ 4 % 2 ≡ digit l i 4
  digit_4 = omega digits

  digit_5 : pack_from l i 1 8 / 2 ^ 5 % 2 ≡ digit l i 5
  digit_5 = omega digits

  digit_6 : pack_from l i 1 8 / 2 ^ 6 % 2 ≡ digit l i 6
  digit_6 = omega digits

  digit_7 : pack_from l i 1 8 / 2 ^ 7 % 2 ≡ digit l i 7
  digit_7 = omega digits

-- Bit `k` of the byte packed from index `i` is coil `i + k`.
pub test_bit-pack_from :
    (l : List Bool) (i k : ℕ) → k < 8 → test_bit (pack_from l i 1 8) k ≡ is_set l (i + k)
unfolding test_bit
test_bit-pack_from l i zero h = ap (λ x. x == 1) (digit_0 l i) ∙ digit-eq-one l i 0
test_bit-pack_from l i (suc zero) h = ap (λ x. x == 1) (digit_1 l i) ∙ digit-eq-one l i 1
test_bit-pack_from l i (suc (suc zero)) h = ap (λ x. x == 1) (digit_2 l i) ∙ digit-eq-one l i 2
test_bit-pack_from l i (suc (suc (suc zero))) h =
    ap (λ x. x == 1) (digit_3 l i) ∙ digit-eq-one l i 3
test_bit-pack_from l i (suc (suc (suc (suc zero)))) h =
    ap (λ x. x == 1) (digit_4 l i) ∙ digit-eq-one l i 4
test_bit-pack_from l i (suc (suc (suc (suc (suc zero))))) h =
    ap (λ x. x == 1) (digit_5 l i) ∙ digit-eq-one l i 5
test_bit-pack_from l i (suc (suc (suc (suc (suc (suc zero)))))) h =
    ap (λ x. x == 1) (digit_6 l i) ∙ digit-eq-one l i 6
test_bit-pack_from l i (suc (suc (suc (suc (suc (suc (suc zero))))))) h =
    ap (λ x. x == 1) (digit_7 l i) ∙ digit-eq-one l i 7
test_bit-pack_from l i (suc (suc (suc (suc (suc (suc (suc (suc k)))))))) h = absurd (omega arith)

pub get_elem?-pack_bytes :
    (l : List Bool) (b n k : ℕ)
    → k < n
    → get_elem? (pack_bytes l b n) k ≡ some (pack_from l ((b + k) * 8) 1 8)
unfolding pack_bytes
get_elem?-pack_bytes l b zero k h = absurd (omega arith)
get_elem?-pack_bytes l b (suc n) zero h = ap (λ j. some (pack_from l (j * 8) 1 8)) (omega arith)
get_elem?-pack_bytes l b (suc n) (suc k) h =
    get_elem?-pack_bytes l (b + 1) n k (omega arith)
    ∙ ap (λ j. some (pack_from l (j * 8) 1 8)) (omega arith)

-- The loop over the coils of a request reads what `pack_bytes` wrote, at an index that fits a byte.
pub unpack_coils-append :
    (pre : List ℕ) (l : List Bool) (nb i n : ℕ)
    → length pre ≡ 6
    → i + n ≤ nb * 8
    → i + n ≤ 2000
    → unpack_coils (pre ++ pack_bytes l 0 nb) i n ≡ some (copy_range l false i n)
unfolding unpack_coils copy_range
unpack_coils-append pre l nb i zero e h k = refl
unpack_coils-append pre l nb i (suc n) e h k =
    let at_byte : get_elem? (pre ++ pack_bytes l 0 nb) (u8 (6 + i / 8))
        ≡ some (pack_from l (i / 8 * 8) 1 8) =
      ap (get_elem? (pre ++ pack_bytes l 0 nb)) (omega arith)
      ∙ get_elem?-append_right pre (pack_bytes l 0 nb) (i / 8)
      ∙ get_elem?-pack_bytes l 0 nb (i / 8) (omega arith)
      ∙ ap (λ j. some (pack_from l (j * 8) 1 8)) (omega arith) in
    let coil : test_bit (pack_from l (i / 8 * 8) 1 8) (i % 8) ≡ get_or l i false =
      test_bit-pack_from l (i / 8 * 8) (i % 8) (omega arith)
      ∙ ap (is_set l) (omega arith)
      ∙ is_set-eq-get_or l i in
    rw (at_byte, coil, unpack_coils-append pre l nb (i + 1) n e (omega arith) (omega arith))
