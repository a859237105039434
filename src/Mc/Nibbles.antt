-- ===== src/Mc/Nibbles.antt =====
-- The bit format of the MC protocol: two points to a byte, the first in the high nibble.
use v_plc_runtime.Shared.{
  ℕ, zero, suc, ◌+◌, ◌*◌, ◌/◌, ◌%◌, ◌<◌, ◌≡◌, refl, ◌∙◌, ap, sym, Bool, true, false, List, [], ◌∷◌,
  ◌++◌, append_assoc, ◌==◌, length, length-append, get_or, replicate, get_or-append_at,
  set-append_at, arith, u16, Text, of_bool, IsBytes,
}
use v_plc_runtime.Memory.{PlcMemory, read_mc_bit}
use v_plc_runtime.Mc.{mark_point, read_bit_points, point_value}

-- The bytes of a list of points.
unfoldable pub nibble_bytes : List Bool → List ℕ
nibble_bytes [] = []
nibble_bytes (b ∷ []) = (16 * of_bool b) ∷ []
nibble_bytes (b ∷ c ∷ bs) = (16 * of_bool b + of_bool c) ∷ nibble_bytes bs

-- The points that a read delivers.
unfoldable pub bit_points : PlcMemory → Text → ℕ → ℕ → ℕ → List Bool
bit_points m area s i zero = []
bit_points m area s i (suc n) = read_mc_bit m area (u16 (s + i)) ∷ bit_points m area s (i + 1) n

pub length-bit_points :
    (m : PlcMemory) (area : Text) (s i n : ℕ) → length (bit_points m area s i n) ≡ n
unfolding bit_points
length-bit_points m area s i zero = refl
length-bit_points m area s i (suc n) = ap suc (length-bit_points m area s (i + 1) n)

mark_even :
    (i : ℕ) (b : Bool) (before : List ℕ) (x : ℕ) (xs : List ℕ)
    → i ≡ 2 * length before
    → mark_point i b (before ++ (x ∷ xs)) ≡ before ++ ((x + 16 * of_bool b) ∷ xs)
unfolding mark_point
mark_even i false before x xs e = ap (λ y. before ++ (y ∷ xs)) (omega arith)
mark_even i true before x xs e =
    let at : i / 2 ≡ length before = omega arith in
    let even : (i % 2 == 0) ≡ true = ground arith in
    rw (at, even, get_or-append_at before xs x 0, set-append_at before xs x (x + 16)) refl

mark_odd :
    (i : ℕ) (b : Bool) (before : List ℕ) (x : ℕ) (xs : List ℕ)
    → i ≡ 2 * length before + 1
    → mark_point i b (before ++ (x ∷ xs)) ≡ before ++ ((x + of_bool b) ∷ xs)
unfolding mark_point
mark_odd i false before x xs e = ap (λ y. before ++ (y ∷ xs)) (omega arith)
mark_odd i true before x xs e =
    let at : i / 2 ≡ length before = omega arith in
    let odd : (i % 2 == 0) ≡ false = ground arith in
    rw (at, odd, get_or-append_at before xs x 0, set-append_at before xs x (x + 1)) refl

-- The loop fills the bytes behind those that are done.
read_bit_points-from :
    (m : PlcMemory) (area : Text) (s i n : ℕ) (before : List ℕ)
    → i ≡ 2 * length before
    → read_bit_points m area s i n (before ++ replicate ((n + 1) / 2) 0)
      ≡ before ++ nibble_bytes (bit_points m area s i n)
unfolding read_bit_points bit_points nibble_bytes
read_bit_points-from m area s i zero before e = refl
read_bit_points-from m area s i (suc zero) before e =
    mark_even i (read_mc_bit m area (u16 (s + i))) before 0 [] e
    ∙ ap (λ y. before ++ (y ∷ [])) (omega arith)
read_bit_points-from m area s i (suc (suc n)) before e =
    let b : Bool = read_mc_bit m area (u16 (s + i)) in
    let c : Bool = read_mc_bit m area (u16 (s + (i + 1))) in
    let zeros : List ℕ = replicate ((n + 1) / 2) 0 in
    let half : (suc (suc n) + 1) / 2 ≡ suc ((n + 1) / 2) = omega arith in
    let x : ℕ = 16 * of_bool b + of_bool c in
    let next : List ℕ = before ++ (x ∷ []) in
    let step : i + 1 + 1 ≡ 2 * length next = omega (arith, length-append before (x ∷ [])) in
    let marked : mark_point (i + 1) c (mark_point i b (before ++ (0 ∷ zeros))) ≡ next ++ zeros =
      ap (mark_point (i + 1) c) (mark_even i b before 0 zeros e)
      ∙ mark_odd (i + 1) c before (0 + 16 * of_bool b) zeros (omega arith)
      ∙ ap (λ y. before ++ (y ∷ zeros)) (omega arith)
      ∙ sym (append_assoc before (x ∷ []) zeros) in
    rw half (
      ap (read_bit_points m area s (i + 1 + 1) n) marked
      ∙ read_bit_points-from m area s (i + 1 + 1) n next step
      ∙ append_assoc before (x ∷ []) (nibble_bytes (bit_points m area s (i + 1 + 1) n)))

-- The bit read sends its points packed two to a byte.
pub read_bit_points_lem :
    (m : PlcMemory) (area : Text) (s n : ℕ)
    → read_bit_points m area s 0 n (replicate ((n + 1) / 2) 0)
      ≡ nibble_bytes (bit_points m area s 0 n)
read_bit_points_lem m area s n = read_bit_points-from m area s 0 n [] refl

pub nibble_bytes-IsBytes : (bs : List Bool) → IsBytes (nibble_bytes bs)
unfolding nibble_bytes
nibble_bytes-IsBytes [] = tt
nibble_bytes-IsBytes (b ∷ []) = (ground arith, tt)
nibble_bytes-IsBytes (b ∷ c ∷ bs) = (ground arith, nibble_bytes-IsBytes bs)

pub length-nibble_bytes : (bs : List Bool) → length (nibble_bytes bs) ≡ (length bs + 1) / 2
unfolding nibble_bytes
length-nibble_bytes [] = refl
length-nibble_bytes (b ∷ []) = refl
length-nibble_bytes (b ∷ c ∷ bs) = omega (arith, length-nibble_bytes bs)

-- Point `i` of packed points is the value of its nibble.
pub point_value-nibble_bytes :
    (bs : List Bool) (i : ℕ)
    → i < length bs
    → point_value i (get_or (nibble_bytes bs) (i / 2) 0) ≡ get_or bs i false
unfolding point_value nibble_bytes
point_value-nibble_bytes [] i h = absurd (omega arith)
point_value-nibble_bytes (b ∷ []) zero h = ground arith
point_value-nibble_bytes (b ∷ []) (suc i) h = absurd (omega arith)
point_value-nibble_bytes (b ∷ c ∷ bs) zero h = ground arith
point_value-nibble_bytes (b ∷ c ∷ bs) (suc zero) h = ground arith
point_value-nibble_bytes (b ∷ c ∷ bs) (suc (suc i)) h =
    let half : suc (suc i) / 2 ≡ suc (i / 2) = omega arith in
    let parity : suc (suc i) % 2 ≡ i % 2 = omega arith in
    rw (half, parity) (point_value-nibble_bytes bs i (omega arith))
