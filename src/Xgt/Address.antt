-- ===== src/Xgt/Address.antt =====
-- xgt/XgtServer.cpp: `resolveAddress`, the name of a variable as an area and an index.
use v_plc_runtime.Shared.{
  ℕ, ◌+◌, ◌*◌, ◌/◌, Bool, true, false, not, ◌||◌, List, [], ◌∷◌, Option, none, some, ◌==◌, ltb,
  if◌then◌else◌, length, u16, ◌>>=◌, Text, getline_parts, ℤ, int_u16, stoi,
}

-- The outputs of `resolveAddress`.
pub record Target : Type 0 where
  pub area_char : ℕ
  pub is_bit : Bool
  pub index : ℕ
  pub sub_index : ℕ

-- `std::stoi` of every token; `none` is an exception.
unfoldable pub stoi_all : List Text → Option (List ℤ)
stoi_all [] = some []
stoi_all (t ∷ ts) = do n ← stoi t; ns ← stoi_all ts; some (n ∷ ns)

-- The last two numbers, or the only one.
unfoldable pub bit_position : List ℤ → Option (ℕ × ℕ)
bit_position [] = none
bit_position (a ∷ []) = some (int_u16 a, 0)
bit_position (a ∷ b ∷ []) = some (int_u16 a, int_u16 b)
bit_position (a ∷ b ∷ c ∷ ns) = bit_position (b ∷ c ∷ ns)

unfoldable pub is_area : ℕ → Bool
is_area area = (area == b'I') || ((area == b'Q') || (area == b'M'))

unfoldable pub resolve_bit : ℕ → Text → Option Target
resolve_bit area number_part = do
  nums ← stoi_all (getline_parts b'.' number_part)
  position ← bit_position nums
  some (record { area_char = area; is_bit = true; index = position.0; sub_index = position.1 })

-- `%MB` counts bytes: two of them are a word.
unfoldable pub resolve_word : ℕ → Bool → Text → Option Target
resolve_word area is_byte number_part = do
  n ← stoi number_part
  some (record {
    area_char = area;
    is_bit = false;
    index = if is_byte then int_u16 n / 2 else int_u16 n;
    sub_index = 0;
  })

-- What stands behind the percent sign: the area, the type, and the number.
unfoldable pub resolve_fields : Text → Option Target
resolve_fields (area ∷ type ∷ digit ∷ digits) =
    if not (is_area area)
    then none
    else if type == b'X'
    then resolve_bit area (digit ∷ digits)
    else if type == b'W'
    then resolve_word area false (digit ∷ digits)
    else if type == b'B'
    then resolve_word area true (digit ∷ digits)
    else none
resolve_fields _ = none

-- `resolveAddress`; `none` is a result of `false`.
unfoldable pub resolve_address : Text → Option Target
resolve_address [] = none
resolve_address (c ∷ rest) =
    if ltb (length (c ∷ rest)) 4
    then none
    else if c == b'%'
    then resolve_fields rest
    else resolve_fields (c ∷ rest)

-- `flat_idx`
unfoldable pub flat_idx : Target → ℕ
flat_idx t = u16 (t.index * 8 + t.sub_index)
