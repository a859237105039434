-- ===== src/Shared/Strings.antt =====
-- `std::string` as a list of byte values: comparison, `std::getline` with a delimiter, `std::stoi`.
use Prim.Native.Nat.{ℕ, zero, suc, ◌+◌, ◌-◌, ◌*◌, ◌%◌, ◌^◌}
use Prim.Native.Char.{code}
use Prim.Native.String.{String}
use mathlib.Core.Path.{◌≡◌, refl}
use mathlib.Core.Bool.{Bool, true, false, ◌&&◌, ◌||◌}
use mathlib.Core.List.{List, [], ◌∷◌}
use mathlib.Core.Option.{Option, none, some}
use native.Mathlib.Omega.{arith}
use v_plc_runtime.Shared.Tests.{◌==◌, leb, ltb, if◌then◌else◌}
use v_plc_runtime.Shared.Words.{u16}

abbrev pub Text : Type 0
Text = List ℕ

-- The bytes of a literal.
abbrev pub codes : String → Text
codes String.[] = []
codes (String.◌∷◌ c s) = code c ∷ codes s

-- `a == b` on strings.
unfoldable pub text_eq : Text → Text → Bool
text_eq [] [] = true
text_eq [] (y ∷ ys) = false
text_eq (x ∷ xs) [] = false
text_eq (x ∷ xs) (y ∷ ys) = (x == y) && text_eq xs ys

pub text_eq_sound : (a b : Text) → text_eq a b ≡ true → a ≡ b
unfolding text_eq
text_eq_sound [] [] h = refl
text_eq_sound [] (y ∷ ys) h = ground arith
text_eq_sound (x ∷ xs) [] h = ground arith
text_eq_sound (x ∷ xs) (y ∷ ys) h = ground (arith, text_eq_sound xs ys)

pub text_eq_self : (a : Text) → text_eq a a ≡ true
unfolding text_eq
text_eq_self [] = refl
text_eq_self (x ∷ xs) = ground (arith, text_eq_self xs)

pub text_eq_sym : (a b : Text) → text_eq a b ≡ text_eq b a
unfolding text_eq
text_eq_sym [] [] = refl
text_eq_sym [] (y ∷ ys) = refl
text_eq_sym (x ∷ xs) [] = refl
text_eq_sym (x ∷ xs) (y ∷ ys) = ground (arith, text_eq_sym xs ys)

-- The parts that `std::getline(ss, part, delim)` delivers: a delimiter at the very end adds no
-- empty part, and an empty string has no parts.
onto_first : ℕ → List Text → List Text
onto_first c [] = (c ∷ []) ∷ []
onto_first c (p ∷ ps) = (c ∷ p) ∷ ps

unfoldable pub getline_parts : ℕ → Text → List Text
unfolding onto_first
getline_parts delim [] = []
getline_parts delim (c ∷ cs) =
    let rest = getline_parts delim cs in if c == delim then [] ∷ rest else onto_first c rest

-- An `int`; `negsuc n` is -(n + 1).
pub data ℤ : Type 0 where
  pos : ℕ → ℤ
  negsuc : ℕ → ℤ

-- `static_cast<uint16_t>` of an `int`.
abbrev pub int_u16 : ℤ → ℕ
int_u16 (pos n) = u16 n
int_u16 (negsuc n) = 2 ^ 16 - 1 - n % 2 ^ 16

is_digit : ℕ → Bool
is_digit c = leb b'0' c && leb c b'9'

is_space : ℕ → Bool
is_space c = c == 32 || (leb 9 c && leb c 13)

digits_value : ℕ → Text → ℕ
digits_value acc [] = acc
digits_value acc (c ∷ cs) =
    let rest = digits_value (acc * 10 + (c - b'0')) cs in if is_digit c then rest else acc

-- `none` is `std::invalid_argument`: no digit stands where one must.
magnitude : Text → Option ℕ
magnitude [] = none
magnitude (c ∷ cs) = if is_digit c then some (digits_value 0 (c ∷ cs)) else none

-- The range of `int`; outside it `std::stoi` throws `std::out_of_range`.
in_int : Bool → Option ℕ → Option ℤ
in_int negative none = none
in_int false (some n) = if ltb n (2 ^ 31) then some (pos n) else none
in_int true (some zero) = some (pos 0)
in_int true (some (suc n)) = if ltb n (2 ^ 31) then some (negsuc n) else none

signed_number : Text → Option ℤ
signed_number [] = none
signed_number (c ∷ cs) =
    if c == b'-'
    then in_int true (magnitude cs)
    else if c == b'+'
    then in_int false (magnitude cs)
    else in_int false (magnitude (c ∷ cs))

skip_spaces : Text → Text
skip_spaces [] = []
skip_spaces (c ∷ cs) = let rest = skip_spaces cs in if is_space c then rest else c ∷ cs

-- `std::stoi`: leading white space, a sign, digits; what follows the digits is ignored. `none` is
-- an exception.
unfoldable pub stoi : Text → Option ℤ
unfolding is_digit is_space digits_value magnitude in_int signed_number skip_spaces
stoi s = signed_number (skip_spaces s)
