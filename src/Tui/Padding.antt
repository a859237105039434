-- ===== src/Tui/Padding.antt =====
-- tui/PlcTui.cpp: `getVisibleLength` and `padString`, which lay out the screens.
use v_plc_runtime.Shared.{
  ℕ, zero, suc, ◌+◌, ◌-◌, ◌/◌, ◌≡◌, refl, ◌∙◌, Bool, true, false, ◌&&◌, ◌||◌, ◌==◌, leb,
  if◌then◌else◌, [], ◌∷◌, ◌++◌, replicate, Text, inl, inr, Bool-cases, arith,
}

-- `(s[i] >= 'A' && s[i] <= 'Z') || (s[i] >= 'a' && s[i] <= 'z')`
abbrev is_letter : ℕ → Bool
is_letter c = (leb b'A' c && leb c b'Z') || (leb b'a' c && leb c b'z')

-- `(c & 0xC0) == 0x80` of a byte
abbrev is_continuation : ℕ → Bool
is_continuation c = c / 64 == 2

-- The loop of `getVisibleLength`, by `in_escape`.
unfoldable pub visible_from : Bool → Text → ℕ
visible_from in_escape [] = 0
visible_from true (c ∷ cs) =
    let inside = visible_from true cs in
    let outside = visible_from false cs in
    if c == 27 then inside else if is_letter c then outside else inside
visible_from false (c ∷ cs) =
    let inside = visible_from true cs in
    let outside = visible_from false cs in
    if c == 27 then inside else if is_continuation c then outside else outside + 1

-- `getVisibleLength`
unfoldable pub visible_length : Text → ℕ
visible_length s = visible_from false s

-- `padString`
unfoldable pub pad_string : Text → ℕ → Text
pad_string s target_len =
    let len = visible_length s in
    if leb target_len len then s else s ++ replicate (target_len - len) b' '

-- Whether the text ends within an escape code.
unfoldable pub ends_inside : Bool → Text → Bool
ends_inside in_escape [] = in_escape
ends_inside true (c ∷ cs) =
    let inside = ends_inside true cs in
    let outside = ends_inside false cs in
    if c == 27 then inside else if is_letter c then outside else inside
ends_inside false (c ∷ cs) =
    let inside = ends_inside true cs in
    let outside = ends_inside false cs in if c == 27 then inside else outside

visible_from-replicate : (n : ℕ) → visible_from false (replicate n b' ') ≡ n
unfolding visible_from
visible_from-replicate zero = refl
visible_from-replicate (suc n) = ground (arith, visible_from-replicate n)

visible_from-append :
    (in_escape : Bool) (a b : Text)
    → visible_from in_escape (a ++ b)
      ≡ visible_from in_escape a + visible_from (ends_inside in_escape a) b
unfolding visible_from ends_inside
visible_from-append in_escape [] b = omega arith
visible_from-append true (c ∷ a) b =
    ground (arith, visible_from-append true a b, visible_from-append false a b)
visible_from-append false (c ∷ a) b =
    ground (arith, visible_from-append true a b, visible_from-append false a b)

-- A padded text fills the column: it is as long as the column, or as the text itself if that is longer. The text does not end within an
-- escape code.
pub visible_length-pad_string :
    (s : Text) (target_len : ℕ)
    → ends_inside false s ≡ false
    → visible_length (pad_string s target_len)
      ≡ (if leb target_len (visible_length s) then visible_length s else target_len)
unfolding pad_string
visible_length-pad_string s n h = elim (Bool-cases (leb n (visible_length s))) [
  | inl e ↦ rw e refl
  | inr e ↦ rw e (
      unfold visible_length in
      visible_from-append false s (replicate (n - visible_from false s) b' ')
      ∙ (rw (h, visible_from-replicate (n - visible_from false s)) (ground arith)))
]
