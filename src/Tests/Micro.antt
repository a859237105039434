-- ===== src/Tests/Micro.antt =====
-- Millionths as a concrete type for `double`.
use v_plc_runtime.Shared.{
  ℕ, ◌+◌, ◌-◌, ◌*◌, ◌/◌, ◌^◌, Bool, true, false, Option, some, none, ltb, not, if◌then◌else◌, ℤ,
  pos, negsuc,
}
use v_plc_runtime.Logic.Double.{Double}

abbrev difference : ℕ → ℕ → ℤ
difference a b = if ltb a b then negsuc (b - a - 1) else pos (a - b)

abbrev add : ℤ → ℤ → ℤ
add (pos a) (pos b) = pos (a + b)
add (pos a) (negsuc b) = difference a (b + 1)
add (negsuc a) (pos b) = difference b (a + 1)
add (negsuc a) (negsuc b) = negsuc (a + b + 1)

abbrev negate : ℤ → ℤ
negate (pos a) = difference 0 a
negate (negsuc a) = pos (a + 1)

abbrev mul : ℤ → ℤ → ℤ
mul (pos a) (pos b) = pos (a * b / 1000000)
mul (pos a) (negsuc b) = difference 0 (a * (b + 1) / 1000000)
mul (negsuc a) (pos b) = difference 0 ((a + 1) * b / 1000000)
mul (negsuc a) (negsuc b) = pos ((a + 1) * (b + 1) / 1000000)

abbrev div : ℤ → ℤ → ℤ
div (pos a) (pos b) = pos (a * 1000000 / b)
div (pos a) (negsuc b) = difference 0 (a * 1000000 / (b + 1))
div (negsuc a) (pos b) = difference 0 ((a + 1) * 1000000 / b)
div (negsuc a) (negsuc b) = pos ((a + 1) * 1000000 / (b + 1))

abbrev abs : ℤ → ℤ
abs (pos a) = pos a
abs (negsuc a) = pos (a + 1)

abbrev less : ℤ → ℤ → Bool
less (pos a) (pos b) = ltb a b
less (pos a) (negsuc b) = false
less (negsuc a) (pos b) = true
less (negsuc a) (negsuc b) = ltb b a

abbrev to_u16 : ℤ → Option ℕ
to_u16 (pos a) = if ltb (a / 1000000) 65536 then some (a / 1000000) else none
to_u16 (negsuc a) = if ltb (a + 1) 1000000 then some 0 else none

instance abbrev pub micro : Double ℤ
micro = record {
  dec = λ m e. pos (m * 10 ^ (6 - e));
  of_nat = λ n. pos (n * 1000000);
  add = add;
  sub = λ a b. add a (negate b);
  mul = mul;
  div = div;
  abs = abs;
  less = less;
  less_or_equal = λ a b. not (less b a);
  to_u16 = to_u16;
}
