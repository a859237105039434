-- ===== src/Logic/Double.antt =====
-- `double`: a type and the operations that the logics use. No law is part of it; a theorem that needs
-- one has it as a hypothesis.
use v_plc_runtime.Shared.{ℕ, Bool, Option, if◌then◌else◌}

pub record Double (F : Type 0) : Type 0 where
  -- `dec 95 2` is the literal 0.95.
  pub dec : ℕ → ℕ → F
  pub of_nat : ℕ → F
  pub add : F → F → F
  pub sub : F → F → F
  pub mul : F → F → F
  pub div : F → F → F
  -- `std::abs`
  pub abs : F → F
  pub less : F → F → Bool
  pub less_or_equal : F → F → Bool
  -- `static_cast<uint16_t>`
  pub to_u16 : F → Option ℕ

module _ {F : Type 0} ⦃d : Double F⦄ where
  infixl 65 ◌⊕◌ ◌⊖◌
  infixl 70 ◌⊗◌
  infix 50 ◌≺◌ ◌≼◌
  abbrev pub dec : ℕ → ℕ → F
  dec = d.dec

  abbrev pub of_nat : ℕ → F
  of_nat = d.of_nat

  abbrev pub ◌⊕◌ : F → F → F
  a ⊕ b = d.add a b

  abbrev pub ◌⊖◌ : F → F → F
  a ⊖ b = d.sub a b

  abbrev pub ◌⊗◌ : F → F → F
  a ⊗ b = d.mul a b

  -- `a < b` and `a <= b`
  abbrev pub ◌≺◌ : F → F → Bool
  a ≺ b = d.less a b

  abbrev pub ◌≼◌ : F → F → Bool
  a ≼ b = d.less_or_equal a b

  -- `static_cast<uint16_t>(x + 0.5)`
  abbrev pub rounded : F → Option ℕ
  rounded x = d.to_u16 (x ⊕ dec 5 1)

  -- `if (x < lo) x = lo; if (x > hi) x = hi;`
  abbrev pub clamp : F → F → F → F
  clamp lo hi x = let y = if x ≺ lo then lo else x in if hi ≺ y then hi else y
