-- ===== src/Shared/Words.antt =====
-- Bytes and 16-bit words: the casts, shifts and the two byte orders that the servers use.
use Prim.Native.Nat.{ℕ, ◌/◌, ◌%◌, ◌^◌, ◌<◌}
use mathlib.Core.Bool.{Bool, true, false}
use mathlib.Core.List.{List}
use mathlib.Core.Option.{Option, none, some}
use v_plc_runtime.Shared.Lists.{All}

-- `static_cast<uint8_t>` and `static_cast<uint16_t>`.
abbrev pub u8 : ℕ → ℕ
u8 n = n % 2 ^ 8

abbrev pub u16 : ℕ → ℕ
u16 n = n % 2 ^ 16

-- `(v >> 8) & 0xFF` and `v & 0xFF`.
abbrev pub high_byte : ℕ → ℕ
high_byte v = v / 2 ^ 8 % 2 ^ 8

abbrev pub low_byte : ℕ → ℕ
low_byte v = v % 2 ^ 8

abbrev pub IsByte : ℕ → Type 0
IsByte b = b < 2 ^ 8

abbrev pub IsWord : ℕ → Type 0
IsWord v = v < 2 ^ 16

-- A vector of bytes.
abbrev pub IsBytes : List ℕ → Type 0
IsBytes = All IsByte

abbrev pub of_bool : Bool → ℕ
of_bool true = 1
of_bool false = 0

-- A step that may read a vector out of range, which C++ leaves undefined: `none`.
infixl 5 ◌>>=◌
abbrev pub ◌>>=◌ {ℓ κ} : {A : Type ℓ} {B : Type κ} → Option A → (A → Option B) → Option B
none >>= k = none
some x >>= k = k x
