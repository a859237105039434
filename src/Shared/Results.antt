-- ===== src/Shared/Results.antt =====
-- Total correctness of a step that may fault: it has a result, and the result satisfies `P`.
use Prim.Native.Nat.{ℕ, zero, suc, ◌<◌}
use mathlib.Core.Path.{◌≡◌}
use mathlib.Core.Bool.{Bool, true, false}
use mathlib.Core.List.{List, [], ◌∷◌}
use mathlib.Core.Option.{Option, none, some}
use native.Mathlib.Omega.{arith}
use v_plc_runtime.Shared.Lists.{length, get_elem?, get_or, get_elem?-eq-get_or, All-get_or}
use v_plc_runtime.Shared.Tests.{if◌then◌else◌}
use v_plc_runtime.Shared.Words.{◌>>=◌, IsByte, IsBytes}
use v_plc_runtime.Shared.Lists.{All}

abbrev pub Yields {ℓ} : {A : Type ℓ} → (A → Type 0) → Option A → Type 0
Yields P none = ⊥
Yields P (some a) = P a

-- A read in range yields the element.
pub get_elem?-Yields {ℓ} :
    {A : Type ℓ} (P : A → Type 0) (l : List A) (i : ℕ) (d : A)
    → i < length l
    → P (get_or l i d)
    → Yields P (get_elem? l i)
get_elem?-Yields P l i d h p = rw (get_elem?-eq-get_or l i d h) p

pub Yields-bind {ℓ κ} :
    {A : Type ℓ} {B : Type κ} (P : A → Type 0) (Q : B → Type 0) (o : Option A) (f : A → Option B)
    → Yields P o
    → ((a : A) → P a → Yields Q (f a))
    → Yields Q (o >>= f)
Yields-bind P Q none f h k = absurd h
Yields-bind P Q (some a) f h k = k a h

pub Yields-mono {ℓ} :
    {A : Type ℓ} (P : A → Type 0) (Q : A → Type 0) (o : Option A)
    → ((a : A) → P a → Q a)
    → Yields P o
    → Yields Q o
Yields-mono P Q none f h = absurd h
Yields-mono P Q (some a) f h = f a h

-- Over a small range, a test is checked at every value.
unfoldable pub passes_all : (ℕ → Bool) → ℕ → Bool
passes_all test zero = true
passes_all test (suc last) =
    let before = passes_all test last in if test last then before else false

pub passes_all_sound :
    (test : ℕ → Bool) (size i : ℕ) → i < size → passes_all test size ≡ true → test i ≡ true
unfolding passes_all
passes_all_sound test zero i inside ok = absurd (omega arith)
passes_all_sound test (suc last) i inside ok = ground (arith, passes_all_sound test last i)

-- A byte read in range.
pub Yields-byte {ℓ} :
    {B : Type ℓ} (Q : B → Type 0) (l : List ℕ) (i : ℕ) (f : ℕ → Option B)
    → IsBytes l
    → i < length l
    → ((x : ℕ) → IsByte x → Yields Q (f x))
    → Yields Q (get_elem? l i >>= f)
Yields-byte Q l i f b h k =
    Yields-bind IsByte Q (get_elem? l i) f
      (get_elem?-Yields IsByte l i 0 h (All-get_or IsByte l i 0 b (omega arith))) k

-- Partial correctness: where the step has a result, it satisfies `P`.
abbrev pub Allows {ℓ} : {A : Type ℓ} → (A → Type 0) → Option A → Type 0
Allows P none = Unit
Allows P (some a) = P a

pub Allows-of-Yields {ℓ} :
    {A : Type ℓ} (P Q : A → Type 0) (o : Option A) → ((a : A) → P a → Q a) → Yields P o → Allows Q o
Allows-of-Yields P Q none f h = absurd h
Allows-of-Yields P Q (some a) f h = f a h

pub Allows-bind {ℓ κ} :
    {A : Type ℓ} {B : Type κ} (P : A → Type 0) (Q : B → Type 0) (o : Option A) (f : A → Option B)
    → Allows P o
    → ((a : A) → P a → Allows Q (f a))
    → Allows Q (o >>= f)
Allows-bind P Q none f h k = tt
Allows-bind P Q (some a) f h k = k a h

pub Allows-mono {ℓ} :
    {A : Type ℓ} (P Q : A → Type 0) (o : Option A) → ((a : A) → P a → Q a) → Allows P o → Allows Q o
Allows-mono P Q none f h = tt
Allows-mono P Q (some a) f h = f a h

-- Nothing is known of the result of the first step.
pub Allows-any {ℓ κ} :
    {A : Type ℓ} {B : Type κ} (Q : B → Type 0) (o : Option A) (f : A → Option B)
    → ((a : A) → Allows Q (f a))
    → Allows Q (o >>= f)
Allows-any Q none f k = tt
Allows-any Q (some a) f k = k a

pub get_elem?-Allows {ℓ} :
    {A : Type ℓ} (P : A → Type 0) (l : List A) (i : ℕ) → All P l → Allows P (get_elem? l i)
get_elem?-Allows P [] i h = tt
get_elem?-Allows P (x ∷ xs) zero h = h.0
get_elem?-Allows P (x ∷ xs) (suc i) h = get_elem?-Allows P xs i h.1
