-- ===== src/Mqtt/Payload.antt =====
-- A reader of the payloads gets the registers back.
use native.Mathlib.Nat.{pow-suc}
use v_plc_runtime.Shared.{
  ℕ, zero, suc, ◌+◌, ◌-◌, ◌*◌, ◌^◌, ◌/◌, ◌%◌, ◌<◌, ◌≡◌, refl, ◌∙◌, ap, Bool, true, false, ◌&&◌, leb,
  ltb, if◌then◌else◌, [], ◌∷◌, ◌++◌, Text, codes, Option, none, some, length, drop, either_branch,
  arith,
}
use v_plc_runtime.Memory.{PlcMemory, input_registers_area, holding_registers_area, read_word}
use v_plc_runtime.Memory.Shape.{IsValid, read_word-lt}
use v_plc_runtime.Loader.{digits}
use v_plc_runtime.Tui.{starts_with, contains}
use v_plc_runtime.Mqtt.{Message, three_numbers, assembly_message, tank_message, message}

abbrev is_digit : ℕ → Bool
is_digit c = leb b'0' c && leb c b'9'

-- The decimal number at the head of a text.
unfoldable pub leading_number : ℕ → Text → ℕ
leading_number value [] = value
leading_number value (c ∷ cs) =
    let rest = leading_number (value * 10 + (c - b'0')) cs in if is_digit c then rest else value

-- The number behind the first place where the quoted name stands.
unfoldable pub field : Text → Text → Option ℕ
field name [] = none
field name (c ∷ cs) =
    let rest = field name cs in
    if starts_with name (c ∷ cs)
    then some (leading_number 0 (drop (length name) (c ∷ cs)))
    else rest

all_digits : Text → Bool
all_digits [] = true
all_digits (c ∷ cs) = is_digit c && all_digits cs

-- The value of a text of digits.
value : ℕ → Text → ℕ
value acc [] = acc
value acc (c ∷ cs) = value (acc * 10 + (c - b'0')) cs

all_digits-append : (a b : Text) → all_digits (a ++ b) ≡ (all_digits a && all_digits b)
unfolding all_digits
all_digits-append [] b = refl
all_digits-append (c ∷ a) b = ground (arith, all_digits-append a b)

value-append : (acc : ℕ) (a b : Text) → value acc (a ++ b) ≡ value (value acc a) b
unfolding value
value-append acc [] b = refl
value-append acc (c ∷ a) b = value-append (acc * 10 + (c - b'0')) a b

all_digits-digits : (fuel n : ℕ) → all_digits (digits fuel n) ≡ true
unfolding digits all_digits
all_digits-digits zero n = refl
all_digits-digits (suc fuel) n =
    either_branch (λ t. all_digits t ≡ true) (ltb n 10) _ _ (λ e. ground arith)
      (λ e.
        all_digits-append (digits fuel (n / 10)) ((b'0' + n % 10) ∷ [])
        ∙ ground (arith, all_digits-digits fuel (n / 10)))

value-digits : (fuel n : ℕ) → n < 10 ^ fuel → value 0 (digits fuel n) ≡ n
unfolding digits value
value-digits zero n h = omega arith
value-digits (suc fuel) n h =
    either_branch (λ t. value 0 t ≡ n) (ltb n 10) _ _ (λ e. ground arith)
      (λ e.
        value-append 0 (digits fuel (n / 10)) ((b'0' + n % 10) ∷ [])
        ∙ ground (arith, value-digits fuel (n / 10), pow-suc 10 fuel))

-- Digits are read to the first byte that is none.
leading_number-append :
    (acc : ℕ) (a : Text) (c : ℕ) (rest : Text)
    → all_digits a ≡ true
    → is_digit c ≡ false
    → leading_number acc (a ++ (c ∷ rest)) ≡ value acc a
unfolding leading_number all_digits value
leading_number-append acc [] c rest h e = ground arith
leading_number-append acc (x ∷ a) c rest h e =
    ground (arith, leading_number-append (acc * 10 + (x - b'0')) a c rest)

leading_number-digits :
    (n c : ℕ) (rest : Text)
    → n < 2 ^ 16
    → is_digit c ≡ false
    → leading_number 0 (digits 5 n ++ (c ∷ rest)) ≡ n
leading_number-digits n c rest h e =
    leading_number-append 0 (digits 5 n) c rest (all_digits-digits 5 n) e
    ∙ value-digits 5 n (omega arith)

-- A name that begins with no digit does not stand in digits.
field-append :
    (q : ℕ) (name a rest : Text)
    → is_digit q ≡ false
    → all_digits a ≡ true
    → field (q ∷ name) (a ++ rest) ≡ field (q ∷ name) rest
unfolding field starts_with all_digits
field-append q name [] rest e h = refl
field-append q name (x ∷ a) rest e h = ground (arith, field-append q name a rest)

-- Behind digits, a name is found where it stands behind them.
module _ (name : Text) (n : ℕ) (rest : Text) where
  field-digits : field (b'"' ∷ name) (digits 5 n ++ rest) ≡ field (b'"' ∷ name) rest
  field-digits = field-append b'"' name (digits 5 n) rest refl (all_digits-digits 5 n)

some_number :
    (n c : ℕ) (rest : Text)
    → n < 2 ^ 16
    → is_digit c ≡ false
    → some (leading_number 0 (digits 5 n ++ (c ∷ rest))) ≡ some n
some_number n c rest h e = ap some (leading_number-digits n c rest h e)

-- The message names its topic, and its fields are the registers of that logic.
pub data Reports (m : PlcMemory) (lib_path : Text) (out : Message) : Type 0 where
  of_assembly :
      contains (codes "assembly") lib_path ≡ true
      → out.topic ≡ codes "vplc/assembly/state"
      → field (codes "\"completed_cars\":") out.payload
        ≡ some (read_word m holding_registers_area 0)
      → field (codes "\"conveyor_speed\":") out.payload
        ≡ some (read_word m holding_registers_area 1)
      → field (codes "\"encoder_position\":") out.payload
        ≡ some (read_word m input_registers_area 0)
      → Reports m lib_path out
  of_tank :
      contains (codes "assembly") lib_path ≡ false
      → out.topic ≡ codes "vplc/tank/state"
      → field (codes "\"water_level\":") out.payload ≡ some (read_word m input_registers_area 0)
      → field (codes "\"set_point\":") out.payload ≡ some (read_word m holding_registers_area 1)
      → field (codes "\"pump_starts\":") out.payload ≡ some (read_word m holding_registers_area 0)
      → Reports m lib_path out

module _ (m : PlcMemory) (v : IsValid m) (lib_path : Text) where
  register-lt : (i : ℕ) → read_word m holding_registers_area i < 2 ^ 16
  register-lt i = read_word-lt m holding_registers_area i v

  input-lt : (i : ℕ) → read_word m input_registers_area i < 2 ^ 16
  input-lt i = read_word-lt m input_registers_area i v

  tank_message-Reports :
      contains (codes "assembly") lib_path ≡ false → Reports m lib_path (tank_message m)
  unfolding tank_message three_numbers field starts_with
  tank_message-Reports e =
      let end2 : Text =
        codes "\"pump_starts\":"
        ++ (digits 5 (read_word m holding_registers_area 0) ++ codes "}") in
      let end1 : Text =
        codes "\"set_point\":"
        ++ (digits 5 (read_word m holding_registers_area 1) ++ (b',' ∷ end2)) in
      of_tank e refl (some_number (read_word m input_registers_area 0) b',' end1 (input-lt 0) refl)
        (field-digits (codes "set_point\":") (read_word m input_registers_area 0) (b',' ∷ end1)
          ∙ some_number (read_word m holding_registers_area 1) b',' end2 (register-lt 1) refl)
        (field-digits (codes "pump_starts\":") (read_word m input_registers_area 0) (b',' ∷ end1)
          ∙ (field-digits (codes "pump_starts\":") (read_word m holding_registers_area 1)
                (b',' ∷ end2)
              ∙ some_number (read_word m holding_registers_area 0) b'}' [] (register-lt 0) refl))

  assembly_message-Reports :
      contains (codes "assembly") lib_path ≡ true → Reports m lib_path (assembly_message m)
  unfolding assembly_message three_numbers field starts_with
  assembly_message-Reports e =
      let end2 : Text =
        codes "\"encoder_position\":"
        ++ (digits 5 (read_word m input_registers_area 0) ++ codes "}") in
      let end1 : Text =
        codes "\"conveyor_speed\":"
        ++ (digits 5 (read_word m holding_registers_area 1) ++ (b',' ∷ end2)) in
      of_assembly e refl
        (some_number (read_word m holding_registers_area 0) b',' end1 (register-lt 0) refl)
        (field-digits (codes "conveyor_speed\":") (read_word m holding_registers_area 0)
            (b',' ∷ end1)
          ∙ some_number (read_word m holding_registers_area 1) b',' end2 (register-lt 1) refl)
        (field-digits (codes "encoder_position\":") (read_word m holding_registers_area 0)
            (b',' ∷ end1)
          ∙ (field-digits (codes "encoder_position\":") (read_word m holding_registers_area 1)
                (b',' ∷ end2)
              ∙ some_number (read_word m input_registers_area 0) b'}' [] (input-lt 0) refl))

  -- A reader that looks for a quoted name and the number behind it gets from the payload the registers that the message is about: the
  -- assembly line's where the path of the library contains its name, otherwise the tank's. The memory's words are 16-bit values.
  pub message-Reports : Reports m lib_path (message lib_path m)
  unfolding message
  message-Reports =
      either_branch (Reports m lib_path) (contains (codes "assembly") lib_path) _ _
        assembly_message-Reports tank_message-Reports
