-- ===== src/Memory/Address.antt =====
-- `parseAddress` of core/PlcMemory.cpp. `none` is an exception, of the function itself or of
-- `std::stoi`.

use v_plc_runtime.Shared.{
  ℕ, Bool, true, false, ◌||◌, List, [], ◌∷◌, Option, none, some, if◌then◌else◌, Text, codes,
  text_eq, getline_parts, stoi, int_u16, ◌>>=◌,
}
use v_plc_runtime.Memory.{MemoryRef}

-- `static_cast<uint16_t>(std::stoi(part))`
unfoldable pub index_of : Text → Option ℕ
index_of part = do n ← stoi part; some (int_u16 n)

-- A reference with its index still to be read.
unfoldable pub make_ref : Text → Text → Bool → Option ℕ → Option MemoryRef
make_ref protocol area is_bit none = none
make_ref protocol area is_bit (some n) =
    some (record { protocol = protocol; area = area; index = n; is_bit = is_bit })

-- An area that the protocol does not have: the initial index 0 and `is_bit`.
unfoldable pub unknown_area : Text → Text → Option MemoryRef
unfolding make_ref
unknown_area protocol area = make_ref protocol area true (some 0)

unfoldable pub parse_modbus : Text → Text → Text → Option MemoryRef
parse_modbus protocol area third =
    if text_eq area (codes "COIL") || text_eq area (codes "C")
    then make_ref protocol (codes "COIL") true (index_of third)
    else if text_eq area (codes "DISCRETE_INPUT")
        || (text_eq area (codes "DI") || text_eq area (codes "I"))
    then make_ref protocol (codes "DI") true (index_of third)
    else if text_eq area (codes "INPUT_REGISTER") || text_eq area (codes "IR")
    then make_ref protocol (codes "IR") false (index_of third)
    else if text_eq area (codes "HOLDING_REGISTER") || text_eq area (codes "HR")
    then make_ref protocol (codes "HR") false (index_of third)
    else unknown_area protocol area

-- The index of a word area: the fourth part of four if the third is "W", else the third.
unfoldable pub word_index : Text → List Text → Option ℕ
word_index third (fourth ∷ []) =
    if text_eq third (codes "W") then index_of fourth else index_of third
word_index third _ = index_of third

unfoldable pub parse_s7 : Text → Text → Text → List Text → Option MemoryRef
parse_s7 protocol area third rest =
    if text_eq area (codes "PE")
    then make_ref protocol area true (index_of third)
    else if text_eq area (codes "PA")
    then make_ref protocol area true (index_of third)
    else if text_eq area (codes "DB1") || text_eq area (codes "DB2")
    then make_ref protocol area false (word_index third rest)
    else unknown_area protocol area

unfoldable pub is_mc_bit_name : Text → Bool
is_mc_bit_name area =
    text_eq area (codes "X")
    || (text_eq area (codes "Y")
        || (text_eq area (codes "M")
            || (text_eq area (codes "L")
                || (text_eq area (codes "B")
                    || (text_eq area (codes "F") || text_eq area (codes "SM"))))))

unfoldable pub is_mc_word_name : Text → Bool
is_mc_word_name area =
    text_eq area (codes "D")
    || (text_eq area (codes "W")
        || (text_eq area (codes "R") || (text_eq area (codes "ZR") || text_eq area (codes "SD"))))

unfoldable pub parse_mc : Text → Text → Text → List Text → Option MemoryRef
parse_mc protocol area third rest =
    if is_mc_bit_name area
    then make_ref protocol area true (index_of third)
    else if is_mc_word_name area
    then make_ref protocol area false (word_index third rest)
    else unknown_area protocol area

unfoldable pub parse_ls : Text → Text → Text → Option MemoryRef
parse_ls protocol area third =
    if text_eq area (codes "I") || (text_eq area (codes "Q") || text_eq area (codes "M"))
    then make_ref protocol area true (index_of third)
    else if text_eq area (codes "W")
    then make_ref protocol area false (index_of third)
    else unknown_area protocol area

-- The choice by protocol, once at least three parts are there.
unfoldable pub parse_parts : Text → Text → Text → List Text → Option MemoryRef
parse_parts protocol area third rest =
    if text_eq protocol (codes "MODBUS")
    then parse_modbus protocol area third
    else if text_eq protocol (codes "S7")
    then parse_s7 protocol area third rest
    else if text_eq protocol (codes "MC")
    then parse_mc protocol area third rest
    else if text_eq protocol (codes "LS")
    then parse_ls protocol area third
    else unknown_area protocol area

unfoldable pub from_parts : List Text → Option MemoryRef
from_parts (protocol ∷ area ∷ third ∷ rest) = parse_parts protocol area third rest
from_parts _ = none

unfoldable pub parse_address : Text → Option MemoryRef
parse_address addr_str = from_parts (getline_parts b'.' addr_str)
