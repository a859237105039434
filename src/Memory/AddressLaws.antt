-- ===== src/Memory/AddressLaws.antt =====
-- What a parsed address is like.
use v_plc_runtime.Shared.{
  ℕ, ◌<◌, ◌^◌, ◌≡◌, refl, Bool, true, false, not, List, [], ◌∷◌, Option, none, some, arith, Text,
  codes, text_eq, getline_parts,
}
use v_plc_runtime.Memory.{
  MemoryRef, BitArea, WordArea, mc_bit_area, mc_word_area, ls_bit_area, ls_w_area,
}
use v_plc_runtime.Memory.Address.{
  index_of, make_ref, unknown_area, parse_modbus, word_index, parse_s7, parse_mc, parse_ls,
  parse_parts, from_parts, parse_address,
}
use v_plc_runtime.Memory.Cells.{
  Cell, bit_cell, word_cell, cell_of, modbus_cell, s7_cell, mc_cell, ls_cell, some_bit, some_word,
}

-- The flag says what kind of cell there is.
unfoldable pub agrees : Option Cell → Bool → Bool
agrees none is_bit = true
agrees (some (bit_cell a i)) is_bit = is_bit
agrees (some (word_cell a i)) is_bit = not is_bit

-- The index fits, and `is_bit` says which kind of cell the reference stands for, if any.
pub record IsConsistent (ref : MemoryRef) : Type 0 where
  pub index_fits : ref.index < 2 ^ 16
  pub kind : agrees (cell_of ref) ref.is_bit ≡ true

index_of-lt : (part : Text) (n : ℕ) → index_of part ≡ some n → n < 2 ^ 16
unfolding index_of
index_of-lt part n h = ground arith

word_index-lt :
    (third : Text) (rest : List Text) (n : ℕ) → word_index third rest ≡ some n → n < 2 ^ 16
unfolding word_index
word_index-lt third [] n h = index_of-lt third n h
word_index-lt third (fourth ∷ []) n h = ground (arith, index_of-lt third n, index_of-lt fourth n)
word_index-lt third (fourth ∷ other ∷ rest) n h = index_of-lt third n h

-- A reference that `make_ref` returns.
record IsMade (protocol area : Text) (is_bit : Bool) (o : Option ℕ) (ref : MemoryRef) : Type 0 where
  same_protocol : ref.protocol ≡ protocol
  same_area : ref.area ≡ area
  same_kind : ref.is_bit ≡ is_bit
  same_index : o ≡ some ref.index

make_ref-IsMade :
    (protocol area : Text) (is_bit : Bool) (o : Option ℕ) (ref : MemoryRef)
    → make_ref protocol area is_bit o ≡ some ref
    → IsMade protocol area is_bit o ref
unfolding make_ref
make_ref-IsMade protocol area is_bit none ref h = cc
make_ref-IsMade protocol area is_bit (some n) ref h = record {
  same_protocol = ground arith;
  same_area = ground arith;
  same_kind = ground arith;
  same_index = ground arith;
}

agrees-none : (b : Bool) → agrees none b ≡ true
unfolding agrees
agrees-none b = refl

agrees_word : (a : WordArea) (i : ℕ) → agrees (some (word_cell a i)) false ≡ true
unfolding agrees
agrees_word a i = refl

agrees-some_bit : (o : Option BitArea) (i : ℕ) → agrees (some_bit o i) true ≡ true
unfolding agrees some_bit
agrees-some_bit none i = refl
agrees-some_bit (some a) i = refl

agrees-some_word : (o : Option WordArea) (i : ℕ) → agrees (some_word o i) false ≡ true
unfolding agrees some_word
agrees-some_word none i = refl
agrees-some_word (some a) i = refl

module _ (protocol area third : Text) (ref : MemoryRef) where
  modbus_agrees :
      parse_modbus protocol area third ≡ some ref
      → (ref.protocol ≡ protocol)
        × (ref.index < 2 ^ 16)
        × (agrees (modbus_cell ref) ref.is_bit ≡ true)
  unfolding parse_modbus unknown_area modbus_cell agrees text_eq
  modbus_agrees h = ground (
    arith,
    make_ref-IsMade protocol (codes "COIL") true (index_of third) ref,
    make_ref-IsMade protocol (codes "DI") true (index_of third) ref,
    make_ref-IsMade protocol (codes "IR") false (index_of third) ref,
    make_ref-IsMade protocol (codes "HR") false (index_of third) ref,
    make_ref-IsMade protocol area true (some 0) ref,
    index_of-lt third ref.index,
  )

  s7_agrees :
      (rest : List Text)
      → parse_s7 protocol area third rest ≡ some ref
      → (ref.protocol ≡ protocol) × (ref.index < 2 ^ 16) × (agrees (s7_cell ref) ref.is_bit ≡ true)
  unfolding parse_s7 unknown_area s7_cell agrees
  s7_agrees rest h = ground (
    arith,
    make_ref-IsMade protocol area true (index_of third) ref,
    make_ref-IsMade protocol area false (word_index third rest) ref,
    make_ref-IsMade protocol area true (some 0) ref,
    index_of-lt third ref.index,
    word_index-lt third rest ref.index,
  )

  mc_agrees :
      (rest : List Text)
      → parse_mc protocol area third rest ≡ some ref
      → (ref.protocol ≡ protocol) × (ref.index < 2 ^ 16) × (agrees (mc_cell ref) ref.is_bit ≡ true)
  unfolding parse_mc unknown_area mc_cell
  mc_agrees rest h = ground (
    arith,
    make_ref-IsMade protocol area true (index_of third) ref,
    make_ref-IsMade protocol area false (word_index third rest) ref,
    make_ref-IsMade protocol area true (some 0) ref,
    index_of-lt third ref.index,
    word_index-lt third rest ref.index,
    agrees-some_bit (mc_bit_area ref.area) ref.index,
    agrees-some_word (mc_word_area ref.area) ref.index,
  )

  ls_agrees :
      parse_ls protocol area third ≡ some ref
      → (ref.protocol ≡ protocol) × (ref.index < 2 ^ 16) × (agrees (ls_cell ref) ref.is_bit ≡ true)
  unfolding parse_ls unknown_area ls_cell
  ls_agrees h = ground (
    arith,
    make_ref-IsMade protocol area true (index_of third) ref,
    make_ref-IsMade protocol area false (index_of third) ref,
    make_ref-IsMade protocol area true (some 0) ref,
    index_of-lt third ref.index,
    agrees-some_bit (ls_bit_area ref.area) ref.index,
    agrees_word ls_w_area ref.index,
  )

  parse_parts-IsConsistent :
      (rest : List Text) → parse_parts protocol area third rest ≡ some ref → IsConsistent ref
  unfolding parse_parts cell_of unknown_area
  parse_parts-IsConsistent rest h = ground (
    arith,
    modbus_agrees,
    s7_agrees rest,
    mc_agrees rest,
    ls_agrees,
    make_ref-IsMade protocol area true (some 0) ref,
    agrees-none ref.is_bit,
  )

from_parts-IsConsistent :
    (parts : List Text) (ref : MemoryRef) → from_parts parts ≡ some ref → IsConsistent ref
unfolding from_parts
from_parts-IsConsistent [] ref h = cc
from_parts-IsConsistent (a ∷ []) ref h = cc
from_parts-IsConsistent (a ∷ b ∷ []) ref h = cc
from_parts-IsConsistent (protocol ∷ area ∷ third ∷ rest) ref h =
    parse_parts-IsConsistent protocol area third ref rest h

-- Every address that parses has an index of 16 bits, and its flag says whether it names a bit or a
-- word, if it names a cell at all.
pub parse_address-IsConsistent :
    (s : Text) (ref : MemoryRef) → parse_address s ≡ some ref → IsConsistent ref
unfolding parse_address
parse_address-IsConsistent s ref h = from_parts-IsConsistent (getline_parts b'.' s) ref h
