-- ===== src/Memory.antt =====
-- core/PlcMemory.hpp and core/PlcMemory.cpp: the register areas that every server, the scan cycle
-- and the mapping engine share, and their names in the MC and LS protocols. The locks are not
-- modelled: each operation is one step.
pub mod Areas
pub mod Access
pub mod Kept
pub mod Lens
pub mod Laws
pub mod Shape
pub mod Ranges
pub mod Values
pub mod Cells
pub mod CellInvariants
pub mod Address
pub mod AddressLaws
pub mod Load
pub mod Sync
pub mod Rules
pub mod Passes
pub mod Repeat
pub mod Lossy
use v_plc_runtime.Shared.{ℕ, Bool, false, Option, none, some, Text, codes, text_eq, if◌then◌else◌}
unfoldable pub use Areas.*
unfoldable pub use Access.*

-- The area names that `readMCBit` and `writeMCBit` compare with, in their order.
unfoldable pub mc_bit_area : Text → Option BitArea
mc_bit_area area =
    if text_eq area (codes "X")
    then some mc_x_area
    else if text_eq area (codes "Y")
    then some mc_y_area
    else if text_eq area (codes "M")
    then some mc_m_area
    else if text_eq area (codes "L")
    then some mc_l_area
    else if text_eq area (codes "B")
    then some mc_b_area
    else if text_eq area (codes "F")
    then some mc_f_area
    else if text_eq area (codes "SM")
    then some mc_sm_area
    else none

-- Those of `readMCWord` and `writeMCWord`.
unfoldable pub mc_word_area : Text → Option WordArea
mc_word_area area =
    if text_eq area (codes "D")
    then some mc_d_area
    else if text_eq area (codes "W")
    then some mc_w_area
    else if text_eq area (codes "R")
    then some mc_r_area
    else if text_eq area (codes "ZR")
    then some mc_zr_area
    else if text_eq area (codes "SD")
    then some mc_sd_area
    else none

-- Those of `readLSBit` and `writeLSBit`.
unfoldable pub ls_bit_area : Text → Option BitArea
ls_bit_area area =
    if text_eq area (codes "I")
    then some ls_i_area
    else if text_eq area (codes "Q")
    then some ls_q_area
    else if text_eq area (codes "M")
    then some ls_m_area
    else none

-- A read or write through a name: a name that stands for no area reads 0 and writes nothing.
unfoldable pub read_named_bit : PlcMemory → Option BitArea → ℕ → Bool
read_named_bit m none address = false
read_named_bit m (some a) address = read_bit m a address

unfoldable pub read_named_word : PlcMemory → Option WordArea → ℕ → ℕ
read_named_word m none address = 0
read_named_word m (some a) address = read_word m a address

unfoldable pub write_named_bit : PlcMemory → Option BitArea → ℕ → Bool → PlcMemory
write_named_bit m none address value = m
write_named_bit m (some a) address value = write_bit m a address value

unfoldable pub write_named_word : PlcMemory → Option WordArea → ℕ → ℕ → PlcMemory
write_named_word m none address value = m
write_named_word m (some a) address value = write_word m a address value

unfoldable pub read_mc_bit : PlcMemory → Text → ℕ → Bool
read_mc_bit m area address = read_named_bit m (mc_bit_area area) address

unfoldable pub write_mc_bit : PlcMemory → Text → ℕ → Bool → PlcMemory
write_mc_bit m area address value = write_named_bit m (mc_bit_area area) address value

unfoldable pub read_mc_word : PlcMemory → Text → ℕ → ℕ
read_mc_word m area address = read_named_word m (mc_word_area area) address

unfoldable pub write_mc_word : PlcMemory → Text → ℕ → ℕ → PlcMemory
write_mc_word m area address value = write_named_word m (mc_word_area area) address value

unfoldable pub read_ls_bit : PlcMemory → Text → ℕ → Bool
read_ls_bit m area address = read_named_bit m (ls_bit_area area) address

unfoldable pub write_ls_bit : PlcMemory → Text → ℕ → Bool → PlcMemory
write_ls_bit m area address value = write_named_bit m (ls_bit_area area) address value

unfoldable pub read_ls_word : PlcMemory → ℕ → ℕ
read_ls_word m address = read_word m ls_w_area address

unfoldable pub write_ls_word : PlcMemory → ℕ → ℕ → PlcMemory
write_ls_word m address value = write_word m ls_w_area address value
