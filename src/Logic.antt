-- ===== src/Logic.antt =====
-- The simulated logic libraries of logic/, each a machine and its control program. `config_run__`
-- is a function from a state to the next, or to `none` where it converts a `double` out of the range
-- of `uint16_t`, which C++ leaves undefined. A `uint8_t` flag, which the code only tests against zero
-- and sets to 0 or 1, is a `Bool`.
pub mod Double
pub mod Tank
pub mod Trim
pub mod Assembly
