-- ===== src/Tests/Scheduler.antt =====
-- The theorems on the scheduler, applied in millionths.
use v_plc_runtime.Shared.{ℕ, ◌≡◌, refl, true, false, List, [], ◌∷◌, ℤ, pos, negsuc, arith}
use v_plc_runtime.Memory.{discrete_inputs_area, read_bit}
use v_plc_runtime.Loader.{VarBinding, coil, is_control}
use v_plc_runtime.Logic.Double.{◌≺◌}
use v_plc_runtime.Scheduler.{Cycle, LoopState, scan_time, turns, boot}
use v_plc_runtime.Scheduler.Statistics.{max_scan_time_bounds}
use v_plc_runtime.Scheduler.Deadlines.{met, stopped, next_wakeup_on_time}
use v_plc_runtime.Scheduler.Controls.{turns_controls}
use v_plc_runtime.Tests.{tiny}
use v_plc_runtime.Tests.Micro.{micro}

-- Cycles of 20 ms, the second of which computes for 5 ms and the others for one.
abbrev first : Cycle
first = record { start = 0; finish = 1000000; now = 1100000 }

abbrev second : Cycle
second = record { start = 20000000; finish = 25000000; now = 25100000 }

abbrev third : Cycle
third = record { start = 40000000; finish = 41000000; now = 41100000 }

-- A coil that the logic sets at each tick.
abbrev variables : List VarBinding
variables = record { type = coil; plc_address = 0; value = 0; name = [] } ∷ []

abbrev set_all : ℕ → List VarBinding → List VarBinding
set_all tick [] = []
set_all tick (b ∷ bs) = record b { value = 1 } ∷ set_all tick bs

abbrev same : List VarBinding → List VarBinding
same bs = bs

abbrev looped : LoopState ℤ
looped =
    turns (pos 20000000) 20000000 same set_all (first ∷ second ∷ third ∷ [])
      (boot (pos 20000000) 20000000 same set_all tiny variables 0)

less_irreflexive : (x : ℤ) → (x ≺ x) ≡ false
less_irreflexive (pos a) = ground arith
less_irreflexive (negsuc a) = ground arith

less_transitive : (x y z : ℤ) → (x ≺ y) ≡ true → (y ≺ z) ≡ true → (x ≺ z) ≡ true
less_transitive (pos a) (pos b) (pos c) h k = ground arith
less_transitive (pos a) (pos b) (negsuc c) h k = absurd (ground arith)
less_transitive (pos a) (negsuc b) z h k = absurd (ground arith)
less_transitive (negsuc a) (pos b) (pos c) h k = refl
less_transitive (negsuc a) (pos b) (negsuc c) h k = absurd (ground arith)
less_transitive (negsuc a) (negsuc b) (pos c) h k = refl
less_transitive (negsuc a) (negsuc b) (negsuc c) h k = ground arith

max_scan_time_bounds_example : (looped.stats.max_scan_time_ms ≺ scan_time second) ≡ false
max_scan_time_bounds_example =
    max_scan_time_bounds (pos 20000000) 20000000 same set_all less_irreflexive less_transitive tiny
      variables 0 (first ∷ []) (third ∷ []) second (ground arith)

next_wakeup_on_time_example : looped.next_wakeup ≡ 60000000
next_wakeup_on_time_example =
    next_wakeup_on_time (pos 20000000) 20000000 same set_all tiny variables 0
      (first ∷ second ∷ third ∷ [])
      (met (ground arith) (met (ground arith) (met (ground arith) stopped)))

turns_controls_example :
    read_bit looped.memory discrete_inputs_area 0 ≡ read_bit tiny discrete_inputs_area 0
unfolding is_control
turns_controls_example =
    turns_controls (pos 20000000) 20000000 same set_all tiny variables 0
      (first ∷ second ∷ third ∷ []) 0 refl refl
