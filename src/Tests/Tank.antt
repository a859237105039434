-- ===== src/Tests/Tank.antt =====
-- The theorems on the tank, applied in millionths.
use v_plc_runtime.Shared.{
  ◌+◌, ◌≡◌, refl, true, false, not, Option, none, some, [], ◌∷◌, u16, ℤ, arith,
}
use v_plc_runtime.Logic.Double.{◌≼◌, dec}
use v_plc_runtime.Logic.Tank.{
  TankState, config_init, level_change, next_level, simulate, control, count_edge, config_run,
}
use v_plc_runtime.Logic.Tank.Cycles.{
  Inputs, rising_edges, read_inputs, Trace, done, scan, Trace-hysteresis, Trace-count,
}
use v_plc_runtime.Tests.Micro.{micro}

-- The inlet is opened by hand, then closed, then opened again.
abbrev opened : Inputs
opened = record { auto = false; inlet = true; outlet = false }

abbrev closed : Inputs
closed = record { auto = false; inlet = false; outlet = true }

abbrev automatic : Inputs
automatic = record { auto = true; inlet = false; outlet = false }

abbrev cold : TankState ℤ
cold = config_init

abbrev after : Inputs → TankState ℤ → Option (TankState ℤ)
after i s = config_run 1 (read_inputs i s)

-- The state after a scan that has one.
abbrev kept : TankState ℤ → Option (TankState ℤ) → TankState ℤ
kept s o = elim o [ none ↦ s | some t ↦ t ]

abbrev first : TankState ℤ
first = kept cold (after opened cold)

abbrev second : TankState ℤ
second = kept cold (after closed first)

abbrev third : TankState ℤ
third = kept cold (after opened second)

abbrev fourth : TankState ℤ
fourth = kept cold (after automatic third)

runs :
    (after opened cold ≡ some first)
    × (after closed first ≡ some second)
    × (after opened second ≡ some third)
    × (after automatic third ≡ some fourth)
unfolding config_init level_change next_level simulate control count_edge config_run read_inputs
runs = (refl, refl, refl, refl)

trace : Trace cold (first ∷ second ∷ third ∷ []) third
trace = scan opened 1 runs.0 (scan closed 1 runs.1 (scan opened 1 runs.2 done))

Trace-count_example :
    third.mw0 ≡ u16 (cold.mw0 + rising_edges cold.prev_inlet_valve (true ∷ false ∷ true ∷ []))
unfolding config_init level_change next_level simulate control count_edge config_run read_inputs
Trace-count_example = Trace-count (ground arith) trace

Trace-hysteresis_example :
    (third.qx0_0 ≡ false → fourth.qx0_0 ≡ true → (fourth.level_sim ≼ dec 150 0) ≡ true)
    × (third.qx0_0 ≡ true → fourth.qx0_0 ≡ false → (dec 850 0 ≼ fourth.level_sim) ≡ true)
    × (fourth.qx0_1 ≡ not fourth.qx0_0)
Trace-hysteresis_example = Trace-hysteresis automatic 1 trace refl runs.3
