-- ===== src/Tests/Trim.antt =====
-- The theorems on the trim line, applied in millionths.
use v_plc_runtime.Shared.{
  ℕ, ◌≤◌, ◌≡◌, refl, true, false, Option, none, some, ◌==◌, ℤ, pos, negsuc, arith,
}
use v_plc_runtime.Logic.Double.{◌≼◌, ◌≺◌, ◌⊕◌, dec}
use v_plc_runtime.Logic.Trim.{
  TrimState, config_init, lamps, move_conveyor, moved, arrived, stop_at, behind_station_1,
  behind_station_2, behind_station_3, behind_station_4, jitter, report_position, travel, dock,
  next_torque, tighten, next_temp, heat, next_load, press, lift_seat, simulate, to_cockpit, inspect,
  torque_pass, glass_pass, sequence, control, config_run,
}
use v_plc_runtime.Logic.Trim.Scans.{Inputs, read_inputs, scan, start, next}
use v_plc_runtime.Logic.Trim.Diagram.{Edge, config_run-Edge}
use v_plc_runtime.Logic.Trim.Stations.{IsBefore, Reach-IsBefore}
use v_plc_runtime.Logic.Trim.Faults.{Overflows}
use v_plc_runtime.Tests.Micro.{micro}

abbrev automatic : Inputs
automatic = record {
  auto = true;
  curtain = false;
  glue_low = false;
  target = 450;
  bypass = 0;
  coils = λ n. false;
}

abbrev manual : Inputs
manual = record {
  auto = false;
  curtain = false;
  glue_low = false;
  target = 450;
  bypass = 0;
  coils = λ n. n == 3;
}

abbrev cold : TrimState ℤ
cold = config_init

abbrev kept : TrimState ℤ → Option (TrimState ℤ) → TrimState ℤ
kept s o = elim o [ none ↦ s | some t ↦ t ]

abbrev first : TrimState ℤ
first = kept cold (config_run 1 (read_inputs automatic cold))

run : config_run 1 (read_inputs automatic cold) ≡ some first
unfolding config_init config_run lamps move_conveyor moved arrived stop_at behind_station_1
    behind_station_2 behind_station_3 behind_station_4 report_position travel dock next_torque
    tighten next_temp heat next_load press lift_seat simulate to_cockpit sequence control
    read_inputs jitter
run = refl

-- A vehicle that comes to the inspection in this scan.
abbrev coming : TrimState ℤ
coming = record cold { qx0_0 = true; conveyor_pos = pos 897000000; trim_sfc_state = 7 }

abbrev judged : TrimState ℤ
judged = kept cold (config_run 1 coming)

judge : config_run 1 coming ≡ some judged
unfolding config_init config_run lamps move_conveyor moved arrived stop_at behind_station_1
    behind_station_2 behind_station_3 behind_station_4 report_position travel dock next_torque
    tighten next_temp heat next_load press lift_seat simulate inspect torque_pass glass_pass
    sequence control jitter
judge = refl

config_run-Edge_example : Edge true false 0 first.trim_sfc_state
unfolding config_init read_inputs
config_run-Edge_example = config_run-Edge 1 (read_inputs automatic cold) first run

-- A press at its limit, by hand.
abbrev pressed : TrimState ℤ
pressed = record (read_inputs manual cold) { glass_press_load = pos 150000000 }

overflows : (base : ℕ) → Overflows ℤ base
overflows base n h k = ground arith

-- The laws of the order and of the movement, of millionths.
reach : (x : ℤ) → (x ≼ dec 200 0) ≡ true → (x ⊕ dec 30 1 ≺ dec 210 0) ≡ true
reach (pos a) h = ground arith
reach (negsuc a) h = ground arith

under : (x : ℤ) → (x ≼ dec 200 0) ≡ true → (x ≺ dec 210 0) ≡ true
under (pos a) h = ground arith
under (negsuc a) h = refl

below : (x : ℤ) (n : ℕ) → 210 ≤ n → (x ≺ dec 210 0) ≡ true → (dec n 0 ≼ x) ≡ false
below (pos a) n k h = ground arith
below (negsuc a) n k h = refl

before : (x : ℤ) → (x ≺ dec 210 0) ≡ true → (dec 200 0 ≼ x) ≡ false → (x ≼ dec 200 0) ≡ true
before (pos a) h k = ground arith
before (negsuc a) h k = refl

Reach-IsBefore_example : IsBefore first
Reach-IsBefore_example =
    Reach-IsBefore reach under below before refl refl (next start (scan automatic 1 run))
