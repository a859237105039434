-- ===== src/Tests/Assembly.antt =====
-- The theorems on the assembly line, applied in millionths.
use v_plc_runtime.Shared.{◌≤◌, ◌≡◌, refl, Bool, true, false, Option, none, some, ℤ, pos, arith}
use v_plc_runtime.Logic.Assembly.{
  AssemblyState, config_init, guard_outputs, moved, at_station, stopped, move_conveyor,
  report_position, travel, next_lift, next_rotate, next_clamp, is_home, move_arm, wait_chassis,
  lower_to_place, sequence, control, config_run,
}
use v_plc_runtime.Logic.Assembly.Scans.{Inputs, read_inputs, scan, start, next}
use v_plc_runtime.Logic.Assembly.Interlock.{IsInterlocked, Reach-IsInterlocked}
use v_plc_runtime.Logic.Assembly.Resume.{IsUnturned, auto_scan, stay, resume, Resumed-IsUnturned}
use v_plc_runtime.Tests.Micro.{micro}

abbrev automatic : Bool → Inputs
automatic crossed = record {
  auto = true;
  curtain = crossed;
  speed = 200;
  chassis = 0;
  part = 0;
  coils = λ n. false;
}

abbrev cold : AssemblyState ℤ
cold = config_init

abbrev kept : AssemblyState ℤ → Option (AssemblyState ℤ) → AssemblyState ℤ
kept s o = elim o [ none ↦ s | some t ↦ t ]

abbrev after : Bool → AssemblyState ℤ → Option (AssemblyState ℤ)
after crossed s = config_run 1 (read_inputs (automatic crossed) s)

abbrev first : AssemblyState ℤ
first = kept cold (after false cold)

-- The arm turned to the chassis, with the part in the clamp.
abbrev turned : AssemblyState ℤ
turned = record cold {
  qx0_2 = true;
  qx0_3 = true;
  rotate_pos_sim = pos 1000000;
  clamp_pos_sim = pos 1000000;
  sfc_state = 5;
}

abbrev crossed : AssemblyState ℤ
crossed = kept cold (after true turned)

abbrev resumed : AssemblyState ℤ
resumed = kept cold (after false crossed)

runs :
    (after false cold ≡ some first)
    × (after true turned ≡ some crossed)
    × (after false crossed ≡ some resumed)
unfolding config_init guard_outputs moved at_station stopped move_conveyor report_position travel
    next_lift next_rotate next_clamp is_home move_arm wait_chassis lower_to_place sequence control
    config_run read_inputs
runs = (refl, refl, refl)

Reach-IsInterlocked_example : IsInterlocked first
Reach-IsInterlocked_example = Reach-IsInterlocked (next start (scan (automatic false) 1 runs.0))

placing : (5 ≤ crossed.sfc_state) × (crossed.sfc_state ≤ 6)
unfolding config_init guard_outputs moved at_station stopped move_conveyor report_position travel
    next_lift next_rotate next_clamp is_home move_arm sequence control config_run read_inputs
placing = (ground arith, ground arith)

Resumed-IsUnturned_example : IsUnturned resumed
Resumed-IsUnturned_example =
    Resumed-IsUnturned (automatic true) 1 turned refl refl (ground arith, ground arith) runs.1
      (resume stay placing (auto_scan (automatic false) 1 refl runs.2))
