-- ===== src/Logic/Assembly.antt =====
-- logic/assembly_logic.cpp: a conveyor with one station, where an arm puts a part on a chassis.
pub mod Scans
pub mod Interlock
pub mod Resume
use v_plc_runtime.Shared.{
  ℕ, ◌+◌, ◌%◌, Bool, true, false, not, ◌&&◌, ◌||◌, Option, none, some, if◌then◌else◌, ◌==◌, u16,
  ◌>>=◌,
}
use v_plc_runtime.Logic.Double.{Double, dec, of_nat, ◌⊕◌, ◌⊖◌, ◌⊗◌, ◌≺◌, ◌≼◌, rounded, clamp}

pub record AssemblyState (F : Type 0) : Type 0 where
  pub ix0_0 : Bool
  pub ix0_1 : Bool
  pub ix0_2 : Bool
  pub ix0_3 : Bool
  pub ix0_4 : Bool
  pub ix0_5 : Bool
  pub ix0_6 : Bool
  pub ix0_7 : Bool
  pub qx0_0 : Bool
  pub qx0_1 : Bool
  pub qx0_2 : Bool
  pub qx0_3 : Bool
  pub qx0_4 : Bool
  pub qx0_5 : Bool
  pub qx0_6 : Bool
  pub iw0 : ℕ
  pub mw0 : ℕ
  pub mw1 : ℕ
  pub mw2 : ℕ
  pub mw3 : ℕ
  pub conveyor_pos_sim : F
  pub lift_pos_sim : F
  pub rotate_pos_sim : F
  pub clamp_pos_sim : F
  pub sfc_state : ℕ
  pub alarm_flash : Bool

module _ {F : Type 0} ⦃d : Double F⦄ where
  -- `config_init__`
  unfoldable pub config_init : AssemblyState F
  config_init = record {
    ix0_0 = true;
    ix0_1 = false;
    ix0_2 = true;
    ix0_3 = true;
    ix0_4 = false;
    ix0_5 = false;
    ix0_6 = false;
    ix0_7 = false;
    qx0_0 = false;
    qx0_1 = false;
    qx0_2 = false;
    qx0_3 = false;
    qx0_4 = false;
    qx0_5 = false;
    qx0_6 = false;
    iw0 = 0;
    mw0 = 0;
    mw1 = 200;
    mw2 = 0;
    mw3 = 0;
    conveyor_pos_sim = dec 0 0;
    lift_pos_sim = dec 0 0;
    rotate_pos_sim = dec 0 0;
    clamp_pos_sim = dec 0 0;
    sfc_state = 0;
    alarm_flash = false;
  }

  -- The light curtain: `e_stop` is `ix0_7`, which nothing below changes.
  unfoldable pub guard_outputs : ℕ → AssemblyState F → AssemblyState F
  guard_outputs tick s =
      if s.ix0_7
      then (let flash = if tick % 10 == 0 then not s.alarm_flash else s.alarm_flash in
          record s {
            qx0_0 = false;
            qx0_1 = false;
            qx0_3 = false;
            qx0_4 = false;
            qx0_5 = false;
            alarm_flash = flash;
            qx0_6 = flash;
          })
      else record s { qx0_5 = true; qx0_6 = false }

  -- The position after a scan of movement, and whether it has stopped at the station.
  unfoldable pub moved : AssemblyState F → F
  moved s = s.conveyor_pos_sim ⊕ of_nat s.mw1 ⊗ dec 2 2

  unfoldable pub at_station : AssemblyState F → Bool
  at_station s = dec 500 0 ≼ moved s && moved s ≺ dec 520 0

  unfoldable pub stopped : AssemblyState F → F
  stopped s = if at_station s then dec 500 0 else moved s

  -- The conveyor
  unfoldable pub move_conveyor : AssemblyState F → AssemblyState F
  move_conveyor s =
      if s.qx0_0 && not s.ix0_7
      then record s {
        ix0_1 = at_station s;
        conveyor_pos_sim = if dec 1000 0 ≼ stopped s then dec 0 0 else stopped s;
        mw0 = if dec 1000 0 ≼ stopped s then u16 (s.mw0 + 1) else s.mw0;
      }
      else s

  unfoldable pub report_position : AssemblyState F → Option (AssemblyState F)
  report_position s = do pos ← rounded s.conveyor_pos_sim; some (record s { iw0 = pos })

  -- A cylinder that moves by `by` where it is driven and back where it is not.
  unfoldable pub travel : Bool → F → F → F
  travel driven by pos = clamp (dec 0 0) (dec 1 0) (if driven then pos ⊕ by else pos ⊖ by)

  unfoldable pub next_lift : AssemblyState F → F
  next_lift s = travel (s.qx0_1 && not s.ix0_7) (dec 4 2) s.lift_pos_sim

  unfoldable pub next_rotate : AssemblyState F → F
  next_rotate s = travel (s.qx0_3 && not s.ix0_7) (dec 33 3) s.rotate_pos_sim

  unfoldable pub next_clamp : AssemblyState F → F
  next_clamp s = travel s.qx0_2 (dec 1 1) s.clamp_pos_sim

  unfoldable pub is_home : AssemblyState F → Bool
  is_home s = next_lift s ≼ dec 5 2 && next_rotate s ≼ dec 5 2

  -- The three cylinders, their sensors, and the part at the pick station.
  unfoldable pub move_arm : AssemblyState F → AssemblyState F
  move_arm s = record s {
    lift_pos_sim = next_lift s;
    ix0_6 = dec 95 2 ≼ next_lift s;
    rotate_pos_sim = next_rotate s;
    ix0_5 = dec 95 2 ≼ next_rotate s;
    clamp_pos_sim = next_clamp s;
    ix0_4 = dec 95 2 ≼ next_clamp s;
    ix0_3 = is_home s;
    ix0_2 = if (is_home s && not s.qx0_2) || s.mw3 == 1 then true else s.ix0_2;
  }

  -- The cases of the sequence.
  unfoldable pub wait_chassis : AssemblyState F → AssemblyState F
  wait_chassis s =
      let off = record s {
        qx0_0 = false;
        qx0_1 = false;
        qx0_2 = false;
        qx0_3 = false;
        qx0_4 = false;
        ix0_1 = false;
      } in
      if s.mw2 == 1
      then record off { mw2 = 0; conveyor_pos_sim = dec 0 0; qx0_0 = true; sfc_state = 8 }
      else off

  unfoldable pub convey : AssemblyState F → AssemblyState F
  convey s =
      if dec 500 0 ≼ s.conveyor_pos_sim
      then record s {
        conveyor_pos_sim = dec 500 0;
        ix0_1 = true;
        qx0_0 = false;
        sfc_state = if s.ix0_2 then 1 else s.sfc_state;
      }
      else record s { qx0_0 = true }

  unfoldable pub lower_to_pick : AssemblyState F → AssemblyState F
  lower_to_pick s = record s { qx0_1 = true; sfc_state = if s.ix0_6 then 2 else s.sfc_state }

  unfoldable pub clamp_part : AssemblyState F → AssemblyState F
  clamp_part s =
      let on = record s { qx0_2 = true } in
      if s.ix0_4 then record on { ix0_2 = false; sfc_state = 3 } else on

  unfoldable pub lift_part : AssemblyState F → AssemblyState F
  lift_part s = record s {
    qx0_1 = false;
    sfc_state = if s.lift_pos_sim ≼ dec 5 2 then 4 else s.sfc_state;
  }

  unfoldable pub rotate_arm : AssemblyState F → AssemblyState F
  rotate_arm s = record s { qx0_3 = true; sfc_state = if s.ix0_5 then 5 else s.sfc_state }

  unfoldable pub lower_to_place : AssemblyState F → AssemblyState F
  lower_to_place s = record s { qx0_1 = true; sfc_state = if s.ix0_6 then 6 else s.sfc_state }

  unfoldable pub release_part : AssemblyState F → AssemblyState F
  release_part s =
      let off = record s { qx0_2 = false } in
      if s.clamp_pos_sim ≼ dec 5 2 then record off { qx0_4 = true; sfc_state = 7 } else off

  unfoldable pub return_home : AssemblyState F → AssemblyState F
  return_home s =
      let off = record s { qx0_1 = false; qx0_3 = false } in
      if s.ix0_3
      then record off { qx0_4 = false; conveyor_pos_sim = dec 525 0; ix0_1 = false; sfc_state = 0 }
      else off

  -- The switch; a state of no case leaves all as it is.
  unfoldable pub sequence : AssemblyState F → AssemblyState F
  sequence s =
      if s.sfc_state == 0
      then wait_chassis s
      else if s.sfc_state == 8
      then convey s
      else if s.sfc_state == 1
      then lower_to_pick s
      else if s.sfc_state == 2
      then clamp_part s
      else if s.sfc_state == 3
      then lift_part s
      else if s.sfc_state == 4
      then rotate_arm s
      else if s.sfc_state == 5
      then lower_to_place s
      else if s.sfc_state == 6
      then release_part s
      else if s.sfc_state == 7
      then return_home s
      else s

  unfoldable pub control : AssemblyState F → AssemblyState F
  control s =
      if s.ix0_0 && not s.ix0_7
      then sequence s
      else if not s.ix0_0
      then record s { sfc_state = 0 }
      else s

  -- `config_run__`
  unfoldable pub config_run : ℕ → AssemblyState F → Option (AssemblyState F)
  config_run tick s = do
    s' ← report_position (move_conveyor (guard_outputs tick s))
    some (control (move_arm s'))
