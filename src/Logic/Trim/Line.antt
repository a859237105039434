-- ===== src/Logic/Trim/Line.antt =====
-- logic/trim_logic.cpp: the variables of a trim line of four stations, their initial values, and the
-- simulation of the line in a scan.
use v_plc_runtime.Shared.{
  ℕ, ◌+◌, ◌-◌, ◌%◌, ◌^◌, Bool, true, false, not, ◌&&◌, Option, some, if◌then◌else◌, ◌==◌, leb, ltb,
  ◌>>=◌,
}
use v_plc_runtime.Logic.Double.{Double, dec, of_nat, ◌⊕◌, ◌⊖◌, ◌≺◌, ◌≼◌, rounded, clamp}

pub record TrimState (F : Type 0) : Type 0 where
  pub ix0_0 : Bool
  pub ix0_1 : Bool
  pub ix0_2 : Bool
  pub ix0_3 : Bool
  pub ix0_4 : Bool
  pub ix0_5 : Bool
  pub ix0_6 : Bool
  pub ix0_7 : Bool
  pub qx0_0 : Bool
  pub qx0_1 : Bool
  pub qx0_2 : Bool
  pub qx0_3 : Bool
  pub qx0_4 : Bool
  pub qx0_5 : Bool
  pub qx0_6 : Bool
  pub qx0_7 : Bool
  pub iw0 : ℕ
  pub iw1 : ℕ
  pub iw2 : ℕ
  pub iw3 : ℕ
  pub mw0 : ℕ
  pub mw1 : ℕ
  pub mw2 : ℕ
  pub mw3 : ℕ
  pub mw4 : ℕ
  pub conveyor_pos : F
  pub cockpit_dock_pos : F
  pub bolt_torque : F
  pub glass_glue_disp : F
  pub glass_press_load : F
  pub seat_lifter_pos : F
  pub glue_temp : F
  pub trim_sfc_state : ℕ
  pub yellow_flash : Bool
  pub prev_conveyor_run : Bool

-- `tick % n - k` on `unsigned long`: below zero it wraps.
unfoldable pub jitter : ℕ → ℕ → ℕ → ℕ
jitter tick n k = (tick % n + 2 ^ 64 - k) % 2 ^ 64

module _ {F : Type 0} ⦃d : Double F⦄ where
  -- `config_init__`
  unfoldable pub config_init : TrimState F
  config_init = record {
    ix0_0 = true;
    ix0_1 = false;
    ix0_2 = false;
    ix0_3 = false;
    ix0_4 = false;
    ix0_5 = false;
    ix0_6 = false;
    ix0_7 = false;
    qx0_0 = false;
    qx0_1 = false;
    qx0_2 = false;
    qx0_3 = false;
    qx0_4 = false;
    qx0_5 = false;
    qx0_6 = false;
    qx0_7 = false;
    iw0 = 0;
    iw1 = 0;
    iw2 = 0;
    iw3 = 20;
    mw0 = 0;
    mw1 = 0;
    mw2 = 0;
    mw3 = 450;
    mw4 = 0;
    conveyor_pos = dec 0 0;
    cockpit_dock_pos = dec 0 0;
    bolt_torque = dec 0 0;
    glass_glue_disp = dec 0 0;
    glass_press_load = dec 0 0;
    seat_lifter_pos = dec 0 0;
    glue_temp = dec 20 0;
    trim_sfc_state = 0;
    yellow_flash = false;
    prev_conveyor_run = false;
  }

  -- The emergency stop, which ends the scan.
  unfoldable pub cut_outputs : ℕ → TrimState F → TrimState F
  cut_outputs tick s = record s {
    qx0_0 = false;
    qx0_1 = false;
    qx0_2 = false;
    qx0_3 = false;
    qx0_4 = false;
    qx0_5 = false;
    qx0_6 = ltb (tick % 10) 5;
    qx0_7 = false;
  }

  -- The lamps where there is no emergency stop.
  unfoldable pub lamps : ℕ → TrimState F → TrimState F
  lamps tick s =
      let flash = if tick % 25 == 0 then not s.yellow_flash else s.yellow_flash in
      record s {
        qx0_6 = if s.trim_sfc_state == 7 then s.qx0_6 else false;
        yellow_flash = flash;
        qx0_7 = flash;
      }

  -- A station: from `at` to ten millimetres behind it.
  unfoldable pub arrived : F → F → F → Bool
  arrived at behind pos = at ≼ pos && pos ≺ behind

  -- The positions after each check of the conveyor's movement.
  unfoldable pub moved : TrimState F → F
  moved s = let pos = s.conveyor_pos ⊕ dec 30 1 in if dec 1000 0 ≼ pos then dec 0 0 else pos

  unfoldable pub stop_at : F → F → F → F
  stop_at at behind pos = if arrived at behind pos then at else pos

  unfoldable pub behind_station_1 : TrimState F → F
  behind_station_1 s = stop_at (dec 200 0) (dec 210 0) (moved s)

  unfoldable pub behind_station_2 : TrimState F → F
  behind_station_2 s =
      if s.mw4 == 1
      then behind_station_1 s
      else stop_at (dec 450 0) (dec 460 0) (behind_station_1 s)

  unfoldable pub behind_station_3 : TrimState F → F
  behind_station_3 s = stop_at (dec 700 0) (dec 710 0) (behind_station_2 s)

  unfoldable pub behind_station_4 : TrimState F → F
  behind_station_4 s = stop_at (dec 900 0) (dec 910 0) (behind_station_3 s)

  -- 1) The conveyor
  unfoldable pub move_conveyor : TrimState F → TrimState F
  move_conveyor s =
      if s.qx0_0
      then record s {
        conveyor_pos = behind_station_4 s;
        ix0_1 = arrived (dec 200 0) (dec 210 0) (moved s);
        ix0_2 = not (s.mw4 == 1) && arrived (dec 450 0) (dec 460 0) (behind_station_1 s);
        ix0_3 = arrived (dec 700 0) (dec 710 0) (behind_station_2 s);
        ix0_4 = arrived (dec 900 0) (dec 910 0) (behind_station_3 s);
      }
      else s

  unfoldable pub report_position : TrimState F → Option (TrimState F)
  report_position s = do pos ← rounded s.conveyor_pos; some (record s { iw0 = pos })

  -- A cylinder that moves by `by` under its coil and back without it.
  unfoldable pub travel : Bool → F → F → F
  travel coil by pos = clamp (dec 0 0) (dec 1 0) (if coil then pos ⊕ by else pos ⊖ by)

  -- 2) The docking cylinder
  unfoldable pub dock : TrimState F → TrimState F
  dock s = record s { cockpit_dock_pos = travel s.qx0_1 (dec 5 2) s.cockpit_dock_pos }

  -- 3) The torque of the nutrunner
  unfoldable pub next_torque : ℕ → TrimState F → F
  next_torque tick s =
      let raised = s.bolt_torque ⊕ dec 225 1 in
      if s.qx0_2 && dec 95 2 ≼ s.cockpit_dock_pos
      then (if dec 452 0 ≺ raised then dec 450 0 ⊕ of_nat (jitter tick 5 2) else raised)
      else dec 0 0

  unfoldable pub tighten : ℕ → TrimState F → Option (TrimState F)
  tighten tick s = do
    torque ← rounded (next_torque tick s)
    some (record s { bolt_torque = next_torque tick s; iw1 = torque })

  -- 4) The heater
  unfoldable pub next_temp : TrimState F → F
  next_temp s = if s.glue_temp ≺ dec 40 0 then s.glue_temp ⊕ dec 15 2 else s.glue_temp ⊖ dec 5 2

  unfoldable pub heat : TrimState F → Option (TrimState F)
  heat s = do temp ← rounded (next_temp s); some (record s { glue_temp = next_temp s; iw3 = temp })

  -- 5) The press
  unfoldable pub next_load : ℕ → TrimState F → F
  next_load tick s =
      let raised = s.glass_press_load ⊕ dec 100 1 in
      if s.qx0_3
      then (if dec 152 0 ≺ raised then dec 150 0 ⊕ of_nat (jitter tick 3 1) else raised)
      else dec 0 0

  unfoldable pub press : ℕ → TrimState F → Option (TrimState F)
  press tick s = do
    load ← rounded (next_load tick s)
    some (record s {
      glass_press_load = next_load tick s;
      iw2 = load;
      ix0_6 = if s.qx0_3 then (if dec 145 0 ≼ next_load tick s then true else s.ix0_6) else false;
      ix0_7 = if s.qx0_3 && tick % 100 == 0 then leb 800 (tick % 1000) else s.ix0_7;
    })

  -- 6) The seat lifter
  unfoldable pub lift_seat : TrimState F → TrimState F
  lift_seat s = record s { seat_lifter_pos = travel s.qx0_4 (dec 33 3) s.seat_lifter_pos }

  -- The simulation, in its order.
  unfoldable pub simulate : ℕ → TrimState F → Option (TrimState F)
  simulate tick s = do
    s1 ← report_position (move_conveyor s)
    s2 ← tighten tick (dock s1)
    s3 ← heat s2
    s4 ← press tick s3
    some (lift_seat s4)
