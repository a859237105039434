-- ===== src/Logic/Trim.antt =====
-- logic/trim_logic.cpp: the sequence that drives the trim line, and the scan.
pub mod Line
pub mod Quality
pub mod Scans
pub mod Diagram
pub mod Faults
pub mod Stations
use v_plc_runtime.Shared.{
  ℕ, ◌+◌, ◌%◌, Bool, true, false, not, ◌&&◌, Option, some, if◌then◌else◌, ◌>>=◌, ◌==◌, leb, u16,
}
use v_plc_runtime.Logic.Double.{Double, dec, ◌≼◌}
unfoldable pub use Line.*

module _ {F : Type 0} ⦃d : Double F⦄ where
  -- The cases of the sequence.
  unfoldable pub to_cockpit : TrimState F → TrimState F
  to_cockpit s =
      let off = record s {
        qx0_0 = true;
        qx0_1 = false;
        qx0_2 = false;
        qx0_3 = false;
        qx0_4 = false;
        qx0_5 = false;
      } in
      if s.ix0_1 then record off { qx0_0 = false; trim_sfc_state = 1 } else off

  unfoldable pub dock_cockpit : TrimState F → TrimState F
  dock_cockpit s =
      let on = record s { qx0_1 = true } in
      if dec 95 2 ≼ s.cockpit_dock_pos then record on { trim_sfc_state = 2 } else on

  unfoldable pub tighten_bolts : TrimState F → TrimState F
  tighten_bolts s =
      if leb s.mw3 s.iw1
      then record s { qx0_2 = false; qx0_1 = false; trim_sfc_state = 3 }
      else record s { qx0_2 = true }

  unfoldable pub to_glass : TrimState F → TrimState F
  to_glass s =
      if s.ix0_2
      then record s { qx0_0 = false; trim_sfc_state = 4 }
      else if s.mw4 == 1
      then record s { qx0_0 = true; trim_sfc_state = 5 }
      else record s { qx0_0 = true }

  unfoldable pub fit_glass : TrimState F → TrimState F
  fit_glass s =
      if s.ix0_6 && leb 148 s.iw2
      then record s { qx0_3 = false; trim_sfc_state = 5 }
      else record s { qx0_3 = true }

  unfoldable pub to_seat : TrimState F → TrimState F
  to_seat s =
      if s.ix0_3 then record s { qx0_0 = false; trim_sfc_state = 6 } else record s { qx0_0 = true }

  unfoldable pub insert_seat : TrimState F → TrimState F
  insert_seat s =
      if dec 95 2 ≼ s.seat_lifter_pos
      then record s { qx0_4 = false; trim_sfc_state = 7 }
      else record s { qx0_4 = true }

  -- `torque_pass` and `glass_pass`
  unfoldable pub torque_pass : TrimState F → Bool
  torque_pass s = leb 430 s.iw1 && leb s.iw1 470

  unfoldable pub glass_pass : TrimState F → Bool
  glass_pass s = if s.mw4 == 1 then true else leb 145 s.iw2 && (leb s.iw2 155 && not s.ix0_7)

  unfoldable pub inspect : TrimState F → TrimState F
  inspect s =
      if s.ix0_4
      then (let passed = torque_pass s && glass_pass s in
          record s {
            qx0_0 = false;
            mw0 = u16 (s.mw0 + 1);
            qx0_5 = passed;
            qx0_6 = not passed;
            mw1 = if passed then u16 (s.mw1 + 1) else s.mw1;
            mw2 = if passed then s.mw2 else u16 (s.mw2 + 1);
            trim_sfc_state = 8;
          })
      else record s { qx0_0 = true }

  unfoldable pub hold_result : ℕ → TrimState F → TrimState F
  hold_result tick s =
      if tick % 50 == 0
      then record s {
        qx0_5 = false;
        qx0_6 = false;
        conveyor_pos = dec 925 0;
        ix0_4 = false;
        trim_sfc_state = 0;
      }
      else s

  -- The switch; a state of no case leaves all as it is.
  unfoldable pub sequence : ℕ → TrimState F → TrimState F
  sequence tick s =
      if s.trim_sfc_state == 0
      then to_cockpit s
      else if s.trim_sfc_state == 1
      then dock_cockpit s
      else if s.trim_sfc_state == 2
      then tighten_bolts s
      else if s.trim_sfc_state == 3
      then to_glass s
      else if s.trim_sfc_state == 4
      then fit_glass s
      else if s.trim_sfc_state == 5
      then to_seat s
      else if s.trim_sfc_state == 6
      then insert_seat s
      else if s.trim_sfc_state == 7
      then inspect s
      else if s.trim_sfc_state == 8
      then hold_result tick s
      else s

  -- The control, by the mode.
  unfoldable pub control : ℕ → TrimState F → TrimState F
  control tick s = if s.ix0_0 then sequence tick s else record s { trim_sfc_state = 0 }

  -- `config_run__`
  unfoldable pub config_run : ℕ → TrimState F → Option (TrimState F)
  config_run tick s =
      if s.ix0_5
      then some (cut_outputs tick s)
      else do s' ← simulate tick (lamps tick s); some (control tick s')
