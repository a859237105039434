-- ===== src/Logic/Tank.antt =====
-- logic/mock_logic.cpp: a water tank with two valves, filled and drained between two levels.
pub mod Cycles
use v_plc_runtime.Shared.{
  ℕ, ◌+◌, Bool, true, false, not, ◌&&◌, Option, none, some, List, [], ◌∷◌, if◌then◌else◌, u16,
  ◌>>=◌,
}
use v_plc_runtime.Logic.Double.{Double, dec, ◌⊕◌, ◌⊖◌, ◌≺◌, ◌≼◌, rounded, clamp}

-- The variables of the library; `filling` is `auto_state`, 1 for filling.
pub record TankState (F : Type 0) : Type 0 where
  pub ix0_0 : Bool
  pub ix0_1 : Bool
  pub ix0_2 : Bool
  pub qx0_0 : Bool
  pub qx0_1 : Bool
  pub qx0_2 : Bool
  pub iw0 : ℕ
  pub mw0 : ℕ
  pub mw1 : ℕ
  pub level_sim : F
  pub prev_inlet_valve : Bool
  pub filling : Bool

module _ {F : Type 0} ⦃d : Double F⦄ where
  -- `config_init__`
  unfoldable pub config_init : TankState F
  config_init = record {
    ix0_0 = false;
    ix0_1 = false;
    ix0_2 = false;
    qx0_0 = false;
    qx0_1 = false;
    qx0_2 = false;
    iw0 = 500;
    mw0 = 0;
    mw1 = 500;
    level_sim = dec 500 0;
    prev_inlet_valve = false;
    filling = false;
  }

  -- `change` of one scan.
  unfoldable pub level_change : TankState F → F
  level_change s =
      let leak = dec 0 0 ⊖ dec 2 2 in
      let inflow = if s.qx0_0 then leak ⊕ dec 4 1 else leak in
      if s.qx0_1 then inflow ⊖ dec 3 1 else inflow

  unfoldable pub next_level : TankState F → F
  next_level s = clamp (dec 0 0) (dec 1000 0) (s.level_sim ⊕ level_change s)

  -- The simulation: the level, its register, and the limit sensors.
  unfoldable pub simulate : TankState F → Option (TankState F)
  simulate s = do
    level ← rounded (next_level s)
    some (record s {
      level_sim = next_level s;
      iw0 = level;
      ix0_1 = next_level s ≼ dec 150 0;
      ix0_2 = dec 850 0 ≼ next_level s;
    })

  -- The control logic, by the mode.
  unfoldable pub control : TankState F → TankState F
  control s =
      if s.ix0_0
      then (let fill = if s.ix0_1 then true else if s.ix0_2 then false else s.filling in
          record s { filling = fill; qx0_0 = fill; qx0_1 = not fill })
      else record s { filling = s.qx0_0 }

  -- The edge detection and the run lamp.
  unfoldable pub count_edge : TankState F → TankState F
  count_edge s = record s {
    mw0 = if s.qx0_0 && not s.prev_inlet_valve then u16 (s.mw0 + 1) else s.mw0;
    prev_inlet_valve = s.qx0_0;
    qx0_2 = true;
  }

  -- `config_run__`; the tick is not used.
  unfoldable pub config_run : ℕ → TankState F → Option (TankState F)
  config_run tick s = do s' ← simulate s; some (count_edge (control s'))
