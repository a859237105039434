-- ===== src/Logic/Tank/Cycles.antt =====
-- The tank over its scans, with what the loader copies to it before each. The counter keeps its value
-- between two scans: no client writes it.
use v_plc_runtime.Shared.{
  ℕ, suc, ◌+◌, ◌^◌, ◌<◌, ◌≡◌, refl, ◌∙◌, Bool, true, false, not, ◌&&◌, some, List, [], ◌∷◌, map,
  if◌then◌else◌, u16, arith,
}
use v_plc_runtime.Logic.Double.{Double, dec, ◌≼◌}
use v_plc_runtime.Logic.Tank.{TankState, config_init, simulate, control, count_edge, config_run}

-- What a scan reads from outside: the mode, and in manual mode the two valves.
pub record Inputs : Type 0 where
  pub auto : Bool
  pub inlet : Bool
  pub outlet : Bool

-- The reference for the counter: how often a signal rises.
unfoldable pub rising_edges : Bool → List Bool → ℕ
rising_edges before [] = 0
rising_edges before (now ∷ later) =
    let rest = rising_edges now later in if now && not before then suc rest else rest

edge_added :
    (edge : Bool) (m n r : ℕ)
    → n ≡ (if edge then u16 (m + 1) else m)
    → u16 (n + r) ≡ u16 (m + (if edge then suc r else r))
edge_added edge m n r h = ground arith

module _ {F : Type 0} ⦃d : Double F⦄ where
  unfoldable pub read_inputs : Inputs → TankState F → TankState F
  read_inputs i s = record s {
    ix0_0 = i.auto;
    qx0_0 = if i.auto then s.qx0_0 else i.inlet;
    qx0_1 = if i.auto then s.qx0_1 else i.outlet;
  }

  -- Scans in a row: the states after each.
  pub data Trace : TankState F → List (TankState F) → TankState F → Type 0 where
    done : {s : TankState F} → Trace s [] s
    scan :
        {s t u : TankState F} {states : List (TankState F)} (i : Inputs) (tick : ℕ)
        → config_run tick (read_inputs i s) ≡ some t
        → Trace t states u
        → Trace s (t ∷ states) u

  -- What a scan leaves behind: both memories of the inlet valve agree with it, and the outlet valve is its
  -- opposite in automatic mode.
  pub record IsSettled (s : TankState F) : Type 0 where
    pub filling : s.filling ≡ s.qx0_0
    pub before : s.prev_inlet_valve ≡ s.qx0_0
    pub opposite : s.ix0_0 ≡ true → s.qx0_1 ≡ not s.qx0_0

  config_run-IsSettled : (tick : ℕ) (s t : TankState F) → config_run tick s ≡ some t → IsSettled t
  unfolding config_run simulate control count_edge
  config_run-IsSettled tick s t h = ground arith

  -- The counter and its memory after a scan.
  config_run_counter :
      (tick : ℕ) (s t : TankState F)
      → config_run tick s ≡ some t
      → (t.mw0 ≡ (if t.qx0_0 && not s.prev_inlet_valve then u16 (s.mw0 + 1) else s.mw0))
        × (t.prev_inlet_valve ≡ t.qx0_0)
  unfolding config_run simulate control count_edge
  config_run_counter tick s t h = ground arith

  -- In automatic mode the inlet opens only at the low limit and closes only at the high limit.
  config_run_valve :
      (tick : ℕ) (s t : TankState F)
      → config_run tick s ≡ some t
      → s.ix0_0 ≡ true
      → (s.filling ≡ false → t.qx0_0 ≡ true → t.level_sim ≼ dec 150 0 ≡ true)
        × (s.filling ≡ true → t.qx0_0 ≡ false → dec 850 0 ≼ t.level_sim ≡ true)
        × (t.qx0_1 ≡ not t.qx0_0)
  unfolding config_run simulate control count_edge
  config_run_valve tick s t h auto = ground arith

  Trace-IsSettled :
      {s u : TankState F} {states : List (TankState F)}
      → Trace s states u
      → IsSettled s
      → IsSettled u
  Trace-IsSettled done h = h
  Trace-IsSettled (scan {s} {t} i tick run rest) h =
      Trace-IsSettled rest (config_run-IsSettled tick (read_inputs i s) t run)

  -- After scans from the start of any inputs, a scan in automatic mode opens the inlet only where the level is at most
  -- 150, closes it only where the level is at least 850, and sets the outlet valve to its opposite.
  pub Trace-hysteresis :
      {s t : TankState F} {states : List (TankState F)} (i : Inputs) (tick : ℕ)
      → Trace config_init states s
      → i.auto ≡ true
      → config_run tick (read_inputs i s) ≡ some t
      → (s.qx0_0 ≡ false → t.qx0_0 ≡ true → (t.level_sim ≼ dec 150 0) ≡ true)
        × (s.qx0_0 ≡ true → t.qx0_0 ≡ false → (dec 850 0 ≼ t.level_sim) ≡ true)
        × (t.qx0_1 ≡ not t.qx0_0)
  unfolding config_init read_inputs
  Trace-hysteresis {s} {t} i tick before auto run =
      let k : IsSettled s =
        Trace-IsSettled before
          (record { filling = refl; before = refl; opposite = λ e. absurd (ground arith) }) in
      let (opens, closes, opposite) = config_run_valve tick (read_inputs i s) t run auto in
      (λ e. opens (k.filling ∙ e), λ e. closes (k.filling ∙ e), opposite)

  -- From a state whose counter is below 2 ^ 16, after scans with any inputs and ticks, the counter is, modulo 2 ^ 16, what it was
  -- plus the number of times that the inlet valve rose, seen from its remembered value over the states after each scan.
  pub Trace-count :
      {s u : TankState F} {states : List (TankState F)}
      → s.mw0 < 2 ^ 16
      → Trace s states u
      → u.mw0 ≡ u16 (s.mw0 + rising_edges s.prev_inlet_valve (map (λ t. t.qx0_0) states))
  unfolding read_inputs rising_edges
  Trace-count h done = ground arith
  Trace-count h (scan {s} {t} i tick run rest) =
      let (count, memory) = config_run_counter tick (read_inputs i s) t run in
      let small : t.mw0 < 2 ^ 16 = ground arith in
      let later = Trace-count small rest in
      later ∙ rw memory (edge_added (t.qx0_0 && not s.prev_inlet_valve) s.mw0 t.mw0 _ count)
