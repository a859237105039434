-- ===== src/Logic/Assembly/Scans.antt =====
-- The assembly line over its scans, with what the loader copies to it before each, and what the
-- simulation of a scan leaves alone. The register that the line counts in keeps its value between
-- two scans: no client writes it.
use v_plc_runtime.Shared.{ℕ, ◌≡◌, Bool, false, some, if◌then◌else◌, inl, inr, Option-cases, arith}
use v_plc_runtime.Logic.Double.{Double}
use v_plc_runtime.Logic.Assembly.{
  AssemblyState, config_init, guard_outputs, move_conveyor, report_position, move_arm, control,
  config_run,
}

-- What a scan reads from outside: the mode, the light curtain, three registers, and the coils of manual
-- mode.
pub record Inputs : Type 0 where
  pub auto : Bool
  pub curtain : Bool
  pub speed : ℕ
  pub chassis : ℕ
  pub part : ℕ
  pub coils : ℕ → Bool

-- The coils and the state after the light curtain was read, which the simulation leaves alone.
pub record IsGuarded {F : Type 0} (s u : AssemblyState F) : Type 0 where
  pub auto : u.ix0_0 ≡ s.ix0_0
  pub curtain : u.ix0_7 ≡ s.ix0_7
  pub conveyor : u.qx0_0 ≡ (if s.ix0_7 then false else s.qx0_0)
  pub lift : u.qx0_1 ≡ (if s.ix0_7 then false else s.qx0_1)
  pub clamp : u.qx0_2 ≡ s.qx0_2
  pub rotate : u.qx0_3 ≡ (if s.ix0_7 then false else s.qx0_3)
  pub done : u.qx0_4 ≡ (if s.ix0_7 then false else s.qx0_4)
  pub state : u.sfc_state ≡ s.sfc_state

module _ {F : Type 0} ⦃d : Double F⦄ where
  -- The copies of the loader: the coils only in manual mode.
  unfoldable pub read_inputs : Inputs → AssemblyState F → AssemblyState F
  read_inputs i s = record s {
    ix0_0 = i.auto;
    ix0_7 = i.curtain;
    mw1 = i.speed;
    mw2 = i.chassis;
    mw3 = i.part;
    qx0_0 = if i.auto then s.qx0_0 else i.coils 0;
    qx0_1 = if i.auto then s.qx0_1 else i.coils 1;
    qx0_2 = if i.auto then s.qx0_2 else i.coils 2;
    qx0_3 = if i.auto then s.qx0_3 else i.coils 3;
    qx0_4 = if i.auto then s.qx0_4 else i.coils 4;
  }

  -- A scan, with inputs and a tick of any value.
  pub data Scan (s t : AssemblyState F) : Type 0 where
    scan : (i : Inputs) (tick : ℕ) → config_run tick (read_inputs i s) ≡ some t → Scan s t

  -- The states that the line reaches from its start.
  pub data Reach : AssemblyState F → Type 0 where
    start : Reach config_init
    next : {s t : AssemblyState F} → Reach s → Scan s t → Reach t

  -- A scan is the control on the state after the simulation.
  pub config_run_cases :
      (tick : ℕ) (s t : AssemblyState F)
      → config_run tick s ≡ some t
      → (u : AssemblyState F) × IsGuarded s u × (control u ≡ t)
  unfolding config_run report_position move_conveyor move_arm guard_outputs
  config_run_cases tick s t h =
      elim (Option-cases (report_position (move_conveyor (guard_outputs tick s)))) [
        | inl fault ↦ absurd (ground arith)
        | inr (u, at) ↦ (
          move_arm u,
          record {
            auto = ground arith;
            curtain = ground arith;
            conveyor = ground arith;
            lift = ground arith;
            clamp = ground arith;
            rotate = ground arith;
            done = ground arith;
            state = ground arith;
          },
          ground arith,
        )
      ]
