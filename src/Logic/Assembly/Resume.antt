-- ===== src/Logic/Assembly/Resume.antt =====
-- The assembly line after its light curtain was crossed.
use v_plc_runtime.Shared.{ℕ, ◌≡◌, ◌⊎◌, ◌≤◌, ◌∙◌, subst, true, false, some, inl, inr, arith}
use v_plc_runtime.Logic.Double.{Double}
use v_plc_runtime.Logic.Assembly.{
  AssemblyState, lower_to_place, release_part, sequence, control, config_run,
}
use v_plc_runtime.Logic.Assembly.Scans.{Inputs, read_inputs, config_run_cases}

module _ {F : Type 0} ⦃d : Double F⦄ where
  -- The states in which the arm has turned and carries the part to the chassis.
  abbrev pub IsPlacing : AssemblyState F → Type 0
  IsPlacing s = (5 ≤ s.sfc_state) × (s.sfc_state ≤ 6)

  -- The arm is not driven to turn, and either still carries the part or has released it.
  abbrev pub IsUnturned : AssemblyState F → Type 0
  IsUnturned s = (s.qx0_3 ≡ false) × (IsPlacing s ⊎ ((s.sfc_state ≡ 7) × (s.qx0_4 ≡ true)))

  -- A scan in automatic mode.
  pub data AutoScan (s t : AssemblyState F) : Type 0 where
    auto_scan :
        (i : Inputs) (tick : ℕ)
        → i.auto ≡ true
        → config_run tick (read_inputs i s) ≡ some t
        → AutoScan s t

  -- Scans in automatic mode, each from a state in which the arm carries the part.
  pub data Resumed (s : AssemblyState F) : AssemblyState F → Type 0 where
    stay : Resumed s s
    resume : {t u : AssemblyState F} → Resumed s t → IsPlacing t → AutoScan t u → Resumed s u

  control-IsUnturned :
      (u : AssemblyState F)
      → u.ix0_0 ≡ true
      → IsPlacing u
      → u.qx0_3 ≡ false
      → IsUnturned (control u)
  unfolding control sequence lower_to_place release_part
  control-IsUnturned u auto at off = ground (arith, at.0, at.1)

  config_run-IsUnturned :
      (tick : ℕ) (s t : AssemblyState F)
      → s.ix0_0 ≡ true
      → IsPlacing s
      → (s.ix0_7 ≡ true) ⊎ (s.qx0_3 ≡ false)
      → config_run tick s ≡ some t
      → IsUnturned t
  config_run-IsUnturned tick s t auto at off run =
      let (u, g, done) = config_run_cases tick s t run in
      subst IsUnturned done (
        control-IsUnturned u (g.auto ∙ auto)
          (ground (arith, at.0, at.1, g.state), ground (arith, at.0, at.1, g.state))
          (ground (arith, g.rotate)))

  -- When the light curtain was crossed in a scan of automatic mode in state 5 or 6, with any state before, then, through
  -- all automatic scans that follow until the part is released, the arm is not driven to turn: it is in state 5 or 6, or has
  -- come to 7 with the lamp for a finished assembly on.
  pub Resumed-IsUnturned :
      (i : Inputs) (tick : ℕ) (s : AssemblyState F) {t u : AssemblyState F}
      → i.auto ≡ true
      → i.curtain ≡ true
      → IsPlacing s
      → config_run tick (read_inputs i s) ≡ some t
      → Resumed t u
      → IsUnturned u
  unfolding read_inputs
  Resumed-IsUnturned i tick s {t} auto cross at run stay =
      config_run-IsUnturned tick (read_inputs i s) t auto at (inl cross) run
  Resumed-IsUnturned i tick s {u = u} auto cross at run
        (resume {t = v} r placing (auto_scan j n on step)) =
      config_run-IsUnturned n (read_inputs j v) u on placing
        (inr (rw on ((Resumed-IsUnturned i tick s auto cross at run r).0))) step
