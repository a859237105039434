-- ===== src/Logic/Trim/Quality.antt =====
-- What the simulation of a scan leaves alone, and the quality decision.
use v_plc_runtime.Shared.{
  ℕ, ◌≡◌, ◌⊎◌, refl, ◌∙◌, sym, subst, true, false, some, ◌==◌, inl, inr, Bool-cases, Option-cases,
  either_branch, arith,
}
use v_plc_runtime.Logic.Double.{Double, dec, rounded}
use v_plc_runtime.Logic.Trim.{
  TrimState, cut_outputs, lamps, move_conveyor, report_position, dock, next_torque, tighten, heat,
  press, lift_seat, simulate, to_cockpit, dock_cockpit, tighten_bolts, to_glass, fit_glass, to_seat,
  insert_seat, torque_pass, inspect, hold_result, sequence, control, config_run,
}

-- The variables that the simulation does not touch.
pub record IsControlled {F : Type 0} (s t : TrimState F) : Type 0 where
  pub auto : t.ix0_0 ≡ s.ix0_0
  pub run : t.qx0_0 ≡ s.qx0_0
  pub bolting : t.qx0_2 ≡ s.qx0_2
  pub jetting : t.qx0_3 ≡ s.qx0_3
  pub state : t.trim_sfc_state ≡ s.trim_sfc_state
  pub total : t.mw0 ≡ s.mw0
  pub passed : t.mw1 ≡ s.mw1
  pub failed : t.mw2 ≡ s.mw2
  pub bypass : t.mw4 ≡ s.mw4

module _ {F : Type 0} ⦃d : Double F⦄ where
  lamps-IsControlled : (tick : ℕ) (s : TrimState F) → IsControlled s (lamps tick s)
  unfolding lamps
  lamps-IsControlled tick s = record {
    auto = refl;
    run = refl;
    bolting = refl;
    jetting = refl;
    state = refl;
    total = refl;
    passed = refl;
    failed = refl;
    bypass = refl;
  }

  pub move_conveyor-IsControlled : (s : TrimState F) → IsControlled s (move_conveyor s)
  unfolding move_conveyor
  move_conveyor-IsControlled s = ground arith

  pub simulate-IsControlled :
      (tick : ℕ) (s t : TrimState F) → simulate tick s ≡ some t → IsControlled s t
  unfolding simulate report_position dock tighten heat press lift_seat
  simulate-IsControlled tick s t h = ground (arith, move_conveyor-IsControlled s)

  -- With the nutrunner off the torque is reported as 0.
  torque_off :
      (tick : ℕ) (s t : TrimState F)
      → rounded {F = F} (dec 0 0) ≡ some 0
      → s.qx0_2 ≡ false
      → simulate tick s ≡ some t
      → t.iw1 ≡ 0
  unfolding simulate report_position dock tighten next_torque heat press lift_seat
  torque_off tick s t z off h = ground (arith, move_conveyor-IsControlled s)

  -- A nutrunner runs only while it tightens, or in manual mode, which the sequence leaves at its start.
  abbrev pub IsAtRest : TrimState F → Type 0
  IsAtRest s = s.qx0_2 ≡ true → (s.trim_sfc_state ≡ 0) ⊎ (s.trim_sfc_state ≡ 2)

  control-IsAtRest :
      (tick : ℕ) (s : TrimState F) → s.ix0_0 ≡ true → IsAtRest s → IsAtRest (control tick s)
  unfolding control sequence to_cockpit dock_cockpit tighten_bolts to_glass fit_glass to_seat
      insert_seat inspect hold_result
  control-IsAtRest tick s auto h = ground (arith, h)

  -- The cases of the sequence other than the inspection count nothing.
  abbrev SameCounts : TrimState F → TrimState F → Type 0
  SameCounts s t = (t.mw0 ≡ s.mw0) × (t.mw1 ≡ s.mw1) × (t.mw2 ≡ s.mw2)

  to_cockpit-SameCounts : (s : TrimState F) → SameCounts s (to_cockpit s)
  unfolding to_cockpit
  to_cockpit-SameCounts s = ground arith

  dock_cockpit-SameCounts : (s : TrimState F) → SameCounts s (dock_cockpit s)
  unfolding dock_cockpit
  dock_cockpit-SameCounts s = ground arith

  tighten_bolts-SameCounts : (s : TrimState F) → SameCounts s (tighten_bolts s)
  unfolding tighten_bolts
  tighten_bolts-SameCounts s = ground arith

  to_glass-SameCounts : (s : TrimState F) → SameCounts s (to_glass s)
  unfolding to_glass
  to_glass-SameCounts s = ground arith

  fit_glass-SameCounts : (s : TrimState F) → SameCounts s (fit_glass s)
  unfolding fit_glass
  fit_glass-SameCounts s = ground arith

  to_seat-SameCounts : (s : TrimState F) → SameCounts s (to_seat s)
  unfolding to_seat
  to_seat-SameCounts s = ground arith

  insert_seat-SameCounts : (s : TrimState F) → SameCounts s (insert_seat s)
  unfolding insert_seat
  insert_seat-SameCounts s = ground arith

  hold_result-SameCounts : (tick : ℕ) (s : TrimState F) → SameCounts s (hold_result tick s)
  unfolding hold_result
  hold_result-SameCounts tick s = ground arith

  -- At a torque of 0 every vehicle fails the inspection.
  abbrev OnlyFails : TrimState F → TrimState F → Type 0
  OnlyFails s t = (t.mw1 ≡ s.mw1) × (s.mw0 ≡ s.mw2 → t.mw0 ≡ t.mw2)

  SameCounts-OnlyFails : (s t : TrimState F) → SameCounts s t → OnlyFails s t
  SameCounts-OnlyFails s t h = (h.1, λ e. h.0 ∙ e ∙ sym h.2)

  inspect-OnlyFails : (s : TrimState F) → s.iw1 ≡ 0 → OnlyFails s (inspect s)
  unfolding inspect torque_pass
  inspect-OnlyFails s h = elim (Bool-cases s.ix0_4) [
    | inl e ↦ rw (e, h) (refl, λ k. rw k)
    | inr e ↦ rw e (refl, λ k. k)
  ]

  control-OnlyFails :
      (tick : ℕ) (s : TrimState F)
      → (s.trim_sfc_state ≡ 7 → s.iw1 ≡ 0)
      → OnlyFails s (control tick s)
  unfolding control sequence
  control-OnlyFails tick s h =
      either_branch (OnlyFails s) s.ix0_0 _ _
        (λ _.
          either_branch (OnlyFails s) (s.trim_sfc_state == 0) _ _
            (λ _. same (to_cockpit s) (to_cockpit-SameCounts s))
            (λ _.
              either_branch (OnlyFails s) (s.trim_sfc_state == 1) _ _
                (λ _. same (dock_cockpit s) (dock_cockpit-SameCounts s))
                (λ _.
                  either_branch (OnlyFails s) (s.trim_sfc_state == 2) _ _
                    (λ _. same (tighten_bolts s) (tighten_bolts-SameCounts s))
                    (λ _.
                      either_branch (OnlyFails s) (s.trim_sfc_state == 3) _ _
                        (λ _. same (to_glass s) (to_glass-SameCounts s))
                        (λ _.
                          either_branch (OnlyFails s) (s.trim_sfc_state == 4) _ _
                            (λ _. same (fit_glass s) (fit_glass-SameCounts s))
                            (λ _.
                              either_branch (OnlyFails s) (s.trim_sfc_state == 5) _ _
                                (λ _. same (to_seat s) (to_seat-SameCounts s))
                                (λ _.
                                  either_branch (OnlyFails s) (s.trim_sfc_state == 6) _ _
                                    (λ _. same (insert_seat s) (insert_seat-SameCounts s))
                                    (λ _.
                                      either_branch (OnlyFails s) (s.trim_sfc_state == 7) _ _
                                        (λ e. inspect-OnlyFails s (h (ground arith)))
                                        (λ _.
                                          either_branch (OnlyFails s) (s.trim_sfc_state == 8) _ _
                                            (λ _.
                                              same (hold_result tick s)
                                                (hold_result-SameCounts tick s))
                                            (λ _. (refl, λ k. k)))))))))))
        (λ _. (refl, λ k. k))
    where
      same : (t : TrimState F) → SameCounts s t → OnlyFails s t
      same t = SameCounts-OnlyFails s t

  -- Between two scans: what `config_run` keeps.
  abbrev pub Counted : TrimState F → TrimState F → Type 0
  Counted s t = IsAtRest t × (t.mw1 ≡ s.mw1) × (t.mw0 ≡ t.mw2)

  module _ (tick : ℕ) (s u : TrimState F) (z : rounded {F = F} (dec 0 0) ≡ some 0)
      (at : simulate tick s ≡ some u) (same : s.mw0 ≡ s.mw2) where
    control_auto : s.ix0_0 ≡ true → IsAtRest s → Counted s (control tick u)
    control_auto auto rest =
        let k : IsControlled s u = simulate-IsControlled tick s u at in
        let rest_u : IsAtRest u = λ on. rw k.state (rest (sym k.bolting ∙ on)) in
        let no_torque : (u.trim_sfc_state ≡ 7 → u.iw1 ≡ 0) = λ e. elim (Bool-cases s.qx0_2) [
          | inl on ↦ absurd (ground (arith, rest on, k.state))
          | inr off ↦ torque_off tick s u z off at
        ] in
        let fails : OnlyFails u (control tick u) = control-OnlyFails tick u no_torque in
        (
          control-IsAtRest tick u (k.auto ∙ auto) rest_u,
          fails.0 ∙ k.passed,
          fails.1 (k.total ∙ same ∙ sym k.failed),
        )

    control_manual : s.ix0_0 ≡ false → Counted s (control tick u)
    unfolding control
    control_manual manual =
        let k : IsControlled s u = simulate-IsControlled tick s u at in
        let off : u.ix0_0 ≡ false = k.auto ∙ manual in
        rw off (λ on. inl refl, k.passed, k.total ∙ same ∙ sym k.failed)

  -- Where 0.0 rounds to 0, a scan with a result, from a state where in automatic mode the nutrunner runs only in
  -- sequence states 0 and 2 and where as many vehicles were counted as failed, leaves such a state, and passes no vehicle.
  pub config_run_counts :
      (tick : ℕ) (s t : TrimState F)
      → rounded {F = F} (dec 0 0) ≡ some 0
      → (s.ix0_0 ≡ true → IsAtRest s)
      → s.mw0 ≡ s.mw2
      → config_run tick s ≡ some t
      → Counted s t
  unfolding config_run cut_outputs lamps
  config_run_counts tick s t z rest e h = elim (Bool-cases s.ix0_5) [
    | inl stop ↦ (ground arith, ground arith, ground arith)
    | inr go ↦ elim (Option-cases (simulate tick (lamps tick s))) [
      | inl fault ↦ absurd (ground arith)
      | inr (u, at) ↦
          let done : control tick u ≡ t = ground arith in
          subst (Counted s) done (elim (Bool-cases s.ix0_0) [
            | inl auto ↦ control_auto tick (lamps tick s) u z at e auto (rest auto)
            | inr manual ↦ control_manual tick (lamps tick s) u z at e manual
          ])
    ]
  ]
