-- ===== src/Logic/Assembly/Interlock.antt =====
-- The interlocks of the assembly line.
use v_plc_runtime.Shared.{
  ℕ, ◌≡◌, ◌≤◌, ◌∙◌, sym, subst, true, false, not, ◌&&◌, some, ◌==◌, arith, either_branch,
}
use v_plc_runtime.Logic.Double.{Double}
use v_plc_runtime.Logic.Assembly.{
  AssemblyState, config_init, wait_chassis, convey, lower_to_pick, clamp_part, lift_part,
  rotate_arm, lower_to_place, release_part, return_home, sequence, control, config_run,
}
use v_plc_runtime.Logic.Assembly.Scans.{
  IsGuarded, read_inputs, Scan, scan, Reach, start, next, config_run_cases,
}

-- While the arm works (states 1 to 7) the conveyor stands; from the grip to the place (3 to 5) the clamp holds; the
-- arm turns (4) with the lift not driven down, and the arm is not turned while it picks (8, 1 to 3).
pub record IsInterlocked {F : Type 0} (s : AssemblyState F) : Type 0 where
  pub range : s.sfc_state ≤ 8
  pub stands : 1 ≤ s.sfc_state → s.sfc_state ≤ 7 → s.qx0_0 ≡ false
  pub holds : 3 ≤ s.sfc_state → s.sfc_state ≤ 5 → s.qx0_2 ≡ true
  pub raised : s.sfc_state ≡ 4 → s.qx0_1 ≡ false
  pub unturned : 1 ≤ s.sfc_state → s.sfc_state ≤ 3 → s.qx0_3 ≡ false
  pub unturned_chassis : s.sfc_state ≡ 8 → s.qx0_3 ≡ false

module _ {F : Type 0} ⦃d : Double F⦄ where
  IsGuarded-IsInterlocked :
      (s u : AssemblyState F) → IsGuarded s u → IsInterlocked s → IsInterlocked u
  IsGuarded-IsInterlocked s u g h = record {
    range = ground (arith, h.range, g.state);
    stands = λ a b. ground (arith, g.state, g.conveyor, h.stands);
    holds = λ a b. ground (arith, g.state, g.clamp, h.holds);
    raised = λ a. ground (arith, g.state, g.lift, h.raised);
    unturned = λ a b. ground (arith, g.state, g.rotate, h.unturned);
    unturned_chassis = λ a. ground (arith, g.state, g.rotate, h.unturned_chassis);
  }

  wait_chassis-IsInterlocked :
      (s : AssemblyState F) → s.sfc_state ≡ 0 → IsInterlocked s → IsInterlocked (wait_chassis s)
  unfolding wait_chassis
  wait_chassis-IsInterlocked s e h = record {
    range = ground arith;
    stands = λ a b. ground (arith, h.stands);
    holds = λ a b. ground (arith, h.holds);
    raised = λ a. ground (arith, h.raised);
    unturned = λ a b. ground (arith, h.unturned, h.unturned_chassis);
    unturned_chassis = λ a. ground (arith, h.unturned_chassis);
  }

  convey-IsInterlocked :
      (s : AssemblyState F) → s.sfc_state ≡ 8 → IsInterlocked s → IsInterlocked (convey s)
  unfolding convey
  convey-IsInterlocked s e h = record {
    range = ground arith;
    stands = λ a b. ground (arith, h.stands);
    holds = λ a b. ground (arith, h.holds);
    raised = λ a. ground (arith, h.raised);
    unturned = λ a b. ground (arith, h.unturned, h.unturned_chassis);
    unturned_chassis = λ a. ground (arith, h.unturned_chassis);
  }

  lower_to_pick-IsInterlocked :
      (s : AssemblyState F) → s.sfc_state ≡ 1 → IsInterlocked s → IsInterlocked (lower_to_pick s)
  unfolding lower_to_pick
  lower_to_pick-IsInterlocked s e h = record {
    range = ground arith;
    stands = λ a b. ground (arith, h.stands);
    holds = λ a b. ground (arith, h.holds);
    raised = λ a. ground (arith, h.raised);
    unturned = λ a b. ground (arith, h.unturned, h.unturned_chassis);
    unturned_chassis = λ a. ground (arith, h.unturned_chassis);
  }

  clamp_part-IsInterlocked :
      (s : AssemblyState F) → s.sfc_state ≡ 2 → IsInterlocked s → IsInterlocked (clamp_part s)
  unfolding clamp_part
  clamp_part-IsInterlocked s e h = record {
    range = ground arith;
    stands = λ a b. ground (arith, h.stands);
    holds = λ a b. ground (arith, h.holds);
    raised = λ a. ground (arith, h.raised);
    unturned = λ a b. ground (arith, h.unturned, h.unturned_chassis);
    unturned_chassis = λ a. ground (arith, h.unturned_chassis);
  }

  lift_part-IsInterlocked :
      (s : AssemblyState F) → s.sfc_state ≡ 3 → IsInterlocked s → IsInterlocked (lift_part s)
  unfolding lift_part
  lift_part-IsInterlocked s e h = record {
    range = ground arith;
    stands = λ a b. ground (arith, h.stands);
    holds = λ a b. ground (arith, h.holds);
    raised = λ a. ground (arith, h.raised);
    unturned = λ a b. ground (arith, h.unturned, h.unturned_chassis);
    unturned_chassis = λ a. ground (arith, h.unturned_chassis);
  }

  rotate_arm-IsInterlocked :
      (s : AssemblyState F) → s.sfc_state ≡ 4 → IsInterlocked s → IsInterlocked (rotate_arm s)
  unfolding rotate_arm
  rotate_arm-IsInterlocked s e h = record {
    range = ground arith;
    stands = λ a b. ground (arith, h.stands);
    holds = λ a b. ground (arith, h.holds);
    raised = λ a. ground (arith, h.raised);
    unturned = λ a b. ground (arith, h.unturned, h.unturned_chassis);
    unturned_chassis = λ a. ground (arith, h.unturned_chassis);
  }

  lower_to_place-IsInterlocked :
      (s : AssemblyState F) → s.sfc_state ≡ 5 → IsInterlocked s → IsInterlocked (lower_to_place s)
  unfolding lower_to_place
  lower_to_place-IsInterlocked s e h = record {
    range = ground arith;
    stands = λ a b. ground (arith, h.stands);
    holds = λ a b. ground (arith, h.holds);
    raised = λ a. ground (arith, h.raised);
    unturned = λ a b. ground (arith, h.unturned, h.unturned_chassis);
    unturned_chassis = λ a. ground (arith, h.unturned_chassis);
  }

  release_part-IsInterlocked :
      (s : AssemblyState F) → s.sfc_state ≡ 6 → IsInterlocked s → IsInterlocked (release_part s)
  unfolding release_part
  release_part-IsInterlocked s e h = record {
    range = ground arith;
    stands = λ a b. ground (arith, h.stands);
    holds = λ a b. ground (arith, h.holds);
    raised = λ a. ground (arith, h.raised);
    unturned = λ a b. ground (arith, h.unturned, h.unturned_chassis);
    unturned_chassis = λ a. ground (arith, h.unturned_chassis);
  }

  return_home-IsInterlocked :
      (s : AssemblyState F) → s.sfc_state ≡ 7 → IsInterlocked s → IsInterlocked (return_home s)
  unfolding return_home
  return_home-IsInterlocked s e h = record {
    range = ground arith;
    stands = λ a b. ground (arith, h.stands);
    holds = λ a b. ground (arith, h.holds);
    raised = λ a. ground (arith, h.raised);
    unturned = λ a b. ground (arith, h.unturned, h.unturned_chassis);
    unturned_chassis = λ a. ground (arith, h.unturned_chassis);
  }

  sequence-IsInterlocked : (s : AssemblyState F) → IsInterlocked s → IsInterlocked (sequence s)
  unfolding sequence
  sequence-IsInterlocked s h =
      either_branch IsInterlocked (s.sfc_state == 0) _ _
        (λ e. wait_chassis-IsInterlocked s (ground arith) h)
        (λ _.
          either_branch IsInterlocked (s.sfc_state == 8) _ _
            (λ e. convey-IsInterlocked s (ground arith) h)
            (λ _.
              either_branch IsInterlocked (s.sfc_state == 1) _ _
                (λ e. lower_to_pick-IsInterlocked s (ground arith) h)
                (λ _.
                  either_branch IsInterlocked (s.sfc_state == 2) _ _
                    (λ e. clamp_part-IsInterlocked s (ground arith) h)
                    (λ _.
                      either_branch IsInterlocked (s.sfc_state == 3) _ _
                        (λ e. lift_part-IsInterlocked s (ground arith) h)
                        (λ _.
                          either_branch IsInterlocked (s.sfc_state == 4) _ _
                            (λ e. rotate_arm-IsInterlocked s (ground arith) h)
                            (λ _.
                              either_branch IsInterlocked (s.sfc_state == 5) _ _
                                (λ e. lower_to_place-IsInterlocked s (ground arith) h)
                                (λ _.
                                  either_branch IsInterlocked (s.sfc_state == 6) _ _
                                    (λ e. release_part-IsInterlocked s (ground arith) h)
                                    (λ _.
                                      either_branch IsInterlocked (s.sfc_state == 7) _ _
                                        (λ e. return_home-IsInterlocked s (ground arith) h)
                                        (λ _. h)))))))))

  stopped-IsInterlocked : (s : AssemblyState F) → IsInterlocked (record s { sfc_state = 0 })
  stopped-IsInterlocked s = record {
    range = ground arith;
    stands = λ a b. absurd (ground arith);
    holds = λ a b. absurd (ground arith);
    raised = λ a. absurd (ground arith);
    unturned = λ a b. absurd (ground arith);
    unturned_chassis = λ a. absurd (ground arith);
  }

  control-IsInterlocked :
      (s : AssemblyState F) → (s.ix0_0 ≡ true → IsInterlocked s) → IsInterlocked (control s)
  unfolding control
  control-IsInterlocked s h =
      either_branch IsInterlocked (s.ix0_0 && not s.ix0_7) _ _
        (λ e. sequence-IsInterlocked s (h (ground arith)))
        (λ e.
          either_branch IsInterlocked (not s.ix0_0) _ _ (λ m. stopped-IsInterlocked s)
            (λ m. h (ground arith)))

  pub config_run-IsInterlocked :
      (tick : ℕ) (s t : AssemblyState F)
      → (s.ix0_0 ≡ true → IsInterlocked s)
      → config_run tick s ≡ some t
      → IsInterlocked t
  config_run-IsInterlocked tick s t h run =
      let (u, g, done) = config_run_cases tick s t run in
      subst IsInterlocked done
        (control-IsInterlocked u (λ auto. IsGuarded-IsInterlocked s u g (h (sym g.auto ∙ auto))))

  Scan-IsInterlocked : {s t : AssemblyState F} → Scan s t → IsInterlocked s → IsInterlocked t
  unfolding read_inputs
  Scan-IsInterlocked {s} {t} (scan i tick run) h =
      let same : (i.auto ≡ true → IsInterlocked (read_inputs i s)) = λ auto. rw auto record {
        range = h.range;
        stands = h.stands;
        holds = h.holds;
        raised = h.raised;
        unturned = h.unturned;
        unturned_chassis = h.unturned_chassis;
      } in
      config_run-IsInterlocked tick (read_inputs i s) t same run

  -- In every state that the line reaches, whatever its inputs, ticks and stops: the sequence is in a state from 0 to 8; the
  -- conveyor stands in states 1 to 7; the clamp is driven in states 3 to 5; the lift is not driven down in state
  -- 4; and the arm is not driven to turn in states 8 and 1 to 3.
  pub Reach-IsInterlocked : {s : AssemblyState F} → Reach s → IsInterlocked s
  unfolding config_init
  Reach-IsInterlocked start = record {
    range = ground arith;
    stands = λ a b. absurd (ground arith);
    holds = λ a b. absurd (ground arith);
    raised = λ a. absurd (ground arith);
    unturned = λ a b. absurd (ground arith);
    unturned_chassis = λ a. absurd (ground arith);
  }
  Reach-IsInterlocked (next r st) = Scan-IsInterlocked st (Reach-IsInterlocked r)
