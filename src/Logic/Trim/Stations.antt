-- ===== src/Logic/Trim/Stations.antt =====
-- Where the conveyor of the trim line gets to.
use v_plc_runtime.Shared.{
  ℕ, ◌≡◌, ◌≤◌, refl, ◌∙◌, subst, true, false, some, ◌==◌, inl, inr, Bool-cases, Option-cases,
  either_branch, arith,
}
use v_plc_runtime.Logic.Double.{Double, dec, ◌⊕◌, ◌≺◌, ◌≼◌}
use v_plc_runtime.Logic.Trim.{
  TrimState, config_init, cut_outputs, lamps, arrived, moved, stop_at, behind_station_1,
  behind_station_2, behind_station_3, behind_station_4, move_conveyor, report_position, dock,
  tighten, heat, press, lift_seat, simulate, to_cockpit, dock_cockpit, tighten_bolts, to_glass,
  fit_glass, to_seat, sequence, control, config_run,
}
use v_plc_runtime.Logic.Trim.Scans.{read_inputs, scan, Reach, start, next}

module _ {F : Type 0} ⦃d : Double F⦄ where
  -- Not past station 1, with nothing counted.
  pub record IsBefore (s : TrimState F) : Type 0 where
    pub position : (s.conveyor_pos ≼ dec 200 0) ≡ true
    pub state : s.trim_sfc_state ≤ 5
    pub seat : s.ix0_3 ≡ false
    pub total : s.mw0 ≡ 0

  -- The rest of the simulation leaves these alone.
  simulate_position :
      (tick : ℕ) (s t : TrimState F)
      → simulate tick s ≡ some t
      → (t.conveyor_pos ≡ (move_conveyor s).conveyor_pos)
        × (t.trim_sfc_state ≡ (move_conveyor s).trim_sfc_state)
        × (t.ix0_3 ≡ (move_conveyor s).ix0_3)
        × (t.mw0 ≡ (move_conveyor s).mw0)
  unfolding simulate report_position dock tighten heat press lift_seat
  simulate_position tick s t h = ground arith

  -- The sequence in its first states moves nothing itself.
  abbrev Stays : TrimState F → TrimState F → Type 0
  Stays s t =
      (t.conveyor_pos ≡ s.conveyor_pos)
      × (t.trim_sfc_state ≤ 5)
      × (t.ix0_3 ≡ s.ix0_3)
      × (t.mw0 ≡ s.mw0)

  to_cockpit-Stays : (s : TrimState F) → s.trim_sfc_state ≡ 0 → Stays s (to_cockpit s)
  unfolding to_cockpit
  to_cockpit-Stays s e = ground arith

  dock_cockpit-Stays : (s : TrimState F) → s.trim_sfc_state ≡ 1 → Stays s (dock_cockpit s)
  unfolding dock_cockpit
  dock_cockpit-Stays s e = ground arith

  tighten_bolts-Stays : (s : TrimState F) → s.trim_sfc_state ≡ 2 → Stays s (tighten_bolts s)
  unfolding tighten_bolts
  tighten_bolts-Stays s e = ground arith

  to_glass-Stays : (s : TrimState F) → s.trim_sfc_state ≡ 3 → Stays s (to_glass s)
  unfolding to_glass
  to_glass-Stays s e = ground arith

  fit_glass-Stays : (s : TrimState F) → s.trim_sfc_state ≡ 4 → Stays s (fit_glass s)
  unfolding fit_glass
  fit_glass-Stays s e = ground arith

  to_seat-Stays : (s : TrimState F) → s.trim_sfc_state ≡ 5 → s.ix0_3 ≡ false → Stays s (to_seat s)
  unfolding to_seat
  to_seat-Stays s e off = ground arith

  control-Stays :
      (tick : ℕ) (s : TrimState F)
      → s.trim_sfc_state ≤ 5
      → s.ix0_3 ≡ false
      → Stays s (control tick s)
  unfolding control sequence
  control-Stays tick s h off =
      either_branch (Stays s) s.ix0_0 _ _
        (λ _.
          either_branch (Stays s) (s.trim_sfc_state == 0) _ _
            (λ e. to_cockpit-Stays s (ground arith))
            (λ n0.
              either_branch (Stays s) (s.trim_sfc_state == 1) _ _
                (λ e. dock_cockpit-Stays s (ground arith))
                (λ n1.
                  either_branch (Stays s) (s.trim_sfc_state == 2) _ _
                    (λ e. tighten_bolts-Stays s (ground arith))
                    (λ n2.
                      either_branch (Stays s) (s.trim_sfc_state == 3) _ _
                        (λ e. to_glass-Stays s (ground arith))
                        (λ n3.
                          either_branch (Stays s) (s.trim_sfc_state == 4) _ _
                            (λ e. fit_glass-Stays s (ground arith))
                            (λ n4.
                              either_branch (Stays s) (s.trim_sfc_state == 5) _ _
                                (λ e. to_seat-Stays s (ground arith) off)
                                (λ n5. absurd (ground arith))))))))
        (λ _. (refl, ground arith, refl, refl))

  module _ (reach : (x : F) → (x ≼ dec 200 0) ≡ true → (x ⊕ dec 30 1 ≺ dec 210 0) ≡ true)
      (under : (x : F) → (x ≼ dec 200 0) ≡ true → (x ≺ dec 210 0) ≡ true)
      (below : (x : F) (n : ℕ) → 210 ≤ n → (x ≺ dec 210 0) ≡ true → (dec n 0 ≼ x) ≡ false)
      (before : (x : F) → (x ≺ dec 210 0) ≡ true → (dec 200 0 ≼ x) ≡ false → (x ≼ dec 200 0) ≡ true)
      (at : (dec 200 0 ≼ dec {F = F} 200 0) ≡ true) where
    moved_below :
        (s : TrimState F) → (s.conveyor_pos ≼ dec 200 0) ≡ true → (moved s ≺ dec 210 0) ≡ true
    unfolding moved
    moved_below s h =
        let r = reach s.conveyor_pos h in
        rw (below (s.conveyor_pos ⊕ dec 30 1) 1000 (ground arith) r) r

    behind_station_1_at :
        (s : TrimState F)
        → (s.conveyor_pos ≼ dec 200 0) ≡ true
        → (behind_station_1 s ≼ dec 200 0) ≡ true
    unfolding behind_station_1 stop_at arrived
    behind_station_1_at s h = let m = moved_below s h in ground (arith, m, at, before (moved s) m)

    -- A station farther on is not reached.
    far :
        (n k : ℕ) (x : F)
        → 210 ≤ n
        → (x ≼ dec 200 0) ≡ true
        → (arrived (dec n 0) (dec k 0) x ≡ false) × (stop_at (dec n 0) (dec k 0) x ≡ x)
    unfolding arrived stop_at
    far n k x h e = rw (below x n h (under x e)) (refl, refl)

    behind_station_2_same :
        (s : TrimState F)
        → (s.conveyor_pos ≼ dec 200 0) ≡ true
        → behind_station_2 s ≡ behind_station_1 s
    unfolding behind_station_2
    behind_station_2_same s h =
        ground (arith, (far 450 460 _ (ground arith) (behind_station_1_at s h)).1)

    behind_station_4_same :
        (s : TrimState F)
        → (s.conveyor_pos ≼ dec 200 0) ≡ true
        → behind_station_4 s ≡ behind_station_1 s
    unfolding behind_station_4 behind_station_3
    behind_station_4_same s h =
        let b = behind_station_1_at s h in
        rw (behind_station_2_same s h, (far 700 710 _ (ground arith) b).1)
          ((far 900 910 _ (ground arith) b).1)

    move_conveyor-IsBefore : (s : TrimState F) → IsBefore s → IsBefore (move_conveyor s)
    unfolding move_conveyor
    move_conveyor-IsBefore s h =
        let b = behind_station_1_at s h.position in
        either_branch IsBefore s.qx0_0 _ _
          (λ on. record {
            position = rw (behind_station_4_same s h.position) b;
            state = h.state;
            seat = rw (behind_station_2_same s h.position) ((far 700 710 _ (ground arith) b).0);
            total = h.total;
          })
          (λ off. h)

    pub config_run-IsBefore :
        (tick : ℕ) (s t : TrimState F) → config_run tick s ≡ some t → IsBefore s → IsBefore t
    unfolding config_run cut_outputs lamps
    config_run-IsBefore tick s t run h = elim (Bool-cases s.ix0_5) [
      | inl stop ↦
          let kept : t.conveyor_pos ≡ s.conveyor_pos = ground arith in
          record {
            position = rw kept h.position;
            state = ground arith;
            seat = ground arith;
            total = ground arith;
          }
      | inr go ↦ elim (Option-cases (simulate tick (lamps tick s))) [
        | inl fault ↦ absurd (ground arith)
        | inr (u, sim) ↦
            let done : control tick u ≡ t = ground arith in
            let (p, q, r, z) = simulate_position tick (lamps tick s) u sim in
            let m : IsBefore (move_conveyor (lamps tick s)) =
              move_conveyor-IsBefore (lamps tick s) (record {
                position = h.position;
                state = h.state;
                seat = h.seat;
                total = h.total;
              }) in
            let (a, b, c, e) = control-Stays tick u (rw q m.state) (r ∙ m.seat) in
            subst IsBefore done (record {
              position = rw (a, p) m.position;
              state = b;
              seat = c ∙ r ∙ m.seat;
              total = e ∙ z ∙ m.total;
            })
      ]
    ]

    -- Where doubles near 200.0 are ordered as numbers, a step of 3.0 from at most 200.0 stays below 210.0, and 0.0 is at most
    -- 200.0: in every state that the line reaches, whatever its inputs, the conveyor is at most at 200.0, the
    -- sequence at most in state 5, no vehicle stands at the seat station, and none was counted.
    pub Reach-IsBefore :
        {s : TrimState F} → (dec 0 0 ≼ dec {F = F} 200 0) ≡ true → Reach s → IsBefore s
    unfolding config_init read_inputs
    Reach-IsBefore zero start = record {
      position = zero;
      state = ground arith;
      seat = refl;
      total = refl;
    }
    Reach-IsBefore zero (next {s} {t} r (scan i tick run)) =
        let h : IsBefore s = Reach-IsBefore zero r in
        config_run-IsBefore tick (read_inputs i s) t run
          (record { position = h.position; state = h.state; seat = h.seat; total = h.total })
