-- ===== src/Logic/Trim/Diagram.antt =====
-- The sequence of the trim line as a diagram of its states.
use v_plc_runtime.Shared.{
  ℕ, suc, ◌≡◌, ◌≤◌, ◌⊎◌, refl, sym, ap, Bool, true, false, some, ◌==◌, ◌%◌, inl, inr, Bool-cases,
  Option-cases, either_branch, arith,
}
use v_plc_runtime.Logic.Double.{Double}
use v_plc_runtime.Logic.Trim.{
  TrimState, cut_outputs, lamps, simulate, to_cockpit, dock_cockpit, tighten_bolts, to_glass,
  fit_glass, to_seat, insert_seat, inspect, hold_result, sequence, control, config_run,
}
use v_plc_runtime.Logic.Trim.Quality.{IsControlled, simulate-IsControlled}

-- The edges of the sequence, by the mode and by whether station 2 is bypassed: a state may hold, the stations come
-- in their order, station 2 is left out only under the bypass, a new vehicle is awaited only after a
-- result, and manual mode goes back to the start.
pub data Edge : Bool → Bool → ℕ → ℕ → Type 0 where
  hold : {auto bypass : Bool} (n : ℕ) → Edge auto bypass n n
  advance : {bypass : Bool} (n : ℕ) → n ≤ 7 → Edge true bypass n (suc n)
  leave_out : Edge true true 3 5
  restart : {bypass : Bool} → Edge true bypass 8 0
  reset : {bypass : Bool} (n : ℕ) → Edge false bypass n 0

advances : (b : Bool) (m n k : ℕ) → m ≡ k → k ≤ 7 → (n ≡ k) ⊎ (n ≡ suc k) → Edge true b m n
advances b m n k e h (inl f) = rw (e, f) (hold k)
advances b m n k e h (inr f) = rw (e, f) (advance k h)

Edge-mode : {a c b : Bool} {m n : ℕ} → a ≡ c → Edge c b m n → Edge a b m n
Edge-mode p x = rw p x

-- The same edge between equal states.
Edge-equal :
    {a b : Bool} {i j m n k l : ℕ}
    → a ≡ b
    → i ≡ j
    → m ≡ n
    → k ≡ l
    → Edge a (i == 1) m k
    → Edge b (j == 1) n l
Edge-equal p q r e x = rw (sym p, sym q, sym r, sym e) x

module _ {F : Type 0} ⦃d : Double F⦄ where
  -- The edge in automatic mode.
  abbrev Follows : TrimState F → TrimState F → Type 0
  Follows s t = Edge true (s.mw4 == 1) s.trim_sfc_state t.trim_sfc_state

  to_cockpit-Follows : (s : TrimState F) → s.trim_sfc_state ≡ 0 → Follows s (to_cockpit s)
  unfolding to_cockpit
  to_cockpit-Follows s e = advances _ _ _ 0 e (ground arith) (ground arith)

  dock_cockpit-Follows : (s : TrimState F) → s.trim_sfc_state ≡ 1 → Follows s (dock_cockpit s)
  unfolding dock_cockpit
  dock_cockpit-Follows s e = advances _ _ _ 1 e (ground arith) (ground arith)

  tighten_bolts-Follows : (s : TrimState F) → s.trim_sfc_state ≡ 2 → Follows s (tighten_bolts s)
  unfolding tighten_bolts
  tighten_bolts-Follows s e = advances _ _ _ 2 e (ground arith) (ground arith)

  to_glass-Follows : (s : TrimState F) → s.trim_sfc_state ≡ 3 → Follows s (to_glass s)
  unfolding to_glass
  to_glass-Follows s e =
      either_branch (Follows s) s.ix0_2 _ _ (λ _. advances _ _ _ 3 e (ground arith) (inr refl))
        (λ _.
          either_branch (Follows s) (s.mw4 == 1) _ _ (λ skip. rw (e, skip) leave_out) (λ _. hold _))

  fit_glass-Follows : (s : TrimState F) → s.trim_sfc_state ≡ 4 → Follows s (fit_glass s)
  unfolding fit_glass
  fit_glass-Follows s e = advances _ _ _ 4 e (ground arith) (ground arith)

  to_seat-Follows : (s : TrimState F) → s.trim_sfc_state ≡ 5 → Follows s (to_seat s)
  unfolding to_seat
  to_seat-Follows s e = advances _ _ _ 5 e (ground arith) (ground arith)

  insert_seat-Follows : (s : TrimState F) → s.trim_sfc_state ≡ 6 → Follows s (insert_seat s)
  unfolding insert_seat
  insert_seat-Follows s e = advances _ _ _ 6 e (ground arith) (ground arith)

  inspect-Follows : (s : TrimState F) → s.trim_sfc_state ≡ 7 → Follows s (inspect s)
  unfolding inspect
  inspect-Follows s e = advances _ _ _ 7 e (ground arith) (ground arith)

  hold_result-Follows :
      (tick : ℕ) (s : TrimState F) → s.trim_sfc_state ≡ 8 → Follows s (hold_result tick s)
  unfolding hold_result
  hold_result-Follows tick s e =
      either_branch (Follows s) (tick % 50 == 0) _ _ (λ _. rw e restart) (λ _. hold _)

  sequence-Follows : (tick : ℕ) (s : TrimState F) → Follows s (sequence tick s)
  unfolding sequence
  sequence-Follows tick s =
      either_branch (Follows s) (s.trim_sfc_state == 0) _ _
        (λ e. to_cockpit-Follows s (ground arith))
        (λ _.
          either_branch (Follows s) (s.trim_sfc_state == 1) _ _
            (λ e. dock_cockpit-Follows s (ground arith))
            (λ _.
              either_branch (Follows s) (s.trim_sfc_state == 2) _ _
                (λ e. tighten_bolts-Follows s (ground arith))
                (λ _.
                  either_branch (Follows s) (s.trim_sfc_state == 3) _ _
                    (λ e. to_glass-Follows s (ground arith))
                    (λ _.
                      either_branch (Follows s) (s.trim_sfc_state == 4) _ _
                        (λ e. fit_glass-Follows s (ground arith))
                        (λ _.
                          either_branch (Follows s) (s.trim_sfc_state == 5) _ _
                            (λ e. to_seat-Follows s (ground arith))
                            (λ _.
                              either_branch (Follows s) (s.trim_sfc_state == 6) _ _
                                (λ e. insert_seat-Follows s (ground arith))
                                (λ _.
                                  either_branch (Follows s) (s.trim_sfc_state == 7) _ _
                                    (λ e. inspect-Follows s (ground arith))
                                    (λ _.
                                      either_branch (Follows s) (s.trim_sfc_state == 8) _ _
                                        (λ e. hold_result-Follows tick s (ground arith))
                                        (λ _. hold _)))))))))

  control-Edge :
      (tick : ℕ) (s : TrimState F)
      → Edge s.ix0_0 (s.mw4 == 1) s.trim_sfc_state (control tick s).trim_sfc_state
  unfolding control
  control-Edge tick s =
      either_branch
        (λ (t : TrimState F). Edge s.ix0_0 (s.mw4 == 1) s.trim_sfc_state t.trim_sfc_state) s.ix0_0 _
        _ (λ auto. Edge-mode auto (sequence-Follows tick s)) (λ manual. Edge-mode manual (reset _))

  -- A scan that has a result, from any state, moves the sequence along an edge of the diagram, taken by the mode and
  -- by whether the bypass register holds 1.
  pub config_run-Edge :
      (tick : ℕ) (s t : TrimState F)
      → config_run tick s ≡ some t
      → Edge s.ix0_0 (s.mw4 == 1) s.trim_sfc_state t.trim_sfc_state
  unfolding config_run cut_outputs lamps
  config_run-Edge tick s t h = elim (Bool-cases s.ix0_5) [
    | inl stop ↦ Edge-equal refl refl refl (ground arith) (hold _)
    | inr go ↦ elim (Option-cases (simulate tick (lamps tick s))) [
      | inl fault ↦ absurd (ground arith)
      | inr (u, at) ↦
          let k : IsControlled (lamps tick s) u = simulate-IsControlled tick (lamps tick s) u at in
          let done : control tick u ≡ t = ground arith in
          Edge-equal k.auto k.bypass k.state (ap (λ v. v.trim_sfc_state) done) (control-Edge tick u)
    ]
  ]
