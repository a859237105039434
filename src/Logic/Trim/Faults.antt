-- ===== src/Logic/Trim/Faults.antt =====
-- The jitter of the torque and of the press load, which is taken from an unsigned tick.
use v_plc_runtime.Shared.{
  ℕ, ◌-◌, ◌%◌, ◌^◌, ◌≡◌, ◌≤◌, ◌<◌, ◌⊎◌, refl, ◌∙◌, true, false, Option, none, some, ◌>>=◌, inl, inr,
  Option-cases, arith,
}
use v_plc_runtime.Logic.Double.{Double, dec, of_nat, ◌⊕◌, ◌≺◌, ◌≼◌, rounded}
use v_plc_runtime.Logic.Trim.{
  TrimState, jitter, lamps, travel, move_conveyor, report_position, dock, next_torque, tighten,
  heat, next_load, press, lift_seat, simulate, config_run,
}

-- Below its offset the jitter wraps.
jitter_wraps :
    (tick n k : ℕ)
    → tick % n < k
    → k ≤ 5
    → (2 ^ 64 - k ≤ jitter tick n k) × (jitter tick n k < 2 ^ 64)
unfolding jitter
jitter_wraps tick n k h b = ground arith

-- What a conversion to 16 bits does with a value near 2 ^ 64: it has no defined result.
abbrev pub Overflows : (F : Type 0) ⦃d : Double F⦄ → ℕ → Type 0
Overflows F base =
    (n : ℕ) → 2 ^ 64 - 2 ≤ n → n < 2 ^ 64 → rounded {F = F} (dec base 0 ⊕ of_nat n) ≡ none

module _ {F : Type 0} ⦃d : Double F⦄ where
  tighten_fault :
      (tick : ℕ) (s : TrimState F)
      → Overflows F 450
      → s.qx0_2 ≡ true
      → (dec 95 2 ≼ s.cockpit_dock_pos) ≡ true
      → (dec 452 0 ≺ s.bolt_torque ⊕ dec 225 1) ≡ true
      → tick % 5 < 2
      → tighten tick s ≡ none
  unfolding tighten next_torque
  tighten_fault tick s o on docked high low =
      let (j, k) = jitter_wraps tick 5 2 low (ground arith) in
      let e = o (jitter tick 5 2) j k in ground (arith, e)

  press_fault :
      (tick : ℕ) (s : TrimState F)
      → Overflows F 150
      → s.qx0_3 ≡ true
      → (dec 152 0 ≺ s.glass_press_load ⊕ dec 100 1) ≡ true
      → tick % 3 < 1
      → press tick s ≡ none
  unfolding press next_load
  press_fault tick s o on high low =
      let (j, k) = jitter_wraps tick 3 1 low (ground arith) in
      let e = o (jitter tick 3 1) (ground arith) k in ground (arith, e)

  -- The two settings in which a scan takes the jitter below zero: the nutrunner at its limit, or the press.
  abbrev pub AtLimit : ℕ → TrimState F → Type 0
  AtLimit tick s =
      ((s.qx0_2 ≡ true)
        × ((dec 95 2 ≼ travel s.qx0_1 (dec 5 2) s.cockpit_dock_pos) ≡ true)
        × ((dec 452 0 ≺ s.bolt_torque ⊕ dec 225 1) ≡ true)
        × (tick % 5 < 2))
      ⊎ ((s.qx0_3 ≡ true) × ((dec 152 0 ≺ s.glass_press_load ⊕ dec 100 1) ≡ true) × (tick % 3 < 1))

  -- The steps of a scan that leave the machines of AtLimit alone.
  record SameMachines (s t : TrimState F) : Type 0 where
    nutrunner : t.qx0_2 ≡ s.qx0_2
    cylinder : t.qx0_1 ≡ s.qx0_1
    press : t.qx0_3 ≡ s.qx0_3
    docked : t.cockpit_dock_pos ≡ s.cockpit_dock_pos
    torque : t.bolt_torque ≡ s.bolt_torque
    load : t.glass_press_load ≡ s.glass_press_load

  report_position-SameMachines :
      (tick : ℕ) (s t : TrimState F)
      → report_position (move_conveyor (lamps tick s)) ≡ some t
      → SameMachines s t
  unfolding lamps move_conveyor report_position
  report_position-SameMachines tick s t h = ground arith

  SameMachines-AtLimit :
      (tick : ℕ) (s t : TrimState F) → SameMachines s t → AtLimit tick s → AtLimit tick t
  SameMachines-AtLimit tick s t m (inl (on, docked, high, low)) =
      inl (m.nutrunner ∙ on, rw (m.cylinder, m.docked) docked, rw m.torque high, low)
  SameMachines-AtLimit tick s t m (inr (on, high, low)) = inr (m.press ∙ on, rw m.load high, low)

  -- The nutrunner and the heater leave the press alone.
  warm-press :
      (tick : ℕ) (s t u : TrimState F)
      → tighten tick (dock s) ≡ some t
      → heat t ≡ some u
      → (u.qx0_3 ≡ s.qx0_3) × (u.glass_press_load ≡ s.glass_press_load)
  unfolding tighten dock heat
  warm-press tick s t u h k = ground arith

  -- A scan reaches the nutrunner, and then the press, unless a conversion before it is undefined.
  abbrev machines : ℕ → TrimState F → Option (TrimState F)
  machines tick s = do
    s2 ← tighten tick (dock s)
    s3 ← heat s2
    s4 ← press tick s3
    some (lift_seat s4)

  machines_fault :
      (tick : ℕ) (s : TrimState F)
      → Overflows F 450
      → Overflows F 150
      → AtLimit tick s
      → machines tick s ≡ none
  unfolding dock
  machines_fault tick s o p (inl (on, docked, high, low)) =
      rw (tighten_fault tick (dock s) o on docked high low) refl
  machines_fault tick s o p (inr (on, high, low)) = elim (Option-cases (tighten tick (dock s))) [
    | inl fault ↦ rw fault refl
    | inr (t, at) ↦ elim (Option-cases (heat t)) [
      | inl fault ↦ rw (at, fault) refl
      | inr (u, warm) ↦
          let w = warm-press tick s t u at warm in
          rw (at, warm, press_fault tick u p (w.0 ∙ on) (rw w.1 high) low) refl
    ]
  ]

  -- Where 450.0 and 150.0 plus a number within 2 of 2 ^ 64 have no conversion to 16 bits: without an emergency stop, a scan
  -- with the nutrunner or the press at its limit, at a tick whose jitter is below zero, has no defined result.
  pub config_run_fault :
      (tick : ℕ) (s : TrimState F)
      → Overflows F 450
      → Overflows F 150
      → s.ix0_5 ≡ false
      → AtLimit tick s
      → config_run tick s ≡ none
  unfolding config_run simulate
  config_run_fault tick s o p go h =
      elim (Option-cases (report_position (move_conveyor (lamps tick s)))) [
        | inl fault ↦ rw (fault, go) refl
        | inr (t, at) ↦
            let same = SameMachines-AtLimit tick s t (report_position-SameMachines tick s t at) h in
            rw (at, machines_fault tick t o p same, go) refl
      ]
