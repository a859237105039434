-- ===== src/Scheduler/Statistics.antt =====
-- The statistics of the loop.
use v_plc_runtime.Shared.{
  ℕ, ◌+◌, ◌%◌, ◌^◌, ◌≡◌, ◌≤◌, ◌<◌, refl, ◌∙◌, sym, true, false, List, [], ◌∷◌, ◌++◌, length, arith,
}
use v_plc_runtime.Memory.{PlcMemory}
use v_plc_runtime.Loader.{VarBinding}
use v_plc_runtime.Logic.Double.{Double, ◌≺◌}
use v_plc_runtime.Scheduler.{
  Cycle, LoopState, new_stats, scan_time, update_stats, turn, boot, turns,
}

module _ {F : Type 0} ⦃d : Double F⦄ (target : F) (period : ℕ)
    (init : List VarBinding → List VarBinding) (logic : ℕ → List VarBinding → List VarBinding) where
  turns-append :
      (xs ys : List Cycle) (s : LoopState F)
      → turns target period init logic (xs ++ ys) s
        ≡ turns target period init logic ys (turns target period init logic xs s)
  unfolding turns
  turns-append [] ys s = refl
  turns-append (x ∷ xs) ys s = turns-append xs ys (turn target period init logic x s)

  -- The ticks count the turns.
  turn-tick :
      (c : Cycle) (s : LoopState F)
      → ((turn target period init logic c s).tick ≡ (s.tick + 1) % 2 ^ 64)
        × ((turn target period init logic c s).stats.total_ticks ≡ (s.tick + 1) % 2 ^ 64)
  unfolding turn update_stats
  turn-tick c s = ground arith

  turns-tick :
      (cs : List Cycle) (s : LoopState F)
      → s.tick + length cs < 2 ^ 64
      → s.stats.total_ticks ≡ s.tick
      → ((turns target period init logic cs s).tick ≡ s.tick + length cs)
        × ((turns target period init logic cs s).stats.total_ticks ≡ s.tick + length cs)
  unfolding turns
  turns-tick [] s h e = (ground arith, ground arith)
  turns-tick (c ∷ cs) s h e =
      let (t, u) = turn-tick c s in
      let (a, b) = turns-tick cs (turn target period init logic c s) (ground arith) (u ∙ sym t) in
      (ground arith, ground arith)

  module _ (irreflexive : (x : F) → (x ≺ x) ≡ false)
      (transitive : (x y z : F) → (x ≺ y) ≡ true → (y ≺ z) ≡ true → (x ≺ z) ≡ true) where
    -- A bound of the longest time stays one.
    turn_keeps :
        (c : Cycle) (s : LoopState F) (x : F)
        → 1 ≤ s.tick
        → s.tick + 1 < 2 ^ 64
        → (s.stats.max_scan_time_ms ≺ x) ≡ false
        → ((turn target period init logic c s).stats.max_scan_time_ms ≺ x) ≡ false
    unfolding turn update_stats
    turn_keeps c s x one small h =
        ground (arith, transitive s.stats.max_scan_time_ms (scan_time c) x)

    turn_own :
        (c : Cycle) (s : LoopState F)
        → ((turn target period init logic c s).stats.max_scan_time_ms ≺ scan_time c) ≡ false
    unfolding turn update_stats
    turn_own c s = ground (arith, irreflexive (scan_time c))

    turns_keep :
        (cs : List Cycle) (s : LoopState F) (x : F)
        → 1 ≤ s.tick
        → s.tick + length cs < 2 ^ 64
        → (s.stats.max_scan_time_ms ≺ x) ≡ false
        → ((turns target period init logic cs s).stats.max_scan_time_ms ≺ x) ≡ false
    unfolding turns
    turns_keep [] s x one small h = h
    turns_keep (c ∷ cs) s x one small h =
        let (t, u) = turn-tick c s in
        turns_keep cs (turn target period init logic c s) x (ground arith) (ground arith)
          (turn_keeps c s x one (ground arith) h)

    -- Where `<` on doubles is irreflexive and transitive: after fewer than 2 ^ 64 turns from the start, the longest scan
    -- time of the statistics is not below the scan time of any of these turns.
    pub max_scan_time_bounds :
        (m : PlcMemory) (bindings : List VarBinding) (start : ℕ) (earlier later : List Cycle)
        (c : Cycle)
        → length earlier + length later + 1 < 2 ^ 64
        → ((turns target period init logic
              (earlier ++ (c ∷ later))
              (boot target period init logic m bindings start)).stats.max_scan_time_ms
            ≺ scan_time c)
          ≡ false
    unfolding turns boot new_stats
    max_scan_time_bounds m bindings start earlier later c small =
        let first : LoopState F =
          turns target period init logic earlier (boot target period init logic m bindings start) in
        let (k, _) =
          turns-tick earlier (boot target period init logic m bindings start) (ground arith) refl in
        let (t, _) = turn-tick c first in
        rw (turns-append earlier (c ∷ later) (boot target period init logic m bindings start)) (
          turns_keep later (turn target period init logic c first) (scan_time c) (ground arith)
            (ground arith) (turn_own c first))
