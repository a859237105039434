-- ===== src/Scheduler/Deadlines.antt =====
-- The deadlines of the loop.
use v_plc_runtime.Shared.{ℕ, suc, ◌+◌, ◌*◌, ◌≡◌, ◌≤◌, ◌∙◌, ap, List, [], ◌∷◌, length, arith}
use v_plc_runtime.Memory.{PlcMemory}
use v_plc_runtime.Loader.{VarBinding}
use v_plc_runtime.Logic.Double.{Double}
use v_plc_runtime.Scheduler.{Cycle, LoopState, next_deadline, turn, boot, turns}

-- Cycles that each end, with their computation, no later than the deadline of the next, the first of which is a period after
-- the time given.
pub data IsOnTime (period : ℕ) : ℕ → List Cycle → Type 0 where
  stopped : {due : ℕ} → IsOnTime period due []
  met :
      {due : ℕ} {c : Cycle} {cs : List Cycle}
      → c.now ≤ due + period
      → IsOnTime period (due + period) cs
      → IsOnTime period due (c ∷ cs)

after_one : (period w n : ℕ) → w + period + n * period ≡ w + suc n * period
after_one period w n = ground arith

module _ {F : Type 0} ⦃d : Double F⦄ (target : F) (period : ℕ)
    (init : List VarBinding → List VarBinding) (logic : ℕ → List VarBinding → List VarBinding) where
  turn-met :
      (c : Cycle) (s : LoopState F)
      → c.now ≤ s.next_wakeup + period
      → (turn target period init logic c s).next_wakeup ≡ s.next_wakeup + period
  unfolding turn next_deadline
  turn-met c s h = ground arith

  turns-met :
      (cs : List Cycle) (s : LoopState F)
      → IsOnTime period s.next_wakeup cs
      → (turns target period init logic cs s).next_wakeup ≡ s.next_wakeup + length cs * period
  unfolding turns
  turns-met [] s h = ground arith
  turns-met (c ∷ cs) s (met h k) =
      let e = turn-met c s h in
      let rest = turns-met cs (turn target period init logic c s) (rw e k) in
      rest ∙ (ap (λ n. n + length cs * period) e ∙ after_one period s.next_wakeup (length cs))

  -- When no cycle misses its deadline, the wake-up after any number of turns lies that number of periods after
  -- the start of the loop.
  pub next_wakeup_on_time :
      (m : PlcMemory) (bindings : List VarBinding) (start : ℕ) (cs : List Cycle)
      → IsOnTime period start cs
      → (turns target period init logic cs
          (boot target period init logic m bindings start)).next_wakeup
        ≡ start + length cs * period
  unfolding boot
  next_wakeup_on_time m bindings start cs h =
      turns-met cs (boot target period init logic m bindings start) h
