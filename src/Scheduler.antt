-- ===== src/Scheduler.antt =====
-- core/PlcScheduler.cpp: the loop that runs the logic once in a cycle, and its statistics. The clock and the
-- logic are parameters: a cycle gives the times that the loop reads, in nanoseconds, and the logic maps the variables
-- of the library at a tick.
pub mod Statistics
pub mod Deadlines
pub mod Controls
use v_plc_runtime.Shared.{
  ℕ, ◌+◌, ◌-◌, ◌%◌, ◌^◌, Bool, true, false, if◌then◌else◌, ◌==◌, ltb, List, [], ◌∷◌,
}
use v_plc_runtime.Memory.{PlcMemory}
use v_plc_runtime.Loader.{VarBinding, sync_inputs_to_dll, sync_outputs_from_dll}
use v_plc_runtime.Logic.Double.{Double, dec, of_nat, ◌⊕◌, ◌⊖◌, ◌≺◌}

-- `PlcScheduler::Stats`
pub record Stats (F : Type 0) : Type 0 where
  pub total_ticks : ℕ
  pub target_cycle_ms : F
  pub last_scan_time_ms : F
  pub avg_scan_time_ms : F
  pub max_scan_time_ms : F
  pub jitter_ms : F

-- The times that one turn of the loop reads: `start`, `end` and `now`.
pub record Cycle : Type 0 where
  pub start : ℕ
  pub finish : ℕ
  pub now : ℕ

-- What the loop keeps between two turns.
pub record LoopState (F : Type 0) : Type 0 where
  pub memory : PlcMemory
  pub bindings : List VarBinding
  pub tick : ℕ
  pub prev_start : ℕ
  pub next_wakeup : ℕ
  pub stats : Stats F

-- The next deadline, a period after the last: a missed one is taken to be now.
unfoldable pub next_deadline : ℕ → ℕ → ℕ → ℕ
next_deadline period next_wakeup now =
    let due = next_wakeup + period in if ltb due now then now else due

module _ {F : Type 0} ⦃d : Double F⦄ where
  -- `PlcScheduler::PlcScheduler`
  unfoldable pub new_stats : F → Stats F
  new_stats cycle_time_ms = record {
    total_ticks = 0;
    target_cycle_ms = cycle_time_ms;
    last_scan_time_ms = dec 0 0;
    avg_scan_time_ms = dec 0 0;
    max_scan_time_ms = dec 0 0;
    jitter_ms = dec 0 0;
  }

  -- `duration<double, std::milli>` of the time between two readings of a clock that does not go back.
  unfoldable pub milliseconds : ℕ → ℕ → F
  milliseconds from to = d.div (of_nat (to - from)) (dec 1000000 0)

  unfoldable pub scan_time : Cycle → F
  scan_time c = milliseconds c.start c.finish

  -- The deviation of a cycle; the first has none.
  unfoldable pub cycle_jitter : F → ℕ → ℕ → Cycle → F
  cycle_jitter target tick prev_start c =
      if ltb 1 tick then d.abs (milliseconds prev_start c.start ⊖ target) else dec 0 0

  -- A running average.
  unfoldable pub average : F → F → ℕ → F
  average avg value tick = avg ⊕ d.div (value ⊖ avg) (of_nat tick)

  unfoldable pub update_stats : ℕ → F → F → Stats F → Stats F
  update_stats tick time jitter s =
      if tick == 1
      then record s {
        total_ticks = tick;
        last_scan_time_ms = time;
        avg_scan_time_ms = time;
        max_scan_time_ms = time;
        jitter_ms = dec 0 0;
      }
      else record s {
        total_ticks = tick;
        last_scan_time_ms = time;
        avg_scan_time_ms = average s.avg_scan_time_ms time tick;
        max_scan_time_ms = if s.max_scan_time_ms ≺ time then time else s.max_scan_time_ms;
        jitter_ms = average s.jitter_ms jitter tick;
      }

  -- The `target` of the constructor, the `period` that it comes to in nanoseconds
  -- (`microseconds(static_cast<long long>(target_cycle_ms_ * 1000))`), and the two functions of the library.
  module _ (target : F) (period : ℕ) (init : List VarBinding → List VarBinding)
      (logic : ℕ → List VarBinding → List VarBinding) where
    -- A turn of the loop.
    unfoldable pub turn : Cycle → LoopState F → LoopState F
    turn c s =
        let tick = (s.tick + 1) % 2 ^ 64 in
        let (m, variables) = sync_inputs_to_dll s.memory s.bindings in
        let computed = logic tick variables in
        record {
          memory = sync_outputs_from_dll m computed;
          bindings = computed;
          tick = tick;
          prev_start = c.start;
          next_wakeup = next_deadline period s.next_wakeup c.now;
          stats = update_stats tick (scan_time c) (cycle_jitter target tick s.prev_start c) s.stats;
        }

    -- The state before the first turn, where the clock is read as `now` for the deadline; its other reading,
    -- `prev_start`, is set again before it is used.
    unfoldable pub boot : PlcMemory → List VarBinding → ℕ → LoopState F
    boot m bindings now = record {
      memory = sync_outputs_from_dll m (init bindings);
      bindings = init bindings;
      tick = 0;
      prev_start = now;
      next_wakeup = now;
      stats = new_stats target;
    }

    -- The loop, over the cycles until it is stopped.
    unfoldable pub turns : List Cycle → LoopState F → LoopState F
    turns [] s = s
    turns (c ∷ cs) s = turns cs (turn c s)
