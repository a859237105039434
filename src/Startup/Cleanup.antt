-- ===== src/Startup/Cleanup.antt =====
-- What runs when the start of the program has ended.
use v_plc_runtime.Shared.{
  ◌≡◌, refl, Bool, true, false, not, ◌&&◌, if◌then◌else◌, Text, either_branch,
}
use v_plc_runtime.Startup.{
  Options, Part, modbus, s7, mc, xgt, scheduler, tui, Running, nothing, enabled_parts, Started,
  returned, serving, start_tui, start_scheduler, start_xgt, start_mc, start_s7, start_modbus,
  start_all,
}

-- The program serves exactly the parts that are enabled, or returns 1 with none of them left running.
pub data AllOrNothing (e : Running) : Started → Type 0 where
  all : AllOrNothing e (serving e)
  none_left : AllOrNothing e (returned 1 nothing)

-- A stop under the condition of the start.
stopped : (b : Bool) → (if b then false else b) ≡ false
stopped true = refl
stopped false = refl

-- The enabled servers, of which `a`, `b`, `c` and `x` are in the order of their starts.
abbrev enabled : Bool → Bool → Bool → Bool → Running
enabled a b c x = record {
  modbus_runs = a;
  s7_runs = b;
  mc_runs = c;
  xgt_runs = x;
  scheduler_runs = true;
  tui_runs = true;
}

module _ (starts : Part → Bool) (a b c x : Bool) where
  abbrev e : Running
  e = enabled a b c x

  start_tui-AllOrNothing : AllOrNothing e (start_tui starts e (record e { tui_runs = false }))
  unfolding start_tui
  start_tui-AllOrNothing =
      either_branch (AllOrNothing e) (starts tui) _ _ (λ _. all) (λ _. none_left)

  start_scheduler-AllOrNothing :
      AllOrNothing e
        (start_scheduler starts e (record e { scheduler_runs = false; tui_runs = false }))
  unfolding start_scheduler
  start_scheduler-AllOrNothing =
      either_branch (AllOrNothing e) (starts scheduler) _ _ (λ _. start_tui-AllOrNothing)
        (λ _. rw (stopped a, stopped b, stopped c, stopped x) none_left)

  start_xgt-AllOrNothing :
      AllOrNothing e
        (start_xgt starts e (record nothing { modbus_runs = a; s7_runs = b; mc_runs = c }))
  unfolding start_xgt
  start_xgt-AllOrNothing =
      either_branch (AllOrNothing e) (x && not (starts xgt)) _ _
        (λ _. rw (stopped a, stopped b, stopped c) none_left) (λ _. start_scheduler-AllOrNothing)

  start_mc-AllOrNothing :
      AllOrNothing e (start_mc starts e (record nothing { modbus_runs = a; s7_runs = b }))
  unfolding start_mc
  start_mc-AllOrNothing =
      either_branch (AllOrNothing e) (c && not (starts mc)) _ _
        (λ _. rw (stopped a, stopped b) none_left) (λ _. start_xgt-AllOrNothing)

  start_s7-AllOrNothing : AllOrNothing e (start_s7 starts e (record nothing { modbus_runs = a }))
  unfolding start_s7
  start_s7-AllOrNothing =
      either_branch (AllOrNothing e) (b && not (starts s7)) _ _ (λ _. rw (stopped a) none_left)
        (λ _. start_mc-AllOrNothing)

  start_modbus-AllOrNothing : AllOrNothing e (start_modbus starts e nothing)
  unfolding start_modbus
  start_modbus-AllOrNothing =
      either_branch (AllOrNothing e) (a && not (starts modbus)) _ _ (λ _. none_left)
        (λ _. start_s7-AllOrNothing)

-- Whatever the options, whether the library loads, and whichever parts start: the program comes to its main loop with exactly
-- the listed servers, the scheduler and the interface running, or it returns 1 with none of them running.
pub start_all-AllOrNothing :
    (loads : Text → Bool) (starts : Part → Bool) (o : Options)
    → AllOrNothing (enabled_parts o.protocols_str) (start_all loads starts o)
unfolding start_all enabled_parts
start_all-AllOrNothing loads starts o =
    either_branch (AllOrNothing (enabled_parts o.protocols_str)) (loads o.lib_path) _ _
      (λ _. start_modbus-AllOrNothing starts _ _ _ _) (λ _. none_left)
