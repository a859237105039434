-- ===== src/System/Delivery.antt =====
-- A value that a client leaves at the source of a mapping comes to the logic.
use v_plc_runtime.Shared.{
  ℕ, ◌≤◌, ◌≡◌, ◌≢◌, refl, ◌∙◌, sym, ap, true, List, some, get_elem?, replicate, All, Yields, subst,
  arith,
}
use v_plc_runtime.Memory.{PlcMemory, MappingRule, holding_registers_area, read_word}
use v_plc_runtime.Memory.Values.{read_value}
use v_plc_runtime.Memory.Cells.{word_cell, cell_of}
use v_plc_runtime.Memory.Sync.{sync_mappings}
use v_plc_runtime.Memory.Rules
use v_plc_runtime.Memory.Passes.{Separate, All-IsSound-SameShape}
use v_plc_runtime.Memory.Repeat.{sync_mappings_twice}
use v_plc_runtime.Loader.{VarBinding, store_outputs, sync_inputs_to_dll, sync_outputs_from_dll}
use v_plc_runtime.Loader.Kept.{HoldsWord, store_outputs-IsKept}
use v_plc_runtime.Loader.Delivery.{
  is_foreign, Shows, load_inputs-Shows, read_value-store_outputs_foreign, mappings-store_outputs,
  read_word-sync_mappings,
}
use v_plc_runtime.System.{
  ScanPhase, at_inputs, at_logic, at_outputs, System, scan_step, scan_once, step, run,
}
use v_plc_runtime.System.Sound.{IsSound}

-- The rule stands in the memory's list, and feeds register `i`; its source lies outside the loader's areas and has changed since the last pass.
pub record Feeds (m : PlcMemory) (rule : MappingRule) (k i : ℕ) : Type 0 where
  pub sound : All (Rules.IsSound m) m.mappings
  pub apart : Separate m.mappings
  pub present : get_elem? m.mappings k ≡ some rule
  pub foreign : is_foreign (cell_of rule.src) ≡ true
  pub register : cell_of rule.dst ≡ some (word_cell holding_registers_area i)
  pub changed : read_value m rule.src ≢ rule.last_src_val

module _ (rule : MappingRule) (k i : ℕ) where
  -- The copies of the variables to the memory leave the rule as it is.
  store_outputs-Feeds :
      (m : PlcMemory) (vs : List VarBinding)
      → All HoldsWord vs
      → Feeds m rule k i
      → Feeds (store_outputs m vs) rule k i
  store_outputs-Feeds m vs w h =
      let same : (store_outputs m vs).mappings ≡ m.mappings = mappings-store_outputs m vs in
      record {
        sound =
            subst (All (Rules.IsSound (store_outputs m vs))) (sym same)
              (All-IsSound-SameShape m.mappings (store_outputs-IsKept m vs w).shape h.sound);
        apart = subst Separate (sym same) h.apart;
        present = ap (λ rs. get_elem? rs k) same ∙ h.present;
        foreign = h.foreign;
        register = h.register;
        changed = rw (read_value-store_outputs_foreign m vs rule.src h.foreign) h.changed;
      }

  read_word-Feeds :
      (m : PlcMemory)
      → Feeds m rule k i
      → read_word (sync_mappings m) holding_registers_area i ≡ read_value m rule.src
  read_word-Feeds m h =
      read_word-sync_mappings m k i rule h.sound h.apart h.present h.register h.changed

  module _ (m : PlcMemory) (logic : ℕ → List VarBinding → List VarBinding)
      (computes_words : (tick : ℕ) (vs : List VarBinding)
        → All HoldsWord vs
        → All HoldsWord (logic tick vs)) where
    -- The end of a scan and the start of the next.
    next_inputs :
        (s : System)
        → All HoldsWord s.variables
        → Feeds s.memory rule k i
        → All
            (Shows i (read_value s.memory rule.src))
            (scan_once logic at_inputs (scan_once logic at_outputs s)).variables
    unfolding scan_once sync_inputs_to_dll sync_outputs_from_dll
    next_inputs s w h =
        let m1 : PlcMemory = store_outputs s.memory s.variables in
        let h1 : Feeds m1 rule k i = store_outputs-Feeds s.memory s.variables w h in
        load_inputs-Shows (sync_mappings (sync_mappings m1)) s.variables i
          (read_value s.memory rule.src)
          (rw (sync_mappings_twice m1 h1.sound h1.apart) (
            read_word-Feeds m1 h1
            ∙ read_value-store_outputs_foreign s.memory s.variables rule.src h.foreign))

    delivered_from :
        (p : ScanPhase) (s : System)
        → s.scan ≡ p
        → IsSound m s
        → Feeds s.memory rule k i
        → (n : ℕ) × (n ≤ 3)
          × Yields
              (λ t. All (Shows i (read_value s.memory rule.src)) t.variables)
              (run logic (replicate n scan_step) s)
    unfolding run step
    delivered_from at_inputs s e h f = (
      1,
      omega arith,
      rw e (
          unfold scan_once sync_inputs_to_dll in
          load_inputs-Shows (sync_mappings s.memory) s.variables i (read_value s.memory rule.src)
            (read_word-Feeds s.memory f)),
    )
    delivered_from at_outputs s e h f =
        (2, omega arith, rw e (unfold scan_once in next_inputs s h.variables f))
    delivered_from at_logic s e h f = (
      3,
      omega arith,
      rw e (
          unfold scan_once in
          next_inputs (scan_once logic at_logic s) (computes_words s.tick s.variables h.variables)
            f),
    )

    -- The source of a rule has changed since the last pass, and the rule feeds register `i`; the rules are sound and share no cell, and the
    -- source lies outside the coils, inputs and registers. Wherever the scan stands, after at most three more of its steps, with no other
    -- action between them, every variable of register `i` holds the source's value.
    pub scans_deliver :
        (s : System)
        → IsSound m s
        → Feeds s.memory rule k i
        → (n : ℕ) × (n ≤ 3)
          × Yields
              (λ t. All (Shows i (read_value s.memory rule.src)) t.variables)
              (run logic (replicate n scan_step) s)
    scans_deliver s h f = delivered_from s.scan s refl h f
