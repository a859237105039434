-- ===== src/System/Lost.antt =====
-- A register that a client writes while a scan is in progress.
use v_plc_runtime.Shared.{
  ℕ, ◌^◌, ◌<◌, ◌≡◌, ◌≢◌, refl, ◌∙◌, ap, true, List, [], ◌∷◌, some, length, ◌>>=◌,
}
use v_plc_runtime.Memory.{PlcMemory, words, write_word, holding_registers_area}
use v_plc_runtime.Modbus.Registers.{write_register_pdu, process_request-write_register_pdu}
use v_plc_runtime.Loader.{VarBinding}
use v_plc_runtime.Loader.Lost.{has_register, sync_outputs_from_dll-write_word}
use v_plc_runtime.S7.{Buffers}
use v_plc_runtime.S7.Quiet.{IsSized}
use v_plc_runtime.S7.Clients.{sync_after_cycle_overwrites}
use v_plc_runtime.System.{
  ScanPhase, at_inputs, at_logic, at_outputs, System, Action, modbus_request, s7_client, sync_step,
  before_cycle, after_cycle, sync_once, scan_step, scan_once, step, run,
}

-- What is left of the scan in progress.
unfoldable pub finish : ScanPhase → List Action
finish at_inputs = []
finish at_logic = scan_step ∷ scan_step ∷ []
finish at_outputs = scan_step ∷ []

module _ (logic : ℕ → List VarBinding → List VarBinding) (i v : ℕ) (hi : i < 2 ^ 16)
    (hv : v < 2 ^ 16) where
  -- The state behind the request.
  run-modbus_request :
      (s : System) (actions : List Action)
      → i < length (words s.memory holding_registers_area)
      → run logic (modbus_request (write_register_pdu i v) ∷ actions) s
        ≡ run logic actions (record s { memory = write_word s.memory holding_registers_area i v })
  unfolding run step
  run-modbus_request s actions h =
      ap (λ o. (o >>= λ out. some (record s { memory = out.0 })) >>= run logic actions)
        (process_request-write_register_pdu s.memory i v hi hv h)

  lost_from :
      (p : ScanPhase) (s : System)
      → s.scan ≡ p
      → p ≢ at_inputs
      → ((tick : ℕ) (vs : List VarBinding) → has_register i (logic tick vs) ≡ has_register i vs)
      → has_register i s.variables ≡ true
      → run logic (finish p) (record s { memory = write_word s.memory holding_registers_area i v })
        ≡ run logic (finish p) s
  unfolding run step finish scan_once
  lost_from at_inputs s e ne keeps has = absurd (ne refl)
  lost_from at_outputs s e ne keeps has = rw e (
      ap (λ (n : PlcMemory). some (record s { memory = n; scan = at_inputs }))
        (sync_outputs_from_dll-write_word s.memory s.variables i v has))
  lost_from at_logic s e ne keeps has = rw e (
      ap
        (λ (n : PlcMemory).
          some (record s { memory = n; variables = logic s.tick s.variables; scan = at_inputs }))
        (sync_outputs_from_dll-write_word s.memory (logic s.tick s.variables) i v
          (keeps s.tick s.variables ∙ has)))

  -- A client writes a register that the logic has a variable of, while a scan is in progress: at the end of the scan the state is as if the
  -- client had not written. The logic keeps its variables' addresses.
  pub write_in_scan_lost :
      (s : System)
      → s.scan ≢ at_inputs
      → ((tick : ℕ) (vs : List VarBinding) → has_register i (logic tick vs) ≡ has_register i vs)
      → has_register i s.variables ≡ true
      → i < length (words s.memory holding_registers_area)
      → run logic (modbus_request (write_register_pdu i v) ∷ finish s.scan) s
        ≡ run logic (finish s.scan) s
  write_in_scan_lost s ne keeps has h =
      run-modbus_request s (finish s.scan) h ∙ lost_from s.scan s refl ne keeps has

-- A client's write of registers between the two copies of the S7 server leaves no trace.
pub client_write_lost :
    (logic : ℕ → List VarBinding → List VarBinding) (s : System) (db1 db2 : List ℕ)
    → s.sync ≡ after_cycle
    → IsSized s.buffers
    → length db1 ≡ 2048
    → length db2 ≡ 2048
    → run logic (s7_client s.buffers.pe s.buffers.pa db1 db2 ∷ sync_step ∷ []) s
      ≡ run logic (sync_step ∷ []) s
unfolding run step sync_once
client_write_lost logic s db1 db2 e h h1 h2 = rw e (
    ap (λ (b : Buffers). some (record s { buffers = b; sync = before_cycle }))
      (sync_after_cycle_overwrites s.memory s.buffers db1 db2 h h1 h2))
