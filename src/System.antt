-- ===== src/System.antt =====
-- main.cpp, with the threads that it starts: the scheduler, the four servers, the web server and the keys act on one
-- memory. A step is one action of one of them, in any order: a server's request, one of the three parts of a scan
-- (PlcScheduler.cpp, `loop`), one of the two copies of the S7 server (S7Server.cpp, `syncLoop`). The library of the
-- logic and the S7 library are parameters.
pub mod Sound
pub mod Total
pub mod Start
pub mod Delivery
pub mod Lost
use v_plc_runtime.Shared.{
  ℕ, ◌+◌, ◌%◌, ◌^◌, Bool, List, [], ◌∷◌, Option, none, some, ◌>>=◌, Text, if◌then◌else◌,
}
use v_plc_runtime.Memory.{PlcMemory}
use v_plc_runtime.Memory.Load.{MappingsFile}
use v_plc_runtime.Loader.{VarBinding, sync_inputs_to_dll, sync_outputs_from_dll}
use v_plc_runtime.Modbus
use v_plc_runtime.Mc
use v_plc_runtime.Xgt
use v_plc_runtime.S7.{Buffers, sync_before_cycle, sync_after_cycle}
use v_plc_runtime.Tags.{PlcTag}
use v_plc_runtime.Web.{Request, Site, handle}
use v_plc_runtime.Tui.{Console, handle_key}

-- Where the loop of the scheduler stands.
pub data ScanPhase : Type 0 where
  at_inputs : ScanPhase
  at_logic : ScanPhase
  at_outputs : ScanPhase

-- Where the loop of the S7 server stands.
pub data SyncPhase : Type 0 where
  before_cycle : SyncPhase
  after_cycle : SyncPhase

-- What the threads share, and where their loops stand; `saved` is mappings.json.
pub record System : Type 0 where
  pub memory : PlcMemory
  pub variables : List VarBinding
  pub tick : ℕ
  pub scan : ScanPhase
  pub buffers : Buffers
  pub sync : SyncPhase
  pub tags : List PlcTag
  pub saved : MappingsFile
  pub is_running : Bool

-- One action of a thread. A write of an S7 client is the contents that the S7 library leaves in its buffers.
pub data Action : Type 0 where
  modbus_request : List ℕ → Action
  mc_request : List ℕ → Action
  xgt_request : List ℕ → Action
  web_request : Bool → Request → Action
  key : Text → ℕ → Action
  s7_client : List ℕ → List ℕ → List ℕ → List ℕ → Action
  scan_step : Action
  sync_step : Action

-- One round of `syncLoop` in two steps.
unfoldable pub sync_once : SyncPhase → System → System
sync_once before_cycle s =
    let (m, b) = sync_before_cycle s.memory s.buffers in
    record s { memory = m; buffers = b; sync = after_cycle }
sync_once after_cycle s = record s {
  buffers = sync_after_cycle s.memory s.buffers;
  sync = before_cycle;
}

unfoldable pub web_once : Bool → Request → System → System
web_once opens request s =
    let site =
      (handle opens request (record { memory = s.memory; tags = s.tags; saved = s.saved })).0 in
    record s { memory = site.memory; tags = site.tags; saved = site.saved }

-- The thread of the keys ends with the key that quits.
unfoldable pub key_once : Text → ℕ → System → System
key_once path c s =
    let console : Console =
      handle_key path c (record { memory = s.memory; is_running = s.is_running }) in
    if s.is_running
    then record s { memory = console.memory; is_running = console.is_running }
    else s

module _ (logic : ℕ → List VarBinding → List VarBinding) where
  -- One round of `PlcScheduler::loop` in three steps.
  unfoldable pub scan_once : ScanPhase → System → System
  scan_once at_inputs s =
      let (m, variables) = sync_inputs_to_dll s.memory s.variables in
      record s { memory = m; variables = variables; tick = (s.tick + 1) % 2 ^ 64; scan = at_logic }
  scan_once at_logic s = record s { variables = logic s.tick s.variables; scan = at_outputs }
  scan_once at_outputs s = record s {
    memory = sync_outputs_from_dll s.memory s.variables;
    scan = at_inputs;
  }

  -- The state behind an action; `none` is an XGT request that reads behind its packet, which C++ leaves undefined.
  unfoldable pub step : Action → System → Option System
  step (modbus_request request) s = do
    out ← Modbus.process_request s.memory request
    some (record s { memory = out.0 })
  step (mc_request request) s = do
    out ← Mc.process_request s.memory request
    some (record s { memory = out.0 })
  step (xgt_request request) s = do
    out ← Xgt.process_request s.memory request
    some (record s { memory = out.0 })
  step (web_request opens request) s = some (web_once opens request s)
  step (key path c) s = some (key_once path c s)
  step (s7_client pe pa db1 db2) s =
      some (record s { buffers = record s.buffers { pe = pe; pa = pa; db1 = db1; db2 = db2 } })
  step scan_step s = some (scan_once s.scan s)
  step sync_step s = some (sync_once s.sync s)

  -- The actions one after the other, in the order in which the threads come to act.
  unfoldable pub run : List Action → System → Option System
  run [] s = some s
  run (a ∷ actions) s = do t ← step a s; run actions t
