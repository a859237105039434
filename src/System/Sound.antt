-- ===== src/System/Sound.antt =====
-- What every state of the running program satisfies, whatever order its threads act in.
use v_plc_runtime.Shared.{
  ℕ, ◌≡◌, Bool, List, [], ◌∷◌, Option, some, ◌>>=◌, Text, length, All, IsBytes, Allows, Allows-bind,
  Allows-of-Yields, either_branch,
}
use v_plc_runtime.Memory.{PlcMemory}
use v_plc_runtime.Memory.Shape.{SameShape, SameShape-trans, IsValid, IsKept, IsKept-refl}
use v_plc_runtime.Loader.{VarBinding}
use v_plc_runtime.Loader.Kept.{
  HoldsWord, sync_inputs_to_dll-IsKept, sync_inputs_to_dll-HoldsWord, sync_outputs_from_dll-IsKept,
}
use v_plc_runtime.Modbus
use v_plc_runtime.Modbus.Total.{process_request-IsAnswer}
use v_plc_runtime.Mc
use v_plc_runtime.Mc.Total.{process_request-Answers}
use v_plc_runtime.Xgt
use v_plc_runtime.Xgt.Kept.{process_request-Allows}
use v_plc_runtime.S7.Quiet.{IsSized}
use v_plc_runtime.S7.Kept.{
  IsBacked, sync_before_cycle-IsKept, sync_before_cycle-IsBacked, sync_after_cycle-IsBacked,
}
use v_plc_runtime.Tags.Config.{IsConfig}
use v_plc_runtime.Web.{Request, Site}
use v_plc_runtime.Web.Kept.{handle-IsKept, handle-IsConfig}
use v_plc_runtime.Tui.{Console}
use v_plc_runtime.Tui.Kept.{handle_key-IsKept}
use v_plc_runtime.System.{
  ScanPhase, at_inputs, at_logic, at_outputs, SyncPhase, before_cycle, after_cycle, System, Action,
  modbus_request, mc_request, xgt_request, web_request, key, s7_client, scan_step, sync_step,
  sync_once, web_once, key_once, scan_once, step, run,
}

-- A request is made of bytes; a client of the S7 server leaves bytes in buffers of the same size.
abbrev pub IsProper : Action → Type 0
IsProper (modbus_request request) = IsBytes request
IsProper (mc_request request) = IsBytes request
IsProper (xgt_request request) = IsBytes request
IsProper (web_request opens request) = Unit
IsProper (key path c) = Unit
IsProper (s7_client pe pa db1 db2) =
    ((length db1 ≡ 2048) × (length db2 ≡ 2048)) × (IsBytes db1 × IsBytes db2)
IsProper scan_step = Unit
IsProper sync_step = Unit

-- The memory has the sizes of `m` and its words are 16-bit values; so are the variables of the logic; the buffers of the S7
-- server are of their sizes and hold bytes; no two tags have one name, and no tag lacks a field.
pub record IsSound (m : PlcMemory) (s : System) : Type 0 where
  pub shape : SameShape m s.memory
  pub valid : IsValid s.memory
  pub variables : All HoldsWord s.variables
  pub buffers : IsBacked s.buffers
  pub tags : IsConfig s.tags

module _ (m : PlcMemory) where
  -- A state whose memory keeps what the old one had.
  moved :
      (s t : System)
      → IsSound m s
      → IsKept s.memory t.memory
      → All HoldsWord t.variables
      → IsBacked t.buffers
      → IsConfig t.tags
      → IsSound m t
  moved s t h k variables buffers tags = record {
    shape = SameShape-trans h.shape k.shape;
    valid = k.valid h.valid;
    variables = variables;
    buffers = buffers;
    tags = tags;
  }

  sync_once-IsSound : (p : SyncPhase) (s : System) → IsSound m s → IsSound m (sync_once p s)
  unfolding sync_once
  sync_once-IsSound before_cycle s h =
      moved s (sync_once before_cycle s) h
        (sync_before_cycle-IsKept s.memory s.buffers h.buffers.db1_bytes h.buffers.db2_bytes)
        h.variables (sync_before_cycle-IsBacked s.memory s.buffers h.buffers) h.tags
  sync_once-IsSound after_cycle s h =
      moved s (sync_once after_cycle s) h (IsKept-refl s.memory) h.variables
        (sync_after_cycle-IsBacked s.memory s.buffers h.buffers) h.tags

  web_once-IsSound :
      (opens : Bool) (r : Request) (s : System) → IsSound m s → IsSound m (web_once opens r s)
  unfolding web_once
  web_once-IsSound opens r s h =
      let site : Site = record { memory = s.memory; tags = s.tags; saved = s.saved } in
      moved s (web_once opens r s) h (handle-IsKept opens r site) h.variables h.buffers
        (handle-IsConfig opens r site h.tags)

  key_once-IsSound :
      (path : Text) (c : ℕ) (s : System) → IsSound m s → IsSound m (key_once path c s)
  unfolding key_once
  key_once-IsSound path c s h =
      let console : Console = record { memory = s.memory; is_running = s.is_running } in
      either_branch (IsSound m) s.is_running _ _
        (λ _. moved s _ h (handle_key-IsKept console h.valid path c) h.variables h.buffers h.tags)
        (λ _. h)

  module _ (logic : ℕ → List VarBinding → List VarBinding)
      (computes_words : (tick : ℕ) (vs : List VarBinding)
        → All HoldsWord vs
        → All HoldsWord (logic tick vs)) where
    scan_once-IsSound : (p : ScanPhase) (s : System) → IsSound m s → IsSound m (scan_once logic p s)
    unfolding scan_once
    scan_once-IsSound at_inputs s h =
        moved s (scan_once logic at_inputs s) h (sync_inputs_to_dll-IsKept s.memory s.variables)
          (sync_inputs_to_dll-HoldsWord s.memory s.variables h.valid h.variables) h.buffers h.tags
    scan_once-IsSound at_logic s h =
        moved s (scan_once logic at_logic s) h (IsKept-refl s.memory)
          (computes_words s.tick s.variables h.variables) h.buffers h.tags
    scan_once-IsSound at_outputs s h =
        moved s (scan_once logic at_outputs s) h
          (sync_outputs_from_dll-IsKept s.memory s.variables h.variables) h.variables h.buffers
          h.tags

    -- A server's answer comes with the new memory.
    served-IsSound :
        (s : System) (reply : Option (PlcMemory × List ℕ))
        → IsSound m s
        → Allows (λ out. IsKept s.memory out.0) reply
        → Allows (IsSound m) (reply >>= λ out. some (record s { memory = out.0 }))
    served-IsSound s reply h k =
        Allows-bind (λ out. IsKept s.memory out.0) (IsSound m) reply
          (λ out. some (record s { memory = out.0 })) k
          λ out kept. moved s _ h kept h.variables h.buffers h.tags

    pub step-IsSound :
        (a : Action) (s : System) → IsProper a → IsSound m s → Allows (IsSound m) (step logic a s)
    unfolding step
    step-IsSound (modbus_request request) s b h =
        served-IsSound s (Modbus.process_request s.memory request) h (
          Allows-of-Yields _ _ (Modbus.process_request s.memory request)
            (λ out k. record { shape = k.shape; valid = k.valid })
            (process_request-IsAnswer s.memory request b))
    step-IsSound (mc_request request) s b h =
        served-IsSound s (Mc.process_request s.memory request) h (
          Allows-of-Yields _ _ (Mc.process_request s.memory request)
            (λ out k. record { shape = k.shape; valid = k.valid })
            (process_request-Answers s.memory request b))
    step-IsSound (xgt_request request) s b h =
        served-IsSound s (Xgt.process_request s.memory request) h
          (process_request-Allows request b s.memory)
    step-IsSound (web_request opens request) s b h = web_once-IsSound opens request s h
    step-IsSound (key path c) s b h = key_once-IsSound path c s h
    step-IsSound (s7_client pe pa db1 db2) s b h =
        let shadows = h.buffers.sized in
        let sized : IsSized (record s.buffers { pe = pe; pa = pa; db1 = db1; db2 = db2 }) = record {
          db1 = b.0.0;
          db1_shadow = shadows.db1_shadow;
          db2 = b.0.1;
          db2_shadow = shadows.db2_shadow;
        } in
        moved s _ h (IsKept-refl s.memory) h.variables
          (record { sized = sized; db1_bytes = b.1.0; db2_bytes = b.1.1 }) h.tags
    step-IsSound scan_step s b h = scan_once-IsSound s.scan s h
    step-IsSound sync_step s b h = sync_once-IsSound s.sync s h

    -- Whatever order the threads act in, every state that the program comes to has a memory of the sizes that it started with, whose words
    -- are 16-bit values; so are the variables of the logic, if the logic computes such; the buffers of DB1 and DB2 keep their sizes and hold
    -- bytes; no two tags have one name, and none lacks a field. A request is made of bytes; a read behind a request (`none`) ends the run.
    pub run-IsSound :
        (actions : List Action) (s : System)
        → All IsProper actions
        → IsSound m s
        → Allows (IsSound m) (run logic actions s)
    unfolding run
    run-IsSound [] s p h = h
    run-IsSound (a ∷ actions) s p h =
        Allows-bind (IsSound m) (IsSound m) (step logic a s) (run logic actions)
          (step-IsSound a s p.0 h) λ t ht. run-IsSound actions t p.1 ht
