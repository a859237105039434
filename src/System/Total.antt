-- ===== src/System/Total.antt =====
-- No order of actions ends the program by a read behind a request, where the XGT server is sent no individual write.
use v_plc_runtime.Shared.{
  ℕ, ◌≡◌, ◌≢◌, ◌⊎◌, List, [], ◌∷◌, Option, none, some, ◌>>=◌, All, Allows, Yields, Yields-bind,
}
use v_plc_runtime.Memory.{PlcMemory}
use v_plc_runtime.Loader.{VarBinding}
use v_plc_runtime.Loader.Kept.{HoldsWord}
use v_plc_runtime.Modbus
use v_plc_runtime.Modbus.Total.{process_request-IsAnswer}
use v_plc_runtime.Mc
use v_plc_runtime.Mc.Total.{process_request-Answers}
use v_plc_runtime.Xgt
use v_plc_runtime.Xgt.Total.{command_of, data_type_of, process_request-IsResponse}
use v_plc_runtime.System.{
  System, Action, modbus_request, mc_request, xgt_request, web_request, key, s7_client, scan_step,
  sync_step, step, run,
}
use v_plc_runtime.System.Sound.{IsProper, IsSound, step-IsSound}

-- Any action but an individual write of the XGT protocol.
abbrev pub IsTame : Action → Type 0
IsTame (modbus_request request) = Unit
IsTame (mc_request request) = Unit
IsTame (xgt_request request) = (command_of request ≢ 0x0058) ⊎ (data_type_of request ≡ 0x0014)
IsTame (web_request opens request) = Unit
IsTame (key path c) = Unit
IsTame (s7_client pe pa db1 db2) = Unit
IsTame scan_step = Unit
IsTame sync_step = Unit

abbrev Exists {ℓ} : {A : Type ℓ} → Option A → Type 0
Exists o = Yields (λ _. Unit) o

Yields-of-Exists {ℓ} :
    {A : Type ℓ} (P : A → Type 0) (o : Option A) → Exists o → Allows P o → Yields P o
Yields-of-Exists P none e h = absurd e
Yields-of-Exists P (some a) e h = h

module _ (m : PlcMemory) (logic : ℕ → List VarBinding → List VarBinding)
    (computes_words : (tick : ℕ) (vs : List VarBinding)
      → All HoldsWord vs
      → All HoldsWord (logic tick vs)) where
  served-Exists :
      {B : Type 0} (P : PlcMemory × List ℕ → Type 0) (reply : Option (PlcMemory × List ℕ))
      (f : PlcMemory × List ℕ → B)
      → Yields P reply
      → Exists (reply >>= λ out. some (f out))
  served-Exists P none f h = absurd h
  served-Exists P (some out) f h = tt

  step-Exists : (a : Action) (s : System) → IsProper a → IsTame a → Exists (step logic a s)
  unfolding step
  step-Exists (modbus_request request) s b t =
      served-Exists _ (Modbus.process_request s.memory request) _
        (process_request-IsAnswer s.memory request b)
  step-Exists (mc_request request) s b t =
      served-Exists _ (Mc.process_request s.memory request) _
        (process_request-Answers s.memory request b)
  step-Exists (xgt_request request) s b t =
      served-Exists _ (Xgt.process_request s.memory request) _
        (process_request-IsResponse s.memory request b t)
  step-Exists (web_request opens request) s b t = tt
  step-Exists (key path c) s b t = tt
  step-Exists (s7_client pe pa db1 db2) s b t = tt
  step-Exists scan_step s b t = tt
  step-Exists sync_step s b t = tt

  -- Where the XGT server is sent no individual write, every order of actions runs to its end, and in a sound state: no request,
  -- whatever it claims, is read behind its end.
  pub run-Yields :
      (actions : List Action) (s : System)
      → All IsProper actions
      → All IsTame actions
      → IsSound m s
      → Yields (IsSound m) (run logic actions s)
  unfolding run
  run-Yields [] s p t h = h
  run-Yields (a ∷ actions) s p t h =
      Yields-bind (IsSound m) (IsSound m) (step logic a s) (run logic actions)
        (Yields-of-Exists (IsSound m) (step logic a s) (step-Exists a s p.0 t.0)
          (step-IsSound m logic computes_words a s p.0 h))
        λ s' h'. run-Yields actions s' p.1 t.1 h'
