-- ===== src/System/Start.antt =====
-- The state in which the threads begin, as main.cpp leaves it, and what follows for every state of the program.
use v_plc_runtime.Shared.{
  ℕ, ◌≡◌, Bool, true, not, List, Option, Text, replicate, length-replicate, All, All-replicate,
  IsByte, IsWord, Allows, arith,
}
use v_plc_runtime.Memory.{
  PlcMemory, WordArea, input_registers_area, discrete_inputs_area, words, new_memory, write_bit,
  write_word,
}
use v_plc_runtime.Memory.Shape.{IsKept, IsKept-trans}
use v_plc_runtime.Memory.Kept.{write_bit-IsKept, write_word-IsKept, load_mappings-IsKept}
use v_plc_runtime.Memory.Load.{MappingsFile, load_mappings}
use v_plc_runtime.Loader.{VarBinding, resolve_bindings}
use v_plc_runtime.Loader.Kept.{HoldsWord}
use v_plc_runtime.S7.{Buffers}
use v_plc_runtime.S7.Kept.{IsBacked}
use v_plc_runtime.Tags.{PlcTag, load_tags}
use v_plc_runtime.Tags.Names.{unique_names}
use v_plc_runtime.Tags.Config.{load_tags-IsComplete}
use v_plc_runtime.System.{System, Action, at_outputs, before_cycle, run}
use v_plc_runtime.System.Sound.{IsProper, IsSound, run-IsSound}

-- The memory of `main`, in the default sizes.
unfoldable pub main_memory : PlcMemory
main_memory = new_memory 2048 2048 1024 1024

-- The constructor of the S7 server.
unfoldable pub new_buffers : Buffers
new_buffers = record {
  pe = replicate 256 0;
  pa = replicate 256 0;
  db1 = replicate 2048 0;
  db1_shadow = replicate 2048 0;
  db2 = replicate 2048 0;
  db2_shadow = replicate 2048 0;
}

-- `main` up to the start of the threads, with the files as they are parsed, the symbols of the library and what its
-- `initLogic` does to its variables, which is the first thing in `PlcScheduler::loop`; the copy to the memory comes next.
unfoldable pub started :
    MappingsFile
    → List (Option PlcTag)
    → (Text → Option ℕ)
    → (List VarBinding → List VarBinding)
    → Bool
    → System
started mappings config dlsym init manual_mode = record {
  memory =
      write_word
        (write_bit (load_mappings main_memory mappings).0 discrete_inputs_area 0 (not manual_mode))
        input_registers_area 0 0;
  variables = init (resolve_bindings dlsym);
  tick = 0;
  scan = at_outputs;
  buffers = new_buffers;
  sync = before_cycle;
  tags = (load_tags config).0;
  saved = mappings;
  is_running = true;
}

words-main_memory : (a : WordArea) → All IsWord (words main_memory a)
unfolding words main_memory new_memory
words-main_memory input_registers_area = All-replicate IsWord 1024 0 (omega arith)
words-main_memory _ = All-replicate IsWord 1024 0 (omega arith)

new_buffers-IsBacked : IsBacked new_buffers
unfolding new_buffers
new_buffers-IsBacked =
    let size = length-replicate {A = ℕ} 2048 0 in
    record {
      sized = record { db1 = size; db1_shadow = size; db2 = size; db2_shadow = size };
      db1_bytes = All-replicate IsByte 2048 0 (omega arith);
      db2_bytes = All-replicate IsByte 2048 0 (omega arith);
    }

module _ (mappings : MappingsFile) (config : List (Option PlcTag)) (dlsym : Text → Option ℕ)
    (init : List VarBinding → List VarBinding) (manual_mode : Bool)
    (starts_words : All HoldsWord (init (resolve_bindings dlsym)))
    (one_tag_each : unique_names (load_tags config).0 ≡ true) where
  started-IsSound : IsSound main_memory (started mappings config dlsym init manual_mode)
  unfolding started
  started-IsSound =
      let loaded : PlcMemory = (load_mappings main_memory mappings).0 in
      let switched : PlcMemory = write_bit loaded discrete_inputs_area 0 (not manual_mode) in
      let kept : IsKept main_memory (write_word switched input_registers_area 0 0) =
        IsKept-trans (load_mappings-IsKept main_memory mappings) (
          IsKept-trans (write_bit-IsKept loaded discrete_inputs_area 0 (not manual_mode))
            (write_word-IsKept switched input_registers_area 0 0 (omega arith))) in
      record {
        shape = kept.shape;
        valid = kept.valid (record { in_range = words-main_memory });
        variables = starts_words;
        buffers = new_buffers-IsBacked;
        tags = record { unique = one_tag_each; complete = load_tags-IsComplete config };
      }

  -- From the start of the program, whatever the files hold and the library has, and whatever order the threads act in, every state has a
  -- memory of the default sizes with 16-bit words, variables of 16-bit values, buffers of DB1 and DB2 of their sizes that hold bytes, one tag
  -- for each name and no tag that lacks a field. The logic computes 16-bit values, the configuration file has one tag for each name, and a
  -- request is made of bytes; a read behind a request (`none`) ends the run.
  pub run_started-IsSound :
      (logic : ℕ → List VarBinding → List VarBinding)
      → ((tick : ℕ) (vs : List VarBinding) → All HoldsWord vs → All HoldsWord (logic tick vs))
      → (actions : List Action) → All IsProper actions
      → Allows
          (IsSound main_memory)
          (run logic actions (started mappings config dlsym init manual_mode))
  run_started-IsSound logic computes_words actions p =
      run-IsSound main_memory logic computes_words actions
        (started mappings config dlsym init manual_mode) p started-IsSound
