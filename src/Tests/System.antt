-- ===== src/Tests/System.antt =====
-- The theorems on the running program, applied: a rule feeds register 0 from the word D1, and the logic has one variable.
use v_plc_runtime.Shared.{
  ℕ, ◌≤◌, ◌≡◌, refl, true, List, [], ◌∷◌, All, IsWord, IsByte, replicate, length-replicate,
  All-replicate, codes, text_eq, inl, Yields, Allows, arith,
}
use v_plc_runtime.Memory.{
  MappingRule, PlcMemory, WordArea, input_registers_area, bits, words, mc_bit_area, mc_word_area,
  ls_bit_area, read_word, read_named_word, read_mc_word,
}
use v_plc_runtime.Memory.Lens.{same_bit_area, same_word_area}
use v_plc_runtime.Memory.Shape.{IsValid, SameShape-refl}
use v_plc_runtime.Memory.Values.{read_value, read_mc_value}
use v_plc_runtime.Memory.Cells.{
  cell_of, same_cell, exists, some_bit, some_word, modbus_cell, mc_cell,
}
use v_plc_runtime.Memory.Rules
use v_plc_runtime.Loader.{VarBinding, holding_register, resolve_bindings}
use v_plc_runtime.Loader.Delivery.{is_foreign, Shows}
use v_plc_runtime.Loader.Lost.{has_register, writes_register}
use v_plc_runtime.Modbus.Registers.{write_register_pdu}
use v_plc_runtime.S7.{Buffers}
use v_plc_runtime.S7.Kept.{IsBacked}
use v_plc_runtime.Tags.Names.{unique_names}
use v_plc_runtime.Web.{get_tags}
use v_plc_runtime.System.{
  System, Action, at_inputs, at_outputs, before_cycle, modbus_request, mc_request, xgt_request,
  web_request, key, scan_step, sync_step, run,
}
use v_plc_runtime.System.Sound.{IsSound}
use v_plc_runtime.System.Start.{main_memory, started, run_started-IsSound}
use v_plc_runtime.Memory.Load.{MappingsFile, not_opened, document}
use v_plc_runtime.Tags.{load_tags}
use v_plc_runtime.Shared.{Text, Option, none, some, false, text_eq, if◌then◌else◌}
use v_plc_runtime.Loader.Kept.{HoldsWord}
use v_plc_runtime.System.Total.{run-Yields}
use v_plc_runtime.System.Delivery.{Feeds, scans_deliver}
use v_plc_runtime.System.Lost.{finish, write_in_scan_lost}
use v_plc_runtime.Tests.{tiny, hr, mc_d_ref, rule_between}
use v_plc_runtime.Tests.Micro.{micro}

abbrev feeding_rule : MappingRule
feeding_rule = rule_between (mc_d_ref 1) (hr 0)

abbrev fed : PlcMemory
fed = record tiny { mc_d = 0 ∷ 9 ∷ 0 ∷ []; mappings = feeding_rule ∷ [] }

words-fed : (a : WordArea) → All IsWord (words fed a)
unfolding words
words-fed input_registers_area = omega arith
words-fed _ = omega arith

fed-IsValid : IsValid fed
fed-IsValid = record { in_range = words-fed }

abbrev blank : Buffers
blank = record {
  pe = replicate 256 0;
  pa = replicate 256 0;
  db1 = replicate 2048 0;
  db1_shadow = replicate 2048 0;
  db2 = replicate 2048 0;
  db2_shadow = replicate 2048 0;
}

blank-IsBacked : IsBacked blank
blank-IsBacked =
    let size = length-replicate {A = ℕ} 2048 0 in
    record {
      sized = record { db1 = size; db1_shadow = size; db2 = size; db2_shadow = size };
      db1_bytes = All-replicate IsByte 2048 0 (omega arith);
      db2_bytes = All-replicate IsByte 2048 0 (omega arith);
    }

abbrev idle : System
idle = record {
  memory = fed;
  variables =
      record { type = holding_register; plc_address = 0; value = 5; name = codes "__MW0" } ∷ [];
  tick = 0;
  scan = at_inputs;
  buffers = blank;
  sync = before_cycle;
  tags = [];
  saved = not_opened;
  is_running = true;
}

idle-IsSound : IsSound fed idle
idle-IsSound = record {
  shape = SameShape-refl fed;
  valid = fed-IsValid;
  variables = omega arith;
  buffers = blank-IsBacked;
  tags = record { unique = unfold unique_names in refl; complete = tt };
}

abbrev steady : ℕ → List VarBinding → List VarBinding
steady tick vs = vs

abbrev busy : List Action
busy =
    modbus_request (0x06 ∷ 0 ∷ 2 ∷ 1 ∷ 44 ∷ [])
    ∷ scan_step
    ∷ mc_request (0x50 ∷ 0 ∷ [])
    ∷ sync_step
    ∷ xgt_request (1 ∷ 2 ∷ [])
    ∷ scan_step
    ∷ key (codes "trim") b'a'
    ∷ web_request true get_tags
    ∷ scan_step
    ∷ []

abbrev mappings_file : MappingsFile
mappings_file = document (some (codes "MC.D.1", codes "MODBUS.HR.0") ∷ [])

abbrev one_variable : Text → Option ℕ
one_variable name = if text_eq name (codes "__MW0") then some 5 else none

abbrev cleared : List VarBinding → List VarBinding
cleared [] = []
cleared (b ∷ bs) = record b { value = 0 } ∷ cleared bs

cleared-HoldsWord : (bs : List VarBinding) → All HoldsWord (cleared bs)
cleared-HoldsWord [] = tt
cleared-HoldsWord (b ∷ bs) = (omega arith, cleared-HoldsWord bs)

run_started-IsSound_example :
    Allows
      (IsSound main_memory)
      (run steady busy (started mappings_file [] one_variable cleared false))
run_started-IsSound_example =
    run_started-IsSound mappings_file [] one_variable cleared false
      (cleared-HoldsWord (resolve_bindings one_variable)) (unfold load_tags unique_names in refl)
      steady (λ tick vs w. w) busy (omega arith)

run-Yields_example : Yields (IsSound fed) (run steady busy idle)
run-Yields_example =
    run-Yields fed steady (λ tick vs w. w) busy idle (omega arith)
      (tt, (tt, (tt, (tt, (inl (omega arith), (tt, (tt, (tt, (tt, tt))))))))) idle-IsSound

fed-Feeds : Feeds fed feeding_rule 0 0
unfolding exists cell_of Rules.same_kind same_cell same_bit_area same_word_area text_eq modbus_cell
    mc_cell some_bit some_word mc_word_area mc_bit_area ls_bit_area words bits is_foreign read_value
    read_mc_value read_mc_word read_named_word read_word
fed-Feeds = record {
  sound = (record { src_exists = refl; dst_exists = refl; kinds = refl; apart = refl }, tt);
  apart = (tt, tt, tt);
  present = refl;
  foreign = refl;
  register = refl;
  changed = λ e. omega (arith, e);
}

scans_deliver_example :
    (n : ℕ) × (n ≤ 3)
    × Yields
        (λ t. All (Shows 0 (read_value fed (mc_d_ref 1))) t.variables)
        (run steady (replicate n scan_step) idle)
scans_deliver_example =
    scans_deliver feeding_rule 0 0 fed steady (λ tick vs w. w) idle idle-IsSound fed-Feeds

abbrev in_scan : System
in_scan = record idle { scan = at_outputs }

write_in_scan_lost_example :
    run steady (modbus_request (write_register_pdu 0 77) ∷ finish at_outputs) in_scan
    ≡ run steady (finish at_outputs) in_scan
write_in_scan_lost_example =
    write_in_scan_lost steady 0 77 (omega arith) (omega arith) in_scan (λ e. cc) (λ tick vs. refl)
      (unfold has_register writes_register in refl) (unfold words in omega arith)
