-- ===== src/Tests/Parts.antt =====
-- The theorems on the S7 buffers, the listeners, the telemetry, the bindings and the screens, applied.
use v_plc_runtime.Shared.{
  ℕ, suc, ◌%◌, ◌^◌, ◌≡◌, refl, ap, true, List, [], ◌∷◌, ◌++◌, All, IsWord, IsByte, replicate,
  length-replicate, All-replicate, codes, Text, none, some, Option, arith,
}
use v_plc_runtime.Memory.{
  PlcMemory, WordArea, input_registers_area, words, s7_db1_area, s7_db2_area, s7_pe_area,
  s7_pa_area, read_bit, read_word,
}
use v_plc_runtime.S7.{Buffers, sync_before_cycle, sync_after_cycle}
use v_plc_runtime.S7.Quiet.{IsSized}
use v_plc_runtime.S7.Clients.{pair_value, sync_before_cycle_stores}
use v_plc_runtime.S7.Bits.{buffer_bit}
use v_plc_runtime.S7.Published.{HasBits, sync_after_cycle_publishes_areas}
use v_plc_runtime.Listener.{Setup, Event, accepted, ended, every, start, stop, run, new_listener}
use v_plc_runtime.Listener
use v_plc_runtime.Listener.Closed.{stop_closes_all}
use v_plc_runtime.Mqtt.{message}
use v_plc_runtime.Mqtt.Payload.{Reports, message-Reports}
use v_plc_runtime.Loader.{resolve_bindings}
use v_plc_runtime.Loader.Bindings.{InRange, one_each, resolve_bindings-InRange}
use v_plc_runtime.Tui.Padding.{
  visible_length, visible_from, pad_string, ends_inside, visible_length-pad_string,
}
use v_plc_runtime.Tests.{tiny}

abbrev with_db2 : PlcMemory
with_db2 = record tiny { s7_db2 = 0 ∷ 0 ∷ [] }

-- A client has written 300 to the first register of DB1.
abbrev written : Buffers
written = record {
  pe = replicate 256 0;
  pa = replicate 256 255;
  db1 = 1 ∷ 44 ∷ replicate 2046 0;
  db1_shadow = replicate 2048 0;
  db2 = replicate 2048 0;
  db2_shadow = replicate 2048 0;
}

sync_before_cycle_stores_example :
    let out = (sync_before_cycle with_db2 written).0 in
    (read_word out s7_db1_area 0 ≡ 300)
    × (read_word out s7_db2_area 0 ≡ read_word with_db2 s7_db2_area 0)
sync_before_cycle_stores_example =
    sync_before_cycle_stores with_db2 written 0 (omega arith) (unfold words in omega arith)
      (unfold words in omega arith)

written-IsSized : IsSized written
written-IsSized = record {
  db1 = ap (λ n. suc (suc n)) (length-replicate {A = ℕ} 2046 0);
  db1_shadow = length-replicate {A = ℕ} 2048 0;
  db2 = length-replicate {A = ℕ} 2048 0;
  db2_shadow = length-replicate {A = ℕ} 2048 0;
}

written-HasBits : HasBits written
written-HasBits = record {
  pe = length-replicate {A = ℕ} 256 0;
  pa = length-replicate {A = ℕ} 256 255;
  pe_bytes = All-replicate IsByte 256 0 (omega arith);
  pa_bytes = All-replicate IsByte 256 255 (omega arith);
}

sync_after_cycle_publishes_areas_example :
    let out = sync_after_cycle tiny written in
    (buffer_bit out.pe 3 ≡ read_bit tiny s7_pe_area 3)
    × (buffer_bit out.pa 3 ≡ read_bit tiny s7_pa_area 3)
    × (pair_value out.db1 1 ≡ read_word tiny s7_db1_area 1 % 2 ^ 16)
    × (pair_value out.db2 1 ≡ read_word tiny s7_db2_area 1 % 2 ^ 16)
sync_after_cycle_publishes_areas_example =
    sync_after_cycle_publishes_areas tiny written 3 1 written-IsSized written-HasBits (omega arith)
      (omega arith)

abbrev answering : Setup
answering = record { socket = some 3; setsockopt = true; bind = true; listen = true }

abbrev connections : List Event
connections =
    accepted (some 4) ∷ accepted none ∷ accepted (some 5) ∷ ended 4 ∷ accepted (some 4) ∷ []

answering_starts : (start answering new_listener).1 ≡ true
unfolding start Listener.open_socket Listener.set_up new_listener
answering_starts = refl

stop_closes_all_example :
    stop (run every connections (start answering new_listener).0) ≡ new_listener
stop_closes_all_example = stop_closes_all answering every connections answering_starts

words-tiny : (a : WordArea) → All IsWord (words tiny a)
unfolding words
words-tiny input_registers_area = omega arith
words-tiny _ = omega arith

message-Reports_example :
    Reports tiny (codes "./libassembly_logic.so") (message (codes "./libassembly_logic.so") tiny)
message-Reports_example =
    message-Reports tiny (record { in_range = words-tiny }) (codes "./libassembly_logic.so")

abbrev has_all : Text → Option ℕ
has_all name = some 0

resolve_bindings-InRange_example :
    All InRange (resolve_bindings has_all) × (one_each (resolve_bindings has_all) ≡ true)
resolve_bindings-InRange_example = resolve_bindings-InRange has_all

-- A green label.
abbrev label : Text
label = 27 ∷ codes "[32mON" ++ (27 ∷ codes "[0m")

visible_length-pad_string_example : visible_length (pad_string label 48) ≡ 48
unfolding visible_length visible_from
visible_length-pad_string_example = visible_length-pad_string label 48 (unfold ends_inside in refl)
