-- ===== src/Tests/Servers.antt =====
-- The theorems on the servers, applied.
use v_plc_runtime.Shared.{
  ℕ, ◌≡◌, refl, ◌++◌, true, false, List, [], ◌∷◌, replicate, codes, some, arith, Yields, inl,
  text_eq,
}
use v_plc_runtime.Memory.{
  PlcMemory, bits, words, holding_registers_area, coils_area, mc_d_area, write_words, write_bits,
  mc_word_area, store_range,
}
use v_plc_runtime.Modbus
use v_plc_runtime.Modbus.Registers.{
  write_registers_pdu, read_holding_pdu, write_then_read_registers,
}
use v_plc_runtime.Modbus.Coils.{write_coils_pdu, read_coils_pdu, write_then_read_coils}
use v_plc_runtime.Modbus.Keeps.{ChangesOnWrite, process_request-Changes}
use v_plc_runtime.Modbus.Server.{handle_client}
use v_plc_runtime.Modbus.Frames.{IsServed, handle_client-IsServed}
use v_plc_runtime.Mc
use v_plc_runtime.Mc.Total.{process_request-Answers}
use v_plc_runtime.Mc.Store.{le_bytes}
use v_plc_runtime.Mc.Words.{Envelope, request_frame, response_frame, after, write_then_read_words}
use v_plc_runtime.Xgt
use v_plc_runtime.Xgt.Blocks.{Block, read_bytes}
use v_plc_runtime.Xgt.Total.{IsResponse, process_request-IsResponse}
use v_plc_runtime.Xgt.Requests.{packet}
use v_plc_runtime.Tests.{tiny}

process_request-IsAnswer_example :
    Yields (Modbus.Answer.IsAnswer tiny) (Modbus.process_request tiny (0x2B ∷ 0 ∷ []))
process_request-IsAnswer_example =
    Modbus.Total.process_request-IsAnswer tiny (0x2B ∷ 0 ∷ []) (omega arith)

write_then_read_registers_example :
    let m' = write_words tiny holding_registers_area 1 (7 ∷ 300 ∷ []) in
    (Modbus.process_request tiny (write_registers_pdu 1 (7 ∷ 300 ∷ []))
      ≡ some (m', 0x10 ∷ 0 ∷ 1 ∷ 0 ∷ 2 ∷ []))
    × (Modbus.process_request m' (read_holding_pdu 1 2) ≡ some (m', 0x03 ∷ 4 ∷ 0 ∷ 7 ∷ 1 ∷ 44 ∷ []))
unfolding Modbus.register_bytes
write_then_read_registers_example =
    write_then_read_registers tiny 1 (7 ∷ 300 ∷ []) (omega arith) (omega arith) (omega arith)
      (unfold words in omega arith) (omega arith)

write_then_read_coils_example :
    let m' = write_bits tiny coils_area 1 (true ∷ false ∷ true ∷ []) in
    (Modbus.process_request tiny (write_coils_pdu 1 (true ∷ false ∷ true ∷ []))
      ≡ some (m', 0x0F ∷ 0 ∷ 1 ∷ 0 ∷ 3 ∷ []))
    × (Modbus.process_request m' (read_coils_pdu 1 3)
        ≡ some (m', 0x01 ∷ 1 ∷ Modbus.pack_bytes (true ∷ false ∷ true ∷ []) 0 1))
write_then_read_coils_example =
    write_then_read_coils tiny 1 (true ∷ false ∷ true ∷ []) (omega arith) (omega arith)
      (omega arith) (unfold bits in omega arith)

refused_read : Modbus.process_request tiny (0x03 ∷ []) ≡ some (tiny, 0x83 ∷ 0x03 ∷ [])
unfolding Modbus.process_request Modbus.fail Modbus.exception_response
refused_read = refl

process_request-Changes_example : ChangesOnWrite tiny 0x03 (tiny, 0x83 ∷ 0x03 ∷ [])
process_request-Changes_example =
    process_request-Changes tiny 0x03 [] (tiny, 0x83 ∷ 0x03 ∷ []) refused_read

abbrev client_bytes : List ℕ
client_bytes = 0 ∷ 1 ∷ 0 ∷ 0 ∷ 0 ∷ 6 ∷ 1 ∷ 3 ∷ 0 ∷ 0 ∷ 0 ∷ 2 ∷ 9 ∷ []

handle_client-IsServed_example : Yields (IsServed tiny) (handle_client 14 tiny client_bytes)
handle_client-IsServed_example = handle_client-IsServed tiny client_bytes (omega arith)

abbrev large : PlcMemory
large = record tiny { holding_registers = replicate 122 0 }

abbrev envelope : Envelope
envelope = record {
  network = 0;
  pc = 255;
  module_low = 255;
  module_high = 3;
  station = 0;
  length_field = 16;
  timer = 4;
}

abbrev read_words_frame : List ℕ
read_words_frame = request_frame envelope 0x0401 0 1 0xA8 2 []

process_request-Answers_example :
    Yields (Mc.Answer.IsAnswer tiny) (Mc.process_request tiny read_words_frame)
process_request-Answers_example = process_request-Answers tiny read_words_frame (omega arith)

d_area : mc_word_area (Mc.mc_word_area_name 0xA8) ≡ some mc_d_area
unfolding mc_word_area Mc.mc_word_area_name text_eq
d_area = refl

write_then_read_words_example :
    let m' = after tiny envelope 1 0xA8 (9 ∷ 700 ∷ []) mc_d_area in
    (Mc.process_request tiny (request_frame envelope 0x1401 0 1 0xA8 2 (9 ∷ 0 ∷ 188 ∷ 2 ∷ []))
      ≡ some (m', response_frame envelope []))
    × (words m' mc_d_area ≡ store_range (words tiny mc_d_area) 1 (9 ∷ 700 ∷ []))
    × (Mc.process_request m' (request_frame envelope 0x0401 0 1 0xA8 2 [])
        ≡ some (m', response_frame envelope (9 ∷ 0 ∷ 188 ∷ 2 ∷ [])))
unfolding le_bytes
write_then_read_words_example =
    write_then_read_words tiny envelope 1 0xA8 (9 ∷ 700 ∷ []) mc_d_area d_area
      (unfold words in omega arith) (unfold words in omega arith) (omega arith) (omega arith)

abbrev header : List ℕ
header = codes "LSIS-XGT" ++ (0 ∷ 0 ∷ 0 ∷ 0 ∷ 0 ∷ 0 ∷ 1 ∷ 0 ∷ 20 ∷ 0 ∷ 0 ∷ 0 ∷ [])

abbrev block : Block
block = record {
  name = codes "%MW1";
  target = record { area_char = b'M'; is_bit = false; index = 1; sub_index = 0 };
  value = 77;
}

abbrev read_one : List ℕ
read_one = packet header 0x0054 2 1 (read_bytes (block ∷ []))

process_request-IsResponse_example : Yields (IsResponse tiny) (Xgt.process_request tiny read_one)
process_request-IsResponse_example =
    process_request-IsResponse tiny read_one (unfold read_bytes in omega arith)
      (inl (λ e. omega arith))

abbrev mc_stream : List ℕ
mc_stream =
    0x50 ∷ 0 ∷ 0 ∷ 255 ∷ 255 ∷ 3 ∷ 0 ∷ 12 ∷ 0 ∷ 4 ∷ 0 ∷ 1 ∷ 4 ∷ 0 ∷ 0 ∷ 1 ∷ 0 ∷ 0 ∷ 0xA8 ∷ 2 ∷ 0 ∷ 7
    ∷ []

connection-IsServed_example :
    Yields (Mc.Frames.IsServed tiny) (Mc.Server.handle_client 23 tiny mc_stream)
connection-IsServed_example = Mc.Frames.connection-IsServed tiny mc_stream (omega arith)

-- A continuous read whose length field leaves out its last two bytes
abbrev short_read : Xgt.Server.Wire
short_read = record {
  body = 0 ∷ 0 ∷ 0x54 ∷ 0 ∷ 0x14 ∷ 0 ∷ 0 ∷ 0 ∷ 1 ∷ 0 ∷ 4 ∷ 0 ∷ codes "%MB0";
  stream = 4 ∷ 0 ∷ 9 ∷ [];
}

short_read_drained : (Xgt.Server.drain short_read).stream ≡ 9 ∷ []
unfolding Xgt.Server.drain Xgt.Server.drain_continuous Xgt.Server.extend_to Xgt.Server.field_at
short_read_drained = refl
