-- ===== src/Tests/Web.antt =====
-- The theorems on the handlers over HTTP, applied.
use v_plc_runtime.Shared.{
  ◌≡◌, refl, true, some, [], codes, text_eq, getline_parts, stoi, u16, none, ◌∷◌, arith,
}
use v_plc_runtime.Memory.{words}
use v_plc_runtime.Memory.Address.{
  parse_address, from_parts, parse_parts, parse_modbus, make_ref, index_of,
}
use v_plc_runtime.Memory.Load.{not_opened}
use v_plc_runtime.Memory.Cells.{cell_of, exists, stored, modbus_cell, some_word, some_bit}
use v_plc_runtime.Tags.{is_empty}
use v_plc_runtime.Web.{
  Site, Request, read_memory, write_memory, post_mappings, items, value_at, handle, reply,
}
use v_plc_runtime.Web.Errors.{IsAnswered, handle-IsAnswered}
use v_plc_runtime.Web.RoundTrip.{write_memory_then_read}
use v_plc_runtime.Tests.{tiny, hr}

abbrev site : Site
site = record { memory = tiny; tags = []; saved = not_opened }

-- An item without a source: the loop of loadMappings throws.
abbrev refused_post : Request
refused_post = post_mappings (items (none ∷ []))

handle-IsAnswered_example : IsAnswered site refused_post (handle true refused_post site)
handle-IsAnswered_example = handle-IsAnswered true refused_post site

parsed : parse_address (codes "MODBUS.HR.2") ≡ some (hr 2)
unfolding parse_address from_parts getline_parts parse_parts text_eq parse_modbus make_ref index_of
    stoi
parsed = refl

present : exists tiny (cell_of (hr 2)) ≡ true
unfolding exists cell_of text_eq modbus_cell some_word some_bit words
present = refl

write_memory_then_read_example :
    let written = handle true (write_memory (some (codes "MODBUS.HR.2", 70000))) site in
    (written.1 ≡ reply 200)
    × ((handle true (read_memory (codes "MODBUS.HR.2")) written.0).1 ≡ record {
      status = 200;
      content = value_at (codes "MODBUS.HR.2") (stored (cell_of (hr 2)) (u16 70000));
    })
unfolding is_empty
write_memory_then_read_example =
    write_memory_then_read true (codes "MODBUS.HR.2") (hr 2) 70000 site refl refl parsed present
      (omega arith)
