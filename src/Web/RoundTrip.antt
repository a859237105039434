-- ===== src/Web/RoundTrip.antt =====
-- A write over HTTP and the read after it.
use v_plc_runtime.Shared.{
  ℕ, ◌≡◌, refl, ◌∙◌, Bool, true, false, some, [], Text, u16, ◌<◌, ◌^◌, arith,
}
use v_plc_runtime.Memory.{MemoryRef}
use v_plc_runtime.Memory.Address.{parse_address}
use v_plc_runtime.Memory.Values.{read_value, write_value}
use v_plc_runtime.Memory.Sync.{sync_mappings}
use v_plc_runtime.Memory.Cells.{cell_of, exists, stored, read_value-write_value}
use v_plc_runtime.Memory.CellInvariants.{mappings-write_value, same_cell_self}
use v_plc_runtime.Memory.Repeat.{sync_mappings_no_rules}
use v_plc_runtime.Tags.{is_empty}
use v_plc_runtime.Web.{
  read_memory, write_memory, value_at, Site, answer_read, handle_read_memory, answer_write,
  is_negative, handle_write_memory, handle, reply,
}

-- In a memory without mappings, for an address that is not empty, parses, and names a cell that exists: a write of a value below 2^31 is answered
-- with status 200, and a read of the address after it with status 200 and what the cell keeps of the low 16 bits of the value.
pub write_memory_then_read :
    (opens : Bool) (address : Text) (ref : MemoryRef) (value : ℕ) (s : Site)
    → s.memory.mappings ≡ []
    → is_empty address ≡ false
    → parse_address address ≡ some ref
    → exists s.memory (cell_of ref) ≡ true
    → value < 2 ^ 31
    → let written = handle opens (write_memory (some (address, value))) s in
      (written.1 ≡ reply 200)
      × ((handle opens (read_memory address) written.0).1
          ≡ record { status = 200; content = value_at address (stored (cell_of ref) (u16 value)) })
unfolding handle handle_read_memory answer_read handle_write_memory answer_write
write_memory_then_read opens address ref value s none given parsed there small =
    let v : ℕ = u16 value in
    let still : sync_mappings (write_value s.memory ref v) ≡ write_value s.memory ref v =
      sync_mappings_no_rules (write_value s.memory ref v)
        (mappings-write_value s.memory ref v ∙ none) in
    let kept : read_value (write_value s.memory ref v) ref ≡ stored (cell_of ref) v = ground (
      arith,
      there,
      same_cell_self s.memory (cell_of ref) there,
      read_value-write_value s.memory ref ref v,
    ) in
    let positive : is_negative value ≡ false = unfold is_negative in ground arith in
    rw (given, positive, parsed, still, kept) (refl, refl)
