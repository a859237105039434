-- ===== src/Web.antt =====
-- web/WebServer.cpp: the handlers of the interface over HTTP. The HTTP and JSON libraries are parameters: a request is
-- given with its parsed members, `none` where the parse or a member's conversion throws. An `int` is given by its 32 bits,
-- as a number below 2^32 in two's complement. The file of the tags is that of Tags.File.
pub mod Errors
pub mod Kept
pub mod RoundTrip
use v_plc_runtime.Shared.{
  ℕ, ◌%◌, ◌^◌, Bool, true, false, ◌||◌, if◌then◌else◌, Option, none, some, List, [], ◌∷◌, Text, u16,
  leb,
}
use v_plc_runtime.Memory.{PlcMemory, MemoryRef}
use v_plc_runtime.Memory.Address.{parse_address}
use v_plc_runtime.Memory.Values.{read_value, write_value}
use v_plc_runtime.Memory.Load.{
  Item, MappingsFile, not_opened, bad_document, document, load_mappings,
}
use v_plc_runtime.Memory.Sync.{sync_mappings}
use v_plc_runtime.Tags.{PlcTag, add_tag, remove_tag, read_tag_value, write_tag_value, is_empty}

-- The body of a request for mappings.
pub data MappingsBody : Type 0 where
  unparsed : MappingsBody
  no_array : MappingsBody
  items : List Item → MappingsBody

pub data Request : Type 0 where
  get_tags : Request
  post_tag : Option PlcTag → Request
  delete_tag : Text → Request
  write_tag : Option (Text × Text) → Request
  get_mappings : Request
  post_mappings : MappingsBody → Request
  read_memory : Text → Request
  write_memory : Option (Text × ℕ) → Request

-- What a response holds beside its status and its message.
pub data Content : Type 0 where
  message : Content
  tags_with_values : List (PlcTag × Text) → Content
  value_at : Text → ℕ → Content
  mappings_text : MappingsFile → Content

pub record Response : Type 0 where
  pub status : ℕ
  pub content : Content

-- What the handlers act on; `saved` is mappings.json.
pub record Site : Type 0 where
  pub memory : PlcMemory
  pub tags : List PlcTag
  pub saved : MappingsFile

-- A response with a message only.
abbrev pub reply : ℕ → Response
reply status = record { status = status; content = message }

unfoldable pub with_values : PlcMemory → List PlcTag → List (PlcTag × Text)
with_values m [] = []
with_values m (tag ∷ tags) = (tag, read_tag_value m tag) ∷ with_values m tags

unfoldable pub handle_post_tag : PlcTag → Site → Site × Response
handle_post_tag tag s =
    if is_empty tag.name || (is_empty tag.area || is_empty tag.type)
    then (s, reply 400)
    else (let (tags, added) = add_tag s.memory s.tags tag in
        (record s { tags = tags }, if added then reply 200 else reply 400))

unfoldable pub handle_delete_tag : Text → Site → Site × Response
handle_delete_tag name s =
    if is_empty name
    then (s, reply 400)
    else (let (tags, removed) = remove_tag s.tags name in
        (record s { tags = tags }, if removed then reply 200 else reply 400))

unfoldable pub handle_write_tag : Text → Text → Site → Site × Response
handle_write_tag name value s =
    if is_empty name || is_empty value
    then (s, reply 400)
    else (let (m, written) = write_tag_value s.memory s.tags name value in
        (record s { memory = m }, if written then reply 200 else reply 400))

-- Where there is no file, the answer is that of an empty array.
unfoldable pub served : MappingsFile → MappingsFile
served not_opened = document []
served bad_document = bad_document
served (document is) = document is

-- `opens` is whether the file can be written; it is read back as it was written. A file that is then refused stays.
unfoldable pub handle_post_mappings : Bool → MappingsBody → Site → Site × Response
handle_post_mappings opens unparsed s = (s, reply 400)
handle_post_mappings opens no_array s = (s, reply 400)
handle_post_mappings opens (items is) s =
    if opens
    then (let (m, loaded) = load_mappings s.memory (document is) in
        (record s { memory = m; saved = document is }, if loaded then reply 200 else reply 400))
    else (s, reply 500)

unfoldable pub answer_read : Text → Option MemoryRef → Site → Site × Response
answer_read address none s = (s, reply 400)
answer_read address (some ref) s =
    (s, record { status = 200; content = value_at address (read_value s.memory ref) })

unfoldable pub handle_read_memory : Text → Site → Site × Response
handle_read_memory address s =
    if is_empty address then (s, reply 400) else answer_read address (parse_address address) s

unfoldable pub answer_write : Option MemoryRef → ℕ → Site → Site × Response
answer_write none value s = (s, reply 400)
answer_write (some ref) value s =
    (record s { memory = sync_mappings (write_value s.memory ref value) }, reply 200)

-- `val_int < 0`
unfoldable pub is_negative : ℕ → Bool
is_negative value = leb (2 ^ 31) (value % 2 ^ 32)

unfoldable pub handle_write_memory : Text → ℕ → Site → Site × Response
handle_write_memory address value s =
    if is_empty address || is_negative value
    then (s, reply 400)
    else answer_write (parse_address address) (u16 value) s

-- The handler of a request.
unfoldable pub handle : Bool → Request → Site → Site × Response
handle opens get_tags s =
    (s, record { status = 200; content = tags_with_values (with_values s.memory s.tags) })
handle opens (post_tag none) s = (s, reply 400)
handle opens (post_tag (some tag)) s = handle_post_tag tag s
handle opens (delete_tag name) s = handle_delete_tag name s
handle opens (write_tag none) s = (s, reply 400)
handle opens (write_tag (some (name, value))) s = handle_write_tag name value s
handle opens get_mappings s = (s, record { status = 200; content = mappings_text (served s.saved) })
handle opens (post_mappings body) s = handle_post_mappings opens body s
handle opens (read_memory address) s = handle_read_memory address s
handle opens (write_memory none) s = (s, reply 400)
handle opens (write_memory (some (address, value))) s = handle_write_memory address value s
