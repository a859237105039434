-- ===== src/Web/Kept.antt =====
-- Every request over HTTP keeps the memory's invariant.
use v_plc_runtime.Shared.{ℕ, ◌||◌, Bool, Option, none, some, Text, u16, either_branch, arith}
use v_plc_runtime.Memory.{MemoryRef}
use v_plc_runtime.Memory.Address.{parse_address}
use v_plc_runtime.Memory.Values.{write_value}
use v_plc_runtime.Memory.Load.{document}
use v_plc_runtime.Memory.Shape.{IsKept, IsKept-refl, IsKept-trans}
use v_plc_runtime.Memory.Kept.{write_value-IsKept, sync_mappings-IsKept, load_mappings-IsKept}
use v_plc_runtime.Tags.{PlcTag, is_empty}
use v_plc_runtime.Tags.Config.{IsConfig, add_tag-IsConfig, remove_tag-IsConfig}
use v_plc_runtime.Tags.Kept.{write_tag_value-IsKept}
use v_plc_runtime.Web.{
  Request, get_tags, post_tag, delete_tag, write_tag, get_mappings, post_mappings, read_memory,
  write_memory, MappingsBody, unparsed, no_array, items, Site, Response, handle_post_tag,
  handle_delete_tag, handle_write_tag, handle_post_mappings, answer_read, handle_read_memory,
  answer_write, is_negative, handle_write_memory, handle,
}

abbrev KeptBy : Site → Site × Response → Type 0
KeptBy s out = IsKept s.memory out.0.memory

handle_write_tag-KeptBy : (name value : Text) (s : Site) → KeptBy s (handle_write_tag name value s)
unfolding handle_write_tag
handle_write_tag-KeptBy name value s =
    either_branch (KeptBy s) (is_empty name || is_empty value) _ _ (λ _. IsKept-refl s.memory)
      (λ _. write_tag_value-IsKept s.memory s.tags name value)

handle_post_tag-KeptBy : (tag : PlcTag) (s : Site) → KeptBy s (handle_post_tag tag s)
unfolding handle_post_tag
handle_post_tag-KeptBy tag s =
    either_branch (KeptBy s) (is_empty tag.name || (is_empty tag.area || is_empty tag.type)) _ _
      (λ _. IsKept-refl s.memory) (λ _. IsKept-refl s.memory)

handle_delete_tag-KeptBy : (name : Text) (s : Site) → KeptBy s (handle_delete_tag name s)
unfolding handle_delete_tag
handle_delete_tag-KeptBy name s =
    either_branch (KeptBy s) (is_empty name) _ _ (λ _. IsKept-refl s.memory)
      (λ _. IsKept-refl s.memory)

handle_post_mappings-KeptBy :
    (opens : Bool) (body : MappingsBody) (s : Site) → KeptBy s (handle_post_mappings opens body s)
unfolding handle_post_mappings
handle_post_mappings-KeptBy opens unparsed s = IsKept-refl s.memory
handle_post_mappings-KeptBy opens no_array s = IsKept-refl s.memory
handle_post_mappings-KeptBy opens (items is) s =
    either_branch (KeptBy s) opens _ _ (λ _. load_mappings-IsKept s.memory (document is))
      (λ _. IsKept-refl s.memory)

answer_read-KeptBy :
    (address : Text) (ref : Option MemoryRef) (s : Site) → KeptBy s (answer_read address ref s)
unfolding answer_read
answer_read-KeptBy address none s = IsKept-refl s.memory
answer_read-KeptBy address (some ref) s = IsKept-refl s.memory

answer_write-KeptBy :
    (ref : Option MemoryRef) (n : ℕ) (s : Site) → KeptBy s (answer_write ref (u16 n) s)
unfolding answer_write
answer_write-KeptBy none n s = IsKept-refl s.memory
answer_write-KeptBy (some ref) n s =
    IsKept-trans (write_value-IsKept s.memory ref (u16 n) (omega arith))
      (sync_mappings-IsKept (write_value s.memory ref (u16 n)))

handle_read_memory-KeptBy : (address : Text) (s : Site) → KeptBy s (handle_read_memory address s)
unfolding handle_read_memory
handle_read_memory-KeptBy address s =
    either_branch (KeptBy s) (is_empty address) _ _ (λ _. IsKept-refl s.memory)
      (λ _. answer_read-KeptBy address (parse_address address) s)

handle_write_memory-KeptBy :
    (address : Text) (value : ℕ) (s : Site) → KeptBy s (handle_write_memory address value s)
unfolding handle_write_memory
handle_write_memory-KeptBy address value s =
    either_branch (KeptBy s) (is_empty address || is_negative value) _ _ (λ _. IsKept-refl s.memory)
      (λ _. answer_write-KeptBy (parse_address address) value s)

pub handle-IsKept :
    (opens : Bool) (r : Request) (s : Site) → IsKept s.memory (handle opens r s).0.memory
unfolding handle
handle-IsKept opens get_tags s = IsKept-refl s.memory
handle-IsKept opens (post_tag none) s = IsKept-refl s.memory
handle-IsKept opens (post_tag (some tag)) s = handle_post_tag-KeptBy tag s
handle-IsKept opens (delete_tag name) s = handle_delete_tag-KeptBy name s
handle-IsKept opens (write_tag none) s = IsKept-refl s.memory
handle-IsKept opens (write_tag (some (name, value))) s = handle_write_tag-KeptBy name value s
handle-IsKept opens get_mappings s = IsKept-refl s.memory
handle-IsKept opens (post_mappings body) s = handle_post_mappings-KeptBy opens body s
handle-IsKept opens (read_memory address) s = handle_read_memory-KeptBy address s
handle-IsKept opens (write_memory none) s = IsKept-refl s.memory
handle-IsKept opens (write_memory (some (address, value))) s =
    handle_write_memory-KeptBy address value s

abbrev ConfigIn : Site × Response → Type 0
ConfigIn out = IsConfig out.0.tags

-- Only the routes of the tags change them.
pub handle-IsConfig :
    (opens : Bool) (r : Request) (s : Site) → IsConfig s.tags → IsConfig (handle opens r s).0.tags
unfolding handle handle_post_tag handle_delete_tag handle_write_tag handle_post_mappings
    handle_read_memory answer_read handle_write_memory answer_write
handle-IsConfig opens get_tags s u = u
handle-IsConfig opens (post_tag none) s u = u
handle-IsConfig opens (post_tag (some tag)) s u =
    either_branch ConfigIn (is_empty tag.name || (is_empty tag.area || is_empty tag.type)) _ _
      (λ _. u) (λ e. add_tag-IsConfig s.memory s.tags tag e u)
handle-IsConfig opens (delete_tag name) s u =
    either_branch ConfigIn (is_empty name) _ _ (λ _. u) (λ _. remove_tag-IsConfig s.tags name u)
handle-IsConfig opens (write_tag none) s u = u
handle-IsConfig opens (write_tag (some (name, value))) s u =
    either_branch ConfigIn (is_empty name || is_empty value) _ _ (λ _. u) (λ _. u)
handle-IsConfig opens get_mappings s u = u
handle-IsConfig opens (post_mappings unparsed) s u = u
handle-IsConfig opens (post_mappings no_array) s u = u
handle-IsConfig opens (post_mappings (items is)) s u =
    either_branch ConfigIn opens _ _ (λ _. u) (λ _. u)
handle-IsConfig opens (read_memory address) s u =
    either_branch ConfigIn (is_empty address) _ _ (λ _. u) (λ _. answered (parse_address address))
  where
    answered : (ref : Option MemoryRef) → ConfigIn (answer_read address ref s)
    answered none = u
    answered (some ref) = u
handle-IsConfig opens (write_memory none) s u = u
handle-IsConfig opens (write_memory (some (address, value))) s u =
    either_branch ConfigIn (is_empty address || is_negative value) _ _ (λ _. u)
      (λ _. answered (parse_address address))
  where
    answered : (ref : Option MemoryRef) → ConfigIn (answer_write ref (u16 value) s)
    answered none = u
    answered (some ref) = u
