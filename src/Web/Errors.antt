-- ===== src/Web/Errors.antt =====
-- What a request that is refused changes.
use v_plc_runtime.Shared.{
  ◌≡◌, ◌⊎◌, refl, Bool, true, false, none, some, List, Text, ℕ, inl, inr, arith, Bool-cases,
}
use v_plc_runtime.Memory.{PlcMemory}
use v_plc_runtime.Memory.Load.{Item, document, load_mappings, load_mappings_failure}
use v_plc_runtime.Tags.{
  PlcTag, add_tag, remove_tag, store_number, store_text, store_found, write_tag_value,
}
use v_plc_runtime.Web.{
  Request, get_tags, post_tag, delete_tag, write_tag, get_mappings, post_mappings, read_memory,
  write_memory, MappingsBody, unparsed, no_array, items, Site, Response, handle_post_tag,
  handle_delete_tag, handle_write_tag, handle_post_mappings, answer_read, handle_read_memory,
  answer_write, handle_write_memory, handle,
}

-- An error that leaves all as it was.
abbrev pub IsRefused : Site → Site × Response → Type 0
IsRefused s r = ((r.1.status ≡ 400) ⊎ (r.1.status ≡ 500)) × (r.0 ≡ s)

-- Mappings that loadMappings refuses: the error 400, with the refused items in mappings.json and the rest as it was.
pub record IsSavedRefused (s : Site) (request : Request) (r : Site × Response) : Type 0 where
  pub refused : List Item
  pub posted : request ≡ post_mappings (items refused)
  pub unloadable : (load_mappings s.memory (document refused)).1 ≡ false
  pub answered : r.1.status ≡ 400
  pub changed : r.0 ≡ record s { saved = document refused }

abbrev IsDone : Site → Site × Response → Type 0
IsDone s r = (r.1.status ≡ 200) ⊎ IsRefused s r

abbrev pub IsAnswered : Site → Request → Site × Response → Type 0
IsAnswered s request r = (r.1.status ≡ 200) ⊎ (IsRefused s r ⊎ IsSavedRefused s request r)

handle_post_tag-IsDone : (tag : PlcTag) (s : Site) → IsDone s (handle_post_tag tag s)
unfolding handle_post_tag add_tag
handle_post_tag-IsDone tag s = ground arith

handle_delete_tag-IsDone : (name : Text) (s : Site) → IsDone s (handle_delete_tag name s)
unfolding handle_delete_tag remove_tag
handle_delete_tag-IsDone name s = ground arith

write_tag_value_failure :
    (m : PlcMemory) (tags : List PlcTag) (name value : Text)
    → ((write_tag_value m tags name value).1 ≡ true) ⊎ ((write_tag_value m tags name value).0 ≡ m)
unfolding write_tag_value store_found store_text store_number
write_tag_value_failure m tags name value = ground arith

handle_write_tag-IsDone : (name value : Text) (s : Site) → IsDone s (handle_write_tag name value s)
unfolding handle_write_tag
handle_write_tag-IsDone name value s =
    ground (arith, write_tag_value_failure s.memory s.tags name value)

handle_read_memory-IsDone : (address : Text) (s : Site) → IsDone s (handle_read_memory address s)
unfolding handle_read_memory answer_read
handle_read_memory-IsDone address s = ground arith

handle_write_memory-IsDone :
    (address : Text) (value : ℕ) (s : Site) → IsDone s (handle_write_memory address value s)
unfolding handle_write_memory answer_write
handle_write_memory-IsDone address value s = ground arith

handle_post_mappings-IsAnswered :
    (opens : Bool) (body : MappingsBody) (s : Site)
    → IsAnswered s (post_mappings body) (handle_post_mappings opens body s)
unfolding handle_post_mappings
handle_post_mappings-IsAnswered opens unparsed s = inr (inl (inl refl, refl))
handle_post_mappings-IsAnswered opens no_array s = inr (inl (inl refl, refl))
handle_post_mappings-IsAnswered false (items is) s = inr (inl (inr refl, refl))
handle_post_mappings-IsAnswered true (items is) s =
    elim (Bool-cases (load_mappings s.memory (document is)).1) [
      | inl e ↦ inl (rw e refl)
      | inr e ↦ inr (
          inr (record {
            refused = is;
            posted = refl;
            unloadable = e;
            answered = rw e refl;
            changed = rw (load_mappings_failure s.memory (document is) e) refl;
          }))
    ]

any_request :
    {s : Site} {r : Site × Response} (request : Request) → IsDone s r → IsAnswered s request r
any_request request (inl d) = inl d
any_request request (inr n) = inr (inl n)

-- Every request is answered with status 200; or it is answered with 400 or 500 and leaves the memory, the tags and the file of the mappings as
-- they were; or it posts mappings that loadMappings refuses, is answered with 400, and leaves the refused mappings in the file and the memory and
-- the tags as they were.
pub handle-IsAnswered : (opens : Bool) (r : Request) (s : Site) → IsAnswered s r (handle opens r s)
unfolding handle
handle-IsAnswered opens get_tags s = inl refl
handle-IsAnswered opens (post_tag none) s = inr (inl (inl refl, refl))
handle-IsAnswered opens (post_tag (some tag)) s = any_request _ (handle_post_tag-IsDone tag s)
handle-IsAnswered opens (delete_tag name) s = any_request _ (handle_delete_tag-IsDone name s)
handle-IsAnswered opens (write_tag none) s = inr (inl (inl refl, refl))
handle-IsAnswered opens (write_tag (some (name, value))) s =
    any_request _ (handle_write_tag-IsDone name value s)
handle-IsAnswered opens get_mappings s = inl refl
handle-IsAnswered opens (post_mappings body) s = handle_post_mappings-IsAnswered opens body s
handle-IsAnswered opens (read_memory address) s =
    any_request _ (handle_read_memory-IsDone address s)
handle-IsAnswered opens (write_memory none) s = inr (inl (inl refl, refl))
handle-IsAnswered opens (write_memory (some (address, value))) s =
    any_request _ (handle_write_memory-IsDone address value s)
