-- ===== src/Tags/Config.antt =====
-- The tags that `loadConfig`, `addTag` and `removeTag` leave: one for each name, and none that lacks a field.
use v_plc_runtime.Shared.{
  ◌≡◌, Bool, true, false, ◌||◌, List, [], ◌∷◌, Option, none, some, Text, text_eq, either_branch,
  All, All-append,
}
use v_plc_runtime.Memory.{PlcMemory}
use v_plc_runtime.Tags.{
  PlcTag, has_tag, out_of_bounds, add_tag, erase_tag, remove_tag, is_empty, load_tags,
}
use v_plc_runtime.Tags.Names.{unique_names, unique_names-add_tag, unique_names-remove_tag}

-- The fields without which an item is left out.
abbrev pub lacks_field : PlcTag → Bool
lacks_field t = is_empty t.name || (is_empty t.area || is_empty t.type)

abbrev IsComplete : PlcTag → Type 0
IsComplete t = lacks_field t ≡ false

-- What the list of tags is like: one tag for each name, and no field missing.
pub record IsConfig (tags : List PlcTag) : Type 0 where
  pub unique : unique_names tags ≡ true
  pub complete : All IsComplete tags

IsComplete-erase_tag :
    (tags : List PlcTag) (name : Text) → All IsComplete tags → All IsComplete (erase_tag tags name)
unfolding erase_tag
IsComplete-erase_tag [] name h = h
IsComplete-erase_tag (t ∷ tags) name h =
    either_branch (All IsComplete) (text_eq t.name name) _ _ (λ _. h.1)
      (λ _. (h.0, IsComplete-erase_tag tags name h.1))

pub add_tag-IsConfig :
    (m : PlcMemory) (tags : List PlcTag) (t : PlcTag)
    → lacks_field t ≡ false
    → IsConfig tags
    → IsConfig (add_tag m tags t).0
add_tag-IsConfig m tags t e h = record {
  unique = unique_names-add_tag m tags t h.unique;
  complete = completes;
}
  where
    completes : All IsComplete (add_tag m tags t).0
    completes =
        unfold add_tag in
        either_branch (λ (o : List PlcTag × Bool). All IsComplete o.0) (has_tag tags t.name) _ _
          (λ _. h.complete)
          (λ _.
            either_branch (λ (o : List PlcTag × Bool). All IsComplete o.0) (out_of_bounds m t) _ _
              (λ _. h.complete) (λ _. All-append IsComplete tags (t ∷ []) h.complete (e, tt)))

pub remove_tag-IsConfig :
    (tags : List PlcTag) (name : Text) → IsConfig tags → IsConfig (remove_tag tags name).0
remove_tag-IsConfig tags name h = record {
  unique = unique_names-remove_tag tags name h.unique;
  complete = completes;
}
  where
    completes : All IsComplete (remove_tag tags name).0
    completes =
        unfold remove_tag in
        either_branch (λ (o : List PlcTag × Bool). All IsComplete o.0) (has_tag tags name) _ _
          (λ _. IsComplete-erase_tag tags name h.complete) (λ _. h.complete)

-- A load leaves out what lacks a field.
pub load_tags-IsComplete : (items : List (Option PlcTag)) → All IsComplete (load_tags items).0
unfolding load_tags
load_tags-IsComplete [] = tt
load_tags-IsComplete (none ∷ items) = tt
load_tags-IsComplete (some t ∷ items) =
    let rest = load_tags-IsComplete items in
    either_branch (λ (o : List PlcTag × Bool). All IsComplete o.0) (lacks_field t) _ _ (λ _. rest)
      (λ e. (e, rest))
