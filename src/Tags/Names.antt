-- ===== src/Tags/Names.antt =====
-- The names of tags: one tag for each.
use v_plc_runtime.Shared.{
  ◌≡◌, refl, Bool, true, false, List, [], ◌∷◌, ◌++◌, if◌then◌else◌, Text, text_eq, text_eq_self,
  text_eq_sym, inl, inr, Bool-cases, arith,
}
use v_plc_runtime.Memory.{PlcMemory}
use v_plc_runtime.Tags.{
  PlcTag, find_tag, is_some, has_tag, out_of_bounds, add_tag, erase_tag, remove_tag,
}

-- No two tags have one name.
unfoldable pub unique_names : List PlcTag → Bool
unique_names [] = true
unique_names (t ∷ tags) =
    let rest = unique_names tags in if has_tag tags t.name then false else rest

has_tag-append :
    (tags : List PlcTag) (t : PlcTag) (name : Text)
    → has_tag tags name ≡ false
    → text_eq t.name name ≡ false
    → has_tag (tags ++ (t ∷ [])) name ≡ false
unfolding has_tag find_tag is_some
has_tag-append [] t name h e = ground arith
has_tag-append (u ∷ tags) t name h e = ground (arith, has_tag-append tags t name)

has_tag-append_self : (tags : List PlcTag) (t : PlcTag) → has_tag (tags ++ (t ∷ [])) t.name ≡ true
unfolding has_tag find_tag is_some
has_tag-append_self [] t = ground (arith, text_eq_self t.name)
has_tag-append_self (u ∷ tags) t = ground (arith, has_tag-append_self tags t)

erase_tag-append :
    (tags : List PlcTag) (t : PlcTag)
    → has_tag tags t.name ≡ false
    → erase_tag (tags ++ (t ∷ [])) t.name ≡ tags
unfolding has_tag find_tag is_some erase_tag
erase_tag-append [] t h = ground (arith, text_eq_self t.name)
erase_tag-append (u ∷ tags) t h = ground (arith, erase_tag-append tags t)

-- A tag whose addition succeeds is then known by its name, and its removal gives back the tags before.
pub remove_tag-add_tag :
    (m : PlcMemory) (tags : List PlcTag) (t : PlcTag)
    → (add_tag m tags t).1 ≡ true
    → (has_tag (add_tag m tags t).0 t.name ≡ true)
      × (remove_tag (add_tag m tags t).0 t.name ≡ (tags, true))
unfolding add_tag remove_tag
remove_tag-add_tag m tags t h = elim (Bool-cases (has_tag tags t.name)) [
  | inl e ↦ absurd (ground arith)
  | inr e ↦ elim (Bool-cases (out_of_bounds m t)) [
    | inl f ↦ absurd (ground arith)
    | inr f ↦ rw (e, f, has_tag-append_self tags t, erase_tag-append tags t e) (refl, refl)
  ]
]

has_tag-erase_tag :
    (tags : List PlcTag) (name other : Text)
    → has_tag tags other ≡ false
    → has_tag (erase_tag tags name) other ≡ false
unfolding has_tag find_tag is_some erase_tag
has_tag-erase_tag [] name other h = refl
has_tag-erase_tag (u ∷ tags) name other h = ground (arith, has_tag-erase_tag tags name other)

unique_names-append :
    (tags : List PlcTag) (t : PlcTag)
    → unique_names tags ≡ true
    → has_tag tags t.name ≡ false
    → unique_names (tags ++ (t ∷ [])) ≡ true
unfolding unique_names has_tag find_tag is_some
unique_names-append [] t u h = refl
unique_names-append (x ∷ tags) t u h =
    ground
      (arith, unique_names-append tags t, has_tag-append tags t x.name, text_eq_sym t.name x.name)

unique_names-erase_tag :
    (tags : List PlcTag) (name : Text)
    → unique_names tags ≡ true
    → unique_names (erase_tag tags name) ≡ true
unfolding unique_names erase_tag
unique_names-erase_tag [] name u = refl
unique_names-erase_tag (x ∷ tags) name u =
    ground (arith, unique_names-erase_tag tags name, has_tag-erase_tag tags name x.name)

pub unique_names-add_tag :
    (m : PlcMemory) (tags : List PlcTag) (t : PlcTag)
    → unique_names tags ≡ true
    → unique_names (add_tag m tags t).0 ≡ true
unfolding add_tag
unique_names-add_tag m tags t u = ground (arith, unique_names-append tags t)

pub unique_names-remove_tag :
    (tags : List PlcTag) (name : Text)
    → unique_names tags ≡ true
    → unique_names (remove_tag tags name).0 ≡ true
unfolding remove_tag
unique_names-remove_tag tags name u = ground (arith, unique_names-erase_tag tags name)
