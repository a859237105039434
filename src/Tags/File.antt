-- ===== src/Tags/File.antt =====
-- core/PlcTagManager.cpp: the configuration file, which `saveConfig` writes key by key and `loadConfig` reads key by key,
-- and the saves of `addTag` and `removeTag`. The JSON library is a parameter: its items, its printed documents, and
-- what the code calls; its documented behaviour is a hypothesis of the theorems.
use v_plc_runtime.Shared.{
  ℕ, ◌≡◌, refl, Bool, true, false, List, [], ◌∷◌, ◌++◌, arith, All-append, Option, none, some,
  if◌then◌else◌, ◌>>=◌, Text, codes, text_eq, All, IsWord,
}
use v_plc_runtime.Memory.{PlcMemory}
use v_plc_runtime.Tags.{PlcTag, add_tag, remove_tag, load_tags}
use v_plc_runtime.Tags.Config.{lacks_field}

-- The value of an assignment `item[key] = value`.
pub data Member : Type 0 where
  text : Text → Member
  number : ℕ → Member

-- The value last assigned to a key.
unfoldable pub find_member : List (Text × Member) → Text → Option Member
find_member [] key = none
find_member ((k, v) ∷ members) key = later (find_member members key)
  where
    later : Option Member → Option Member
    later none = if text_eq k key then some v else none
    later (some w) = some w

-- What the code calls of the JSON library, with its items `J` and its printed documents `D`.
pub record JsonLibrary (J D : Type 0) : Type 0 where
  -- The item that a series of assignments to keys makes.
  pub object : List (Text × Member) → J
  -- `item.value(key, default)` for a text and for a `uint16_t`; `none` is an exception.
  pub text_value : J → Text → Text → Option Text
  pub number_value : J → Text → ℕ → Option ℕ
  -- `dump(4)` of an array of items, with `none` for an exception, and the file that is open but not written to.
  pub dump : List J → Option D
  pub blank : D
  -- `file >> j`, as the items that a loop over `j` meets; `none` is an exception.
  pub read : D → Option (List J)

-- The documented behaviour that the code relies on: a member has the value assigned to it, and what was printed is read back.
pub record IsJson {J D : Type 0} (json : JsonLibrary J D) : Type 0 where
  pub assigned_text :
      (members : List (Text × Member)) (key value default : Text)
      → find_member members key ≡ some (text value)
      → json.text_value (json.object members) key default ≡ some value
  pub assigned_number :
      (members : List (Text × Member)) (key : Text) (value default : ℕ)
      → IsWord value
      → find_member members key ≡ some (number value)
      → json.number_value (json.object members) key default ≡ some value
  pub printed :
      (items : List J) (document : D)
      → json.dump items ≡ some document
      → json.read document ≡ some items

-- The assignments of `saveConfig` for a tag.
unfoldable pub members_of_tag : PlcTag → List (Text × Member)
members_of_tag t =
    (codes "name", text t.name)
    ∷ (codes "area", text t.area)
    ∷ (codes "address", number t.address)
    ∷ (codes "type", text t.type)
    ∷ (codes "description", text t.description)
    ∷ []

-- A tag that `loadConfig` keeps, with an address as `uint16_t` has it.
pub record IsStorable (t : PlcTag) : Type 0 where
  pub complete : lacks_field t ≡ false
  pub address : IsWord t.address

add_tag_appends :
    (m : PlcMemory) (tags : List PlcTag) (t : PlcTag)
    → (add_tag m tags t).1 ≡ true
    → (add_tag m tags t).0 ≡ tags ++ (t ∷ [])
unfolding add_tag
add_tag_appends m tags t h = ground arith

module _ {J D : Type 0} (json : JsonLibrary J D) where
  unfoldable pub items_of_tags : List PlcTag → List J
  items_of_tags [] = []
  items_of_tags (t ∷ tags) = json.object (members_of_tag t) ∷ items_of_tags tags

  -- The reads of `loadConfig` from an item, with their defaults.
  unfoldable pub tag_of_item : J → Option PlcTag
  tag_of_item item = do
    name ← json.text_value item (codes "name") []
    area ← json.text_value item (codes "area") []
    address ← json.number_value item (codes "address") 0
    type ← json.text_value item (codes "type") []
    description ← json.text_value item (codes "description") []
    some (record {
      name = name;
      area = area;
      address = address;
      type = type;
      description = description;
    })

  unfoldable pub tags_of_items : List J → List (Option PlcTag)
  tags_of_items [] = []
  tags_of_items (item ∷ items) = tag_of_item item ∷ tags_of_items items

  -- The file is cut when it is opened, and written once the document is printed.
  unfoldable pub write_document : Option D → Option D × Bool
  write_document none = (some json.blank, false)
  write_document (some document) = (some document, true)

  -- `saveConfig`, by whether the file opens: the file afterwards, and the result.
  unfoldable pub save_config : Bool → List PlcTag → Option D → Option D × Bool
  save_config opens tags file =
      if opens then write_document (json.dump (items_of_tags tags)) else (file, false)

  unfoldable pub load_document : List PlcTag → Option (List J) → List PlcTag × Bool
  load_document tags none = (tags, false)
  load_document tags (some items) = load_tags (tags_of_items items)

  -- `loadConfig`: the tags afterwards, and the result. A file that does not open or parse leaves the tags.
  unfoldable pub load_config : List PlcTag → Option D → List PlcTag × Bool
  load_config tags none = (tags, false)
  load_config tags (some document) = load_document tags (json.read document)

  -- `addTag` and `removeTag` with the save at their end.
  unfoldable pub add_and_save :
      Bool → PlcMemory → List PlcTag → PlcTag → Option D → (List PlcTag × Bool) × Option D
  add_and_save opens m tags tag file =
      let out = add_tag m tags tag in
      (out, if out.1 then (save_config opens out.0 file).0 else file)

  unfoldable pub remove_and_save :
      Bool → List PlcTag → Text → Option D → (List PlcTag × Bool) × Option D
  remove_and_save opens tags name file =
      let out = remove_tag tags name in
      (out, if out.1 then (save_config opens out.0 file).0 else file)

  module _ (laws : IsJson json) where
    tag_of_item-object :
        (t : PlcTag) → IsWord t.address → tag_of_item (json.object (members_of_tag t)) ≡ some t
    unfolding tag_of_item
    tag_of_item-object t w =
        rw
          (
            laws.assigned_text (members_of_tag t) (codes "name") t.name []
                (unfold members_of_tag find_member text_eq in refl),
            laws.assigned_text (members_of_tag t) (codes "area") t.area []
                (unfold members_of_tag find_member text_eq in refl),
            laws.assigned_number (members_of_tag t) (codes "address") t.address 0 w
                (unfold members_of_tag find_member text_eq in refl),
            laws.assigned_text (members_of_tag t) (codes "type") t.type []
                (unfold members_of_tag find_member text_eq in refl),
            laws.assigned_text (members_of_tag t) (codes "description") t.description []
                (unfold members_of_tag find_member text_eq in refl),
          )
          refl

    load_tags-items_of_tags :
        (tags : List PlcTag)
        → All IsStorable tags
        → load_tags (tags_of_items (items_of_tags tags)) ≡ (tags, true)
    unfolding tags_of_items items_of_tags load_tags
    load_tags-items_of_tags [] h = refl
    load_tags-items_of_tags (t ∷ tags) h =
        rw (tag_of_item-object t h.0.address, load_tags-items_of_tags tags h.1, h.0.complete) refl

    written :
        (tags before : List PlcTag) (document : Option D)
        → json.dump (items_of_tags tags) ≡ document
        → All IsStorable tags
        → (write_document document).1 ≡ true
        → load_config before (write_document document).0 ≡ (tags, true)
    unfolding write_document load_config load_document
    written tags before none e h saved = absurd (ground arith)
    written tags before (some document) e h saved =
        rw (laws.printed (items_of_tags tags) document e, load_tags-items_of_tags tags h) refl

    -- If saveConfig reports success, loadConfig of the file that it wrote reports success and gives the same tags in the same order, whatever the
    -- tags before. No tag lacks a name, an area or a type, the addresses are 16-bit, and the JSON library reads back what was assigned and printed.
    pub load_config-save_config :
        (opens : Bool) (tags before : List PlcTag) (file : Option D)
        → All IsStorable tags
        → (save_config opens tags file).1 ≡ true
        → load_config before (save_config opens tags file).0 ≡ (tags, true)
    unfolding save_config
    load_config-save_config false tags before file h saved = absurd (ground arith)
    load_config-save_config true tags before file h saved =
        written tags before (json.dump (items_of_tags tags)) refl h saved

    -- After an addTag that reports success, a loadConfig of the configuration file gives the tags with the new one at their end, where
    -- the save that addTag ends with is one that saveConfig reports as done; the tags and the library are as above.
    pub load_config-add_and_save :
        (opens : Bool) (m : PlcMemory) (tags before : List PlcTag) (t : PlcTag) (file : Option D)
        → All IsStorable tags
        → IsStorable t
        → (add_tag m tags t).1 ≡ true
        → (save_config opens (tags ++ (t ∷ [])) file).1 ≡ true
        → load_config before (add_and_save opens m tags t file).1 ≡ (tags ++ (t ∷ []), true)
    unfolding add_and_save
    load_config-add_and_save opens m tags before t file h k added saved =
        rw (added, add_tag_appends m tags t added)
          (load_config-save_config opens (tags ++ (t ∷ [])) before file
            (All-append IsStorable tags (t ∷ []) h (k, tt)) saved)
