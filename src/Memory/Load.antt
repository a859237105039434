-- ===== src/Memory/Load.antt =====
-- `loadMappings` of core/PlcMemory.cpp. Opening the file and reading the JSON document are the
-- library's: the model starts from what they deliver.
use mathlib.Core.Option.{some-injective}
use v_plc_runtime.Shared.{
  Bool, true, false, ◌||◌, ◌≡◌, refl, List, [], ◌∷◌, Option, none, some, if◌then◌else◌, Text, arith,
  All, Bool-cases, Option-cases, subst, inl, inr,
}
use v_plc_runtime.Memory.{MemoryRef, MappingRule, PlcMemory}
use v_plc_runtime.Memory.Address.{parse_address}

-- An item of the document: its "src" and "dst" texts, empty if absent, or `none` where
-- `item.value` throws because the item is no object or the member no string.
abbrev pub Item : Type 0
Item = Option (Text × Text)

pub data MappingsFile : Type 0 where
  not_opened : MappingsFile
  bad_document : MappingsFile
  document : List Item → MappingsFile

unfoldable pub is_empty : Text → Bool
is_empty [] = true
is_empty (c ∷ cs) = false

-- The rule for the two addresses, if both are read without an exception.
unfoldable pub make_rule : Text → Text → Option MemoryRef → Option MemoryRef → Option MappingRule
make_rule src_raw dst_raw none dst = none
make_rule src_raw dst_raw (some src) none = none
make_rule src_raw dst_raw (some src) (some dst) = some (record {
  src_raw = src_raw;
  dst_raw = dst_raw;
  src = src;
  dst = dst;
  last_src_val = 0;
  last_dst_val = 0;
  initialized = false;
})

-- One round of the loop: items with an empty address or an address that throws are passed over.
unfoldable pub rule_of_item : Text → Text → Option MappingRule
rule_of_item src_raw dst_raw =
    if is_empty src_raw || is_empty dst_raw
    then none
    else make_rule src_raw dst_raw (parse_address src_raw) (parse_address dst_raw)

unfoldable pub push_rule : Option MappingRule → List MappingRule → List MappingRule
push_rule none rules = rules
push_rule (some rule) rules = rule ∷ rules

-- The step of the loop, with the rest of the list already loaded.
unfoldable pub load_onto :
    Option MappingRule → Option (List MappingRule) → Option (List MappingRule)
load_onto o none = none
load_onto o (some rules) = some (push_rule o rules)

-- The loop; `none` is an exception that leaves it.
unfoldable pub load_items : List Item → Option (List MappingRule)
load_items [] = some []
load_items (none ∷ items) = none
load_items (some (src_raw, dst_raw) ∷ items) =
    load_onto (rule_of_item src_raw dst_raw) (load_items items)

unfoldable pub install : PlcMemory → Option (List MappingRule) → PlcMemory × Bool
install m none = (m, false)
install m (some rules) = (record m { mappings = rules }, true)

unfoldable pub load_mappings : PlcMemory → MappingsFile → PlcMemory × Bool
load_mappings m not_opened = (m, false)
load_mappings m bad_document = (m, false)
load_mappings m (document items) = install m (load_items items)

-- A load that reports failure leaves the memory and the rules in force as they were.
pub load_mappings_failure :
    (m : PlcMemory) (file : MappingsFile)
    → (load_mappings m file).1 ≡ false
    → (load_mappings m file).0 ≡ m
unfolding load_mappings install
load_mappings_failure m not_opened h = refl
load_mappings_failure m bad_document h = refl
load_mappings_failure m (document items) h = ground arith

-- A loaded rule is what its two texts parse to, and has not been synchronised.
pub record IsFresh (rule : MappingRule) : Type 0 where
  pub src_parsed : parse_address rule.src_raw ≡ some rule.src
  pub dst_parsed : parse_address rule.dst_raw ≡ some rule.dst
  pub not_yet : rule.initialized ≡ false

make_rule-IsFresh :
    (s d : Text) (p q : Option MemoryRef) {rule : MappingRule}
    → parse_address s ≡ p
    → parse_address d ≡ q
    → make_rule s d p q ≡ some rule
    → IsFresh rule
unfolding make_rule
make_rule-IsFresh s d none q hp hq h = cc
make_rule-IsFresh s d (some src) none hp hq h = cc
make_rule-IsFresh s d (some src) (some dst) hp hq h = record {
  src_parsed = ground arith;
  dst_parsed = ground arith;
  not_yet = ground arith;
}

rule_of_item-IsFresh :
    (s d : Text) {rule : MappingRule} → rule_of_item s d ≡ some rule → IsFresh rule
unfolding rule_of_item
rule_of_item-IsFresh s d h = elim (Bool-cases (is_empty s || is_empty d)) [
  | inl e ↦ cc (rw e at h)
  | inr e ↦ make_rule-IsFresh s d (parse_address s) (parse_address d) refl refl (rw e at h)
]

push_rule-All :
    (o : Option MappingRule) (rules : List MappingRule)
    → ((rule : MappingRule) → o ≡ some rule → IsFresh rule)
    → All IsFresh rules
    → All IsFresh (push_rule o rules)
unfolding push_rule
push_rule-All none rules f h = h
push_rule-All (some rule) rules f h = (f rule refl, h)

load_onto-IsFresh :
    (o : Option MappingRule) (tail : Option (List MappingRule)) (rules : List MappingRule)
    → ((rule : MappingRule) → o ≡ some rule → IsFresh rule)
    → ((t : List MappingRule) → tail ≡ some t → All IsFresh t)
    → load_onto o tail ≡ some rules
    → All IsFresh rules
unfolding load_onto
load_onto-IsFresh o none rules f g h = cc
load_onto-IsFresh o (some t) rules f g h =
    subst (All IsFresh) (some-injective _ _ h) (push_rule-All o t f (g t refl))

load_items-IsFresh :
    (items : List Item) (rules : List MappingRule)
    → load_items items ≡ some rules
    → All IsFresh rules
unfolding load_items
load_items-IsFresh [] rules h = subst (All IsFresh) (some-injective _ _ h) tt
load_items-IsFresh (none ∷ items) rules h = cc
load_items-IsFresh (some (s, d) ∷ items) rules h =
    load_onto-IsFresh (rule_of_item s d) (load_items items) rules
      (λ rule e. rule_of_item-IsFresh s d e) (load_items-IsFresh items) h

-- After a load that reports success every rule in force is fresh.
pub load_mappings-IsFresh :
    (m : PlcMemory) (file : MappingsFile)
    → (load_mappings m file).1 ≡ true
    → All IsFresh (load_mappings m file).0.mappings
unfolding load_mappings install
load_mappings-IsFresh m not_opened h = cc
load_mappings-IsFresh m bad_document h = cc
load_mappings-IsFresh m (document items) h = elim (Option-cases (load_items items)) [
  | inl e ↦ cc (rw e at h)
  | inr (rules, e) ↦ rw e (load_items-IsFresh items rules e)
]
