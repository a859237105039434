-- ===== src/Xgt/Blocks.antt =====
-- The block loops of the XGT server against the blocks that a client encodes.
use v_plc_runtime.Shared.{
  ℕ, ◌+◌, ◌^◌, ◌<◌, ◌≡◌, refl, ◌∙◌, ap, sym, false, not, List, [], ◌∷◌, ◌++◌, append_assoc, Option,
  some, ◌==◌, ltb, length, length-append, get_elem?, get_elem?-append_right, drop, take-append,
  drop-append, arith, low_byte, high_byte, IsWord, All, Text, if◌then◌else◌, inl, inr, Bool-cases,
}
use v_plc_runtime.Memory.{PlcMemory, write_ls_word, write_ls_bit}
use v_plc_runtime.Xgt.{
  read_uint16_le, uint16_le_bytes, Target, resolve_address, flat_idx, fixed_data_len, block_name,
  block_target, block_bytes, read_blocks, store_block, write_data, write_on, write_blocks,
}

-- A block of a request: the name of a variable, what it resolves to, and the value to write.
pub record Block : Type 0 where
  pub name : Text
  pub target : Target
  pub value : ℕ

pub record IsBlock (b : Block) : Type 0 where
  pub resolved : resolve_address b.name ≡ some b.target
  pub short : length b.name < 2 ^ 16
  pub word : IsWord b.value

-- The data of a block: one byte for a bit, two for a word, behind their number.
unfoldable pub data_bytes : Block → List ℕ
data_bytes b =
    if b.target.is_bit
    then uint16_le_bytes 1 ++ (low_byte b.value ∷ [])
    else uint16_le_bytes 2 ++ uint16_le_bytes b.value

-- The blocks of a write request, and those of a read request.
unfoldable pub write_bytes : List Block → List ℕ
write_bytes [] = []
write_bytes (b ∷ bs) =
    uint16_le_bytes (length b.name) ++ (b.name ++ (data_bytes b ++ write_bytes bs))

unfoldable pub read_bytes : List Block → List ℕ
read_bytes [] = []
read_bytes (b ∷ bs) = uint16_le_bytes (length b.name) ++ (b.name ++ read_bytes bs)

-- The memory after the write of a block, and of all of them in turn.
unfoldable pub store_value : PlcMemory → Block → PlcMemory
store_value m b =
    if b.target.is_bit
    then write_ls_bit m (b.target.area_char ∷ []) (flat_idx b.target) (not (low_byte b.value == 0))
    else write_ls_word m b.target.index b.value

unfoldable pub store_all : PlcMemory → List Block → PlcMemory
store_all m [] = m
store_all m (b ∷ bs) = store_all (store_value m b) bs

-- The data of a read response.
unfoldable pub all_bytes : PlcMemory → List Block → List ℕ
all_bytes m [] = []
all_bytes m (b ∷ bs) = block_bytes m b.target ++ all_bytes m bs

pub read_uint16_le-append :
    (pre rest : List ℕ) (v i : ℕ)
    → v < 2 ^ 16
    → i ≡ length pre
    → read_uint16_le (pre ++ (low_byte v ∷ high_byte v ∷ rest)) i ≡ some v
unfolding read_uint16_le
read_uint16_le-append pre rest v i h e =
    let l : List ℕ = low_byte v ∷ high_byte v ∷ rest in
    let first : get_elem? (pre ++ l) i ≡ some (low_byte v) =
      ap (get_elem? (pre ++ l)) (omega arith) ∙ get_elem?-append_right pre l 0 in
    let second : get_elem? (pre ++ l) (i + 1) ≡ some (high_byte v) =
      ap (get_elem? (pre ++ l)) (omega arith) ∙ get_elem?-append_right pre l 1 in
    rw (first, second) (ap some (omega arith))

-- A name that stands in the request is found and resolved.
block_name-append :
    (pre name rest : List ℕ) (t : Target) (o : ℕ)
    → o ≡ length pre
    → resolve_address name ≡ some t
    → block_name (pre ++ (name ++ rest)) o (length name) ≡ some (t, o + length name)
unfolding block_name
block_name-append pre name rest t o e h =
    let room : ltb (length (pre ++ (name ++ rest))) (o + length name) ≡ false =
      ground (arith, length-append pre (name ++ rest), length-append name rest) in
    let skipped : drop o (pre ++ (name ++ rest)) ≡ name ++ rest =
      ap (λ i. drop i (pre ++ (name ++ rest))) e ∙ drop-append pre (name ++ rest) in
    rw (room, skipped, take-append name rest, h)

pub block_target-append :
    (pre rest : List ℕ) (b : Block) (o : ℕ)
    → o ≡ length pre
    → IsBlock b
    → block_target (pre ++ (uint16_le_bytes (length b.name) ++ (b.name ++ rest))) o
      ≡ some (some (b.target, o + 2 + length b.name))
unfolding block_target
block_target-append pre rest b o e h =
    let le : List ℕ = uint16_le_bytes (length b.name) in
    let room : ltb (length (pre ++ (le ++ (b.name ++ rest)))) (o + 2) ≡ false =
      ground (arith, length-append pre (le ++ (b.name ++ rest))) in
    let named : block_name (pre ++ (le ++ (b.name ++ rest))) (o + 2) (length b.name)
        ≡ some (b.target, o + 2 + length b.name) =
      ap (λ l. block_name l (o + 2) (length b.name)) (sym (append_assoc pre le (b.name ++ rest)))
      ∙ block_name-append (pre ++ le) b.name rest b.target (o + 2)
          (omega (arith, length-append pre le)) h.resolved in
    rw (room, read_uint16_le-append pre (b.name ++ rest) (length b.name) o h.short e, named)

store_block-append :
    (m : PlcMemory) (pre rest : List ℕ) (b : Block) (o : ℕ)
    → o ≡ length pre
    → IsBlock b
    → (k : PlcMemory → ℕ → Option (ℕ × PlcMemory))
    → write_on m (pre ++ (data_bytes b ++ rest)) k (some (b.target, o))
      ≡ k (store_value m b) (o + length (data_bytes b))
unfolding write_on write_data store_block data_bytes store_value fixed_data_len
store_block-append m pre rest b o e h k = elim (Bool-cases b.target.is_bit) [
  | inl bit ↦
      (let l : List ℕ = low_byte 1 ∷ high_byte 1 ∷ low_byte b.value ∷ rest in
        let room : ltb (length (pre ++ l)) (o + 2) ≡ false = ground (arith, length-append pre l) in
        let fits : ltb (length (pre ++ l)) (o + 2 + 1) ≡ false =
          ground (arith, length-append pre l) in
        let val : get_elem? (pre ++ l) (o + 2) ≡ some (low_byte b.value) =
          ap (get_elem? (pre ++ l)) (omega arith) ∙ get_elem?-append_right pre l 2 in
        rw
          (
            bit,
            room,
            read_uint16_le-append pre (low_byte b.value ∷ rest) 1 o (omega arith) e,
            fits,
            val,
          )
          (ap (k _) (omega arith)))
  | inr word ↦
      (let l : List ℕ = low_byte 2 ∷ high_byte 2 ∷ low_byte b.value ∷ high_byte b.value ∷ rest in
        let next : List ℕ = pre ++ (low_byte 2 ∷ high_byte 2 ∷ []) in
        let room : ltb (length (pre ++ l)) (o + 2) ≡ false = ground (arith, length-append pre l) in
        let fits : ltb (length (pre ++ l)) (o + 2 + 2) ≡ false =
          ground (arith, length-append pre l) in
        let val : read_uint16_le (pre ++ l) (o + 2) ≡ some b.value =
          ap (λ q. read_uint16_le q (o + 2))
            (sym (
              append_assoc pre (low_byte 2 ∷ high_byte 2 ∷ [])
                (low_byte b.value ∷ high_byte b.value ∷ rest)))
          ∙ read_uint16_le-append next rest b.value (o + 2) h.word
              (omega (arith, length-append pre (low_byte 2 ∷ high_byte 2 ∷ []))) in
        rw
          (
            word,
            room,
            read_uint16_le-append pre (low_byte b.value ∷ high_byte b.value ∷ rest) 2 o
                (omega arith) e,
            fits,
            val,
          )
          (ap (k _) (omega arith)))
]

-- The write loop stores every block of the request.
pub write_blocks-write_bytes :
    (m : PlcMemory) (pre : List ℕ) (bs : List Block) (o : ℕ)
    → o ≡ length pre
    → All IsBlock bs
    → write_blocks m (pre ++ write_bytes bs) o (length bs) ≡ some (0, store_all m bs)
unfolding write_blocks write_bytes store_all
write_blocks-write_bytes m pre [] o e h = refl
write_blocks-write_bytes m pre (b ∷ bs) o e h =
    let le : List ℕ = uint16_le_bytes (length b.name) in
    let rest : List ℕ = write_bytes bs in
    let request : List ℕ = pre ++ (le ++ (b.name ++ (data_bytes b ++ rest))) in
    let named : List ℕ = pre ++ (le ++ b.name) in
    let at_data : named ++ (data_bytes b ++ rest) ≡ request =
      append_assoc pre (le ++ b.name) (data_bytes b ++ rest) in
    let next : List ℕ = named ++ data_bytes b in
    let at_next : next ++ rest ≡ request = append_assoc named (data_bytes b) rest ∙ at_data in
    let o' : ℕ = o + 2 + length b.name in
    let here : o' ≡ length named = omega (arith, length-append pre (le ++ b.name)) in
    let there : o' + length (data_bytes b) ≡ length next =
      omega (arith, here, length-append named (data_bytes b)) in
    rw (block_target-append pre (data_bytes b ++ rest) b o e h.0) (
      ap (λ q. write_on m q (λ m' j. write_blocks m' request j (length bs)) (some (b.target, o')))
        (sym at_data)
      ∙ store_block-append m named rest b o' here h.0
          (λ m' j. write_blocks m' request j (length bs))
      ∙ ap (λ q. write_blocks (store_value m b) q (o' + length (data_bytes b)) (length bs))
          (sym at_next)
      ∙ write_blocks-write_bytes (store_value m b) next bs (o' + length (data_bytes b)) there h.1)

-- The read loop sends the value of every block of the request.
pub read_blocks-read_bytes :
    (m : PlcMemory) (pre : List ℕ) (bs : List Block) (o : ℕ)
    → o ≡ length pre
    → All IsBlock bs
    → read_blocks m (pre ++ read_bytes bs) o (length bs) ≡ some (0, all_bytes m bs)
unfolding read_blocks read_bytes all_bytes
read_blocks-read_bytes m pre [] o e h = refl
read_blocks-read_bytes m pre (b ∷ bs) o e h =
    let le : List ℕ = uint16_le_bytes (length b.name) in
    let rest : List ℕ = read_bytes bs in
    let request : List ℕ = pre ++ (le ++ (b.name ++ rest)) in
    let next : List ℕ = pre ++ (le ++ b.name) in
    let at_next : next ++ rest ≡ request = append_assoc pre (le ++ b.name) rest in
    let o' : ℕ = o + 2 + length b.name in
    let there : o' ≡ length next = omega (arith, length-append pre (le ++ b.name)) in
    let tail : read_blocks m request o' (length bs) ≡ some (0, all_bytes m bs) =
      ap (λ q. read_blocks m q o' (length bs)) (sym at_next)
      ∙ read_blocks-read_bytes m next bs o' there h.1 in
    rw (block_target-append pre rest b o e h.0, tail)
