-- ===== src/Xgt/Requests.antt =====
-- Individual requests of the XGT server: a packet of encoded blocks, and a packet whose last block
-- announces no data.
use v_plc_runtime.Shared.{
  ℕ, ◌+◌, ◌^◌, ◌≤◌, ◌<◌, ◌≡◌, ◌≢◌, ◌∙◌, ap, sym, inl, inr, Bool-cases, false, List, [], ◌∷◌, ◌++◌,
  append_assoc, none, some, ◌==◌, ltb, length, length-append, get_elem?, get_elem?-eq-none, arith,
  IsWord,
}
use v_plc_runtime.Memory.{PlcMemory}
use v_plc_runtime.Xgt.{
  read_uint16_le, uint16_le_bytes, Target, write_blocks, write_on, write_data, store_block,
  fixed_data_len, individual_request, individual_dispatch, dispatch, process_request,
}
use v_plc_runtime.Xgt.Blocks.{Block, IsBlock, read_uint16_le-append, block_target-append}

-- The packet of an individual request: a header of twenty bytes, the command, the data type, two
-- reserved bytes and the number of blocks, then the blocks.
abbrev pub fields : ℕ → ℕ → ℕ → List ℕ
fields command data_type count =
    uint16_le_bytes command ++ (uint16_le_bytes data_type ++ (0 ∷ 0 ∷ uint16_le_bytes count))

abbrev pub packet : List ℕ → ℕ → ℕ → ℕ → List ℕ → List ℕ
packet header command data_type count blocks = (header ++ fields command data_type count) ++ blocks

-- A store behind the end of the request is a read out of range.
store_block-eq-none :
    (m : PlcMemory) (request : List ℕ) (t : Target) (o : ℕ)
    → get_elem? request o ≡ none
    → store_block m request t o ≡ none
unfolding store_block read_uint16_le
store_block-eq-none m request t o h = elim (Bool-cases t.is_bit) [
  | inl e ↦ rw (e, h)
  | inr e ↦ rw (e, h)
]

module _ (m : PlcMemory) (header : List ℕ) (data_type : ℕ) (size : length header ≡ 20)
    (word : IsWord data_type) where
  -- The fields of a packet are decoded.
  packet_decoded :
      (command count : ℕ) (blocks : List ℕ)
      → command < 2 ^ 16
      → count < 2 ^ 16
      → data_type ≢ 0x0014
      → 2 ≤ length blocks
      → let request = packet header command data_type count blocks in
        process_request m request ≡ individual_dispatch m request command data_type count
  unfolding process_request dispatch individual_request
  packet_decoded command count blocks hc hn other h2 =
      let request : List ℕ = packet header command data_type count blocks in
      let f : List ℕ = fields command data_type count in
      let spread : request ≡ header ++ (f ++ blocks) = append_assoc header f blocks in
      let behind : List ℕ = uint16_le_bytes count ++ blocks in
      let long : ltb (length request) 30 ≡ false =
        ground (arith, length-append (header ++ f) blocks, length-append header f) in
      let c : read_uint16_le request 20 ≡ some command =
        ap (λ l. read_uint16_le l 20) spread
        ∙ read_uint16_le-append header _ command 20 hc (sym size) in
      let t : read_uint16_le request 22 ≡ some data_type =
        ap (λ l. read_uint16_le l 22)
          (spread ∙ sym (append_assoc header (uint16_le_bytes command) _))
        ∙ read_uint16_le-append (header ++ uint16_le_bytes command) _ data_type 22 word
            (omega (arith, length-append header (uint16_le_bytes command))) in
      let before : List ℕ =
        uint16_le_bytes command ++ (uint16_le_bytes data_type ++ (0 ∷ 0 ∷ [])) in
      let n : read_uint16_le request 26 ≡ some count =
        ap (λ l. read_uint16_le l 26) (spread ∙ sym (append_assoc header before behind))
        ∙ read_uint16_le-append (header ++ before) blocks count 26 hn
            (omega (arith, length-append header before)) in
      let kind : (data_type == 0x0014) ≡ false = ground arith in rw (long, c, t, kind, n)

  module _ (first : Block) (others : List Block) where
    abbrev pub blocks_of : List Block
    blocks_of = first ∷ others

  -- A write packet of one block that announces no data at its end is not refused: the value is read behind the end of the
  -- packet.
  pub individual_write_reads_behind :
      (b : Block)
      → IsBlock b
      → data_type ≢ 0x0014
      → process_request m (
          packet header 0x0058 data_type 1
            (uint16_le_bytes (length b.name) ++ (b.name ++ uint16_le_bytes 0)))
        ≡ none
  individual_write_reads_behind b h other =
      let name : List ℕ = uint16_le_bytes (length b.name) ++ b.name in
      let blocks : List ℕ = uint16_le_bytes (length b.name) ++ (b.name ++ uint16_le_bytes 0) in
      let pre : List ℕ = header ++ fields 0x0058 data_type 1 in
      let request : List ℕ = pre ++ blocks in
      let o : ℕ = 30 + length b.name in
      let spread : (pre ++ name) ++ uint16_le_bytes 0 ≡ request =
        append_assoc pre name (uint16_le_bytes 0) in
      let before : 28 ≡ length pre =
        omega (arith, length-append header (fields 0x0058 data_type 1)) in
      let here : o ≡ length (pre ++ name) = omega (arith, length-append pre name) in
      let size_of : length request ≡ o + 2 =
        omega (arith, ap length spread, length-append (pre ++ name) (uint16_le_bytes 0)) in
      let len : read_uint16_le request o ≡ some 0 =
        ap (λ l. read_uint16_le l o) (sym spread)
        ∙ read_uint16_le-append (pre ++ name) [] 0 o (omega arith) here in
      let behind : get_elem? request (o + 2) ≡ none =
        get_elem?-eq-none request (o + 2) (omega arith) in
      let room : ltb (length request) (o + 2) ≡ false = ground arith in
      let fits : ltb (length request) (o + 2 + 0) ≡ false = ground arith in
      packet_decoded 0x0058 1 blocks (omega arith) (omega arith) other (omega arith)
      ∙ (unfold individual_dispatch write_blocks in
          rw (block_target-append pre (uint16_le_bytes 0) b 28 before h) (
            unfold write_on write_data fixed_data_len in
            rw (room, len, fits, store_block-eq-none m request b.target (o + 2) behind)))
