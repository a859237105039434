-- ===== src/Mc/Words.antt =====
-- Words over the wire: command 0x1401 stores the words that the client encoded, and 0x0401 sends
-- them back.
use v_plc_runtime.Shared.{
  ℕ, ◌+◌, ◌*◌, ◌/◌, ◌%◌, ◌^◌, ◌≤◌, ◌<◌, ◌≡◌, refl, ◌∙◌, ap, ap₂, false, List, [], ◌∷◌, ◌++◌, some,
  ltb, length, arith, IsWord, All, high_byte, low_byte, u16,
}
use v_plc_runtime.Memory.{PlcMemory, WordArea, words, copy_range, store_range, mc_word_area}
use v_plc_runtime.Memory.Ranges.{copy_range-store_range}
use v_plc_runtime.Mc.{
  read_uint16_le, uint16_le_bytes, mc_word_area_name, respond, is_blank, read_words_request,
  write_words_request, dispatch, process_request, read_word_points, write_word_points,
}
use v_plc_runtime.Mc.Store.{
  le_bytes, length-le_bytes, store_words, write_word_points-append, not_blank_word,
  words-store_words, read_word_points-eq,
}

-- The routing bytes of a request, which the response repeats, and the two fields that the server
-- does not read: the length and the monitoring timer.
pub record Envelope : Type 0 where
  pub network : ℕ
  pub pc : ℕ
  pub module_low : ℕ
  pub module_high : ℕ
  pub station : ℕ
  pub length_field : ℕ
  pub timer : ℕ

-- A request frame.
abbrev pub request_frame : Envelope → ℕ → ℕ → ℕ → ℕ → ℕ → List ℕ → List ℕ
request_frame env command subcommand start code points payload =
    0x50
    ∷ 0x00
    ∷ env.network
    ∷ env.pc
    ∷ env.module_low
    ∷ env.module_high
    ∷ env.station
    ∷ low_byte env.length_field
    ∷ high_byte env.length_field
    ∷ low_byte env.timer
    ∷ high_byte env.timer
    ∷ low_byte command
    ∷ high_byte command
    ∷ low_byte subcommand
    ∷ high_byte subcommand
    ∷ (start % 2 ^ 8)
    ∷ (start / 2 ^ 8 % 2 ^ 8)
    ∷ (start / 2 ^ 16)
    ∷ code
    ∷ low_byte points
    ∷ high_byte points
    ∷ payload

-- The response frame around the data that follow the end code.
abbrev pub response_frame : Envelope → List ℕ → List ℕ
response_frame env payload =
    0xD0
    ∷ 0x00
    ∷ env.network
    ∷ env.pc
    ∷ env.module_low
    ∷ env.module_high
    ∷ env.station
    ∷ (uint16_le_bytes (u16 (length (uint16_le_bytes 0 ++ payload)))
        ++ (uint16_le_bytes 0 ++ payload))

-- A request frame is handed on with its fields decoded.
pub request_frame_decoded :
    (m : PlcMemory) (env : Envelope) (command subcommand start code points : ℕ) (payload : List ℕ)
    → command < 2 ^ 16
    → subcommand < 2 ^ 16
    → points < 2 ^ 16
    → let request = request_frame env command subcommand start code points payload in
      process_request m request ≡ dispatch m request command subcommand start code points
unfolding process_request read_uint16_le
request_frame_decoded m env command subcommand start code points payload hc hs hp =
    let c : low_byte command + high_byte command * 2 ^ 8 ≡ command = omega arith in
    let s : low_byte subcommand + high_byte subcommand * 2 ^ 8 ≡ subcommand = omega arith in
    let a : start % 2 ^ 8 + start / 2 ^ 8 % 2 ^ 8 * 2 ^ 8 + start / 2 ^ 16 * 2 ^ 16 ≡ start =
      omega arith in
    let p : low_byte points + high_byte points * 2 ^ 8 ≡ points = omega arith in
    let long : ltb (length (request_frame env command subcommand start code points payload)) 21
        ≡ false =
      ground arith in
    rw (long, c, s, a, p)

module _ (m : PlcMemory) (env : Envelope) (start code : ℕ) (vs : List ℕ) (a : WordArea) where
  -- The memory after the write.
  abbrev pub after : PlcMemory
  after = store_words m (mc_word_area_name code) start 0 vs

  -- processRequest, given a frame that writes at most 32766 words to an area that the device
  -- code names, in the area's bounds, acknowledges and stores the words in the vector of that
  -- area; given the frame that reads the same words next, it sends them back.
  pub write_then_read_words :
      mc_word_area (mc_word_area_name code) ≡ some a
      → start + length vs ≤ length (words m a)
      → length (words m a) ≤ 2 ^ 16
      → length vs ≤ 32766
      → All IsWord vs
      → (process_request m (request_frame env 0x1401 0 start code (length vs) (le_bytes vs))
          ≡ some (after, response_frame env []))
        × (words after a ≡ store_range (words m a) start vs)
        × (process_request after (request_frame env 0x0401 0 start code (length vs) [])
            ≡ some (after, response_frame env (le_bytes vs)))
  write_then_read_words named fits small most hw =
      let n = length vs in
      let area = mc_word_area_name code in
      let header = request_frame env 0x1401 0 start code n [] in
      let not_blank : is_blank area ≡ false = not_blank_word area named in
      let begin : start + 0 ≡ start = omega arith in
      let stored : words after a ≡ store_range (words m a) start vs =
        words-store_words area start m a 0 vs named (omega arith)
        ∙ ap (λ j. store_range (words m a) j vs) begin in
      let sent : read_word_points after area start 0 n ≡ le_bytes vs =
        read_word_points-eq area start after a 0 n named (omega arith)
        ∙ ap₂ (λ l j. le_bytes (copy_range l 0 j n)) stored begin
        ∙ ap le_bytes (copy_range-store_range (words m a) 0 start vs fits) in
      let wrote : write_word_points m (request_frame env 0x1401 0 start code n (le_bytes vs)) area
            start 0 n
          ≡ some after =
        write_word_points-append m header vs area start 0 hw refl in
      let room : ltb (length (request_frame env 0x1401 0 start code n (le_bytes vs))) (21 + n * 2)
          ≡ false =
        ground (arith, length-le_bytes vs) in
      (
        request_frame_decoded m env 0x1401 0 start code n (le_bytes vs) (omega arith) (omega arith)
              (omega arith)
            ∙ (unfold dispatch write_words_request respond in rw (not_blank, room, wrote)),
        stored,
        request_frame_decoded after env 0x0401 0 start code n [] (omega arith) (omega arith)
              (omega arith)
            ∙ (unfold dispatch read_words_request respond in rw (not_blank, sent)),
      )
