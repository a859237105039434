-- ===== src/Mc/Total.antt =====
-- Every request frame of bytes has an answer.
use v_plc_runtime.Shared.{
  ℕ, zero, suc, ◌+◌, ◌*◌, ◌/◌, ◌^◌, ◌≤◌, ◌≡◌, refl, Bool, true, false, List, ◌++◌, Option, ◌==◌,
  ltb, if◌then◌else◌, length, arith, IsBytes, IsWord, Yields, u16, Yields-bind, Yields-byte,
  Yields-mono, Text,
}
use v_plc_runtime.Memory.{PlcMemory, write_mc_word, write_mc_bit}
use v_plc_runtime.Memory.Shape.{IsKept, IsKept-refl, IsKept-trans}
use v_plc_runtime.Mc.{
  read_uint16_le, uint16_le_bytes, mc_word_area_name, mc_bit_area_name, read_word_points,
  write_word_points, point_value, write_bit_points, is_blank, read_words_request, read_bits_request,
  write_words_request, write_bits_request, dispatch, process_request,
}
use v_plc_runtime.Mc.Answer.{
  IsAnswer, fail-IsAnswer, read_uint16_le-Yields, respond-Yields, read_word_points-IsBytes,
  write_mc_word-IsKept, write_mc_bit-IsKept,
}
use v_plc_runtime.Mc.Nibbles.{nibble_bytes, bit_points, read_bit_points_lem, nibble_bytes-IsBytes}

write_word_points-Yields :
    (m : PlcMemory) (request : List ℕ) (area : Text) (s i n : ℕ)
    → IsBytes request
    → 21 + (i + n) * 2 ≤ length request
    → Yields (IsKept m) (write_word_points m request area s i n)
unfolding write_word_points
write_word_points-Yields m request area s i zero b h = IsKept-refl m
write_word_points-Yields m request area s i (suc n) b h =
    Yields-bind IsWord (IsKept m) (read_uint16_le request (21 + i * 2)) _
      (read_uint16_le-Yields request (21 + i * 2) b (omega arith))
      λ v hv.
        let k = write_mc_word m area (u16 (s + i)) v in
        Yields-mono (IsKept k) (IsKept m) (write_word_points k request area s (i + 1) n)
          (λ o h'. IsKept-trans (write_mc_word-IsKept m area (u16 (s + i)) v hv) h')
          (write_word_points-Yields k request area s (i + 1) n b (omega arith))

write_bit_points-Yields :
    (m : PlcMemory) (request : List ℕ) (area : Text) (s i n : ℕ)
    → IsBytes request
    → 21 + (i + n + 1) / 2 ≤ length request
    → Yields (IsKept m) (write_bit_points m request area s i n)
unfolding write_bit_points
write_bit_points-Yields m request area s i zero b h = IsKept-refl m
write_bit_points-Yields m request area s i (suc n) b h =
    Yields-byte (IsKept m) request (21 + i / 2) _ b (omega arith) λ v hv.
      let k = write_mc_bit m area (u16 (s + i)) (point_value i v) in
      Yields-mono (IsKept k) (IsKept m) (write_bit_points k request area s (i + 1) n)
        (λ o h'. IsKept-trans (write_mc_bit-IsKept m area (u16 (s + i)) (point_value i v)) h')
        (write_bit_points-Yields k request area s (i + 1) n b (omega arith))

Yields-if :
    (m : PlcMemory) (c : Bool) (x y : Option (PlcMemory × List ℕ))
    → (c ≡ true → Yields (IsAnswer m) x)
    → (c ≡ false → Yields (IsAnswer m) y)
    → Yields (IsAnswer m) (if c then x else y)
Yields-if m true x y p q = p refl
Yields-if m false x y p q = q refl

module _ (m : PlcMemory) (request : List ℕ) (b : IsBytes request) (long : 21 ≤ length request)
    (s code n : ℕ) where
  read_words-Yields : Yields (IsAnswer m) (read_words_request m request s code n)
  unfolding read_words_request
  read_words-Yields =
      Yields-if m (is_blank (mc_word_area_name code)) _ _ (λ _. fail-IsAnswer m 0xC05C)
        λ _.
          respond-Yields request
            (uint16_le_bytes 0 ++ read_word_points m (mc_word_area_name code) s 0 n) b long
            (IsKept-refl m)
            (omega arith, (omega arith, read_word_points-IsBytes m (mc_word_area_name code) s 0 n))
            (omega arith)

  read_bits-Yields : Yields (IsAnswer m) (read_bits_request m request s code n)
  unfolding read_bits_request
  read_bits-Yields =
      let area = mc_bit_area_name code in
      rw (read_bit_points_lem m area s n) (
        Yields-if m (is_blank area) _ _ (λ _. fail-IsAnswer m 0xC05C)
          λ _.
            respond-Yields request (uint16_le_bytes 0 ++ nibble_bytes (bit_points m area s 0 n)) b
              long (IsKept-refl m)
              (omega arith, (omega arith, nibble_bytes-IsBytes (bit_points m area s 0 n)))
              (omega arith))

  write_words-Yields : Yields (IsAnswer m) (write_words_request m request s code n)
  unfolding write_words_request
  write_words-Yields =
      let area = mc_word_area_name code in
      Yields-if m (is_blank area) _ _ (λ _. fail-IsAnswer m 0xC05C)
        λ _.
          Yields-if m (ltb (length request) (21 + n * 2)) _ _ (λ _. fail-IsAnswer m 0xC051)
            λ e.
              Yields-bind (IsKept m) (IsAnswer m) (write_word_points m request area s 0 n) _
                (write_word_points-Yields m request area s 0 n b (ground arith))
                λ m' kept.
                  respond-Yields request (uint16_le_bytes 0) b long kept (omega arith) (omega arith)

  write_bits-Yields : Yields (IsAnswer m) (write_bits_request m request s code n)
  unfolding write_bits_request
  write_bits-Yields =
      let area = mc_bit_area_name code in
      Yields-if m (is_blank area) _ _ (λ _. fail-IsAnswer m 0xC05C)
        λ _.
          Yields-if m (ltb (length request) (21 + (n + 1) / 2)) _ _ (λ _. fail-IsAnswer m 0xC051)
            λ e.
              Yields-bind (IsKept m) (IsAnswer m) (write_bit_points m request area s 0 n) _
                (write_bit_points-Yields m request area s 0 n b (ground arith))
                λ m' kept.
                  respond-Yields request (uint16_le_bytes 0) b long kept (omega arith) (omega arith)

  dispatch-Yields :
      (command subcommand : ℕ)
      → Yields (IsAnswer m) (dispatch m request command subcommand s code n)
  unfolding dispatch
  dispatch-Yields command subcommand =
      Yields-if m (command == 0x0401) _ _
        (λ _.
          Yields-if m (subcommand == 0) _ _ (λ _. read_words-Yields)
            (λ _.
              Yields-if m (subcommand == 1) _ _ (λ _. read_bits-Yields)
                (λ _. fail-IsAnswer m 0xC051)))
        (λ _.
          Yields-if m (command == 0x1401) _ _
            (λ _.
              Yields-if m (subcommand == 0) _ _ (λ _. write_words-Yields)
                (λ _.
                  Yields-if m (subcommand == 1) _ _ (λ _. write_bits-Yields)
                    (λ _. fail-IsAnswer m 0xC051)))
            (λ _. fail-IsAnswer m 0xC051))

-- Every request frame of bytes has an answer, a frame of at least eleven bytes, and the memory keeps
-- its shape and its invariant.
pub process_request-Answers :
    (m : PlcMemory) (request : List ℕ)
    → IsBytes request
    → Yields (IsAnswer m) (process_request m request)
unfolding process_request
process_request-Answers m request b =
    Yields-if m (ltb (length request) 21) _ _ (λ _. fail-IsAnswer m 0xC051)
      λ e.
        (let long : 21 ≤ length request = ground arith in
          Yields-bind IsWord (IsAnswer m) (read_uint16_le request 11) _
            (read_uint16_le-Yields request 11 b (omega arith))
            λ command hc.
              Yields-bind IsWord (IsAnswer m) (read_uint16_le request 13) _
                (read_uint16_le-Yields request 13 b (omega arith))
                λ subcommand hs. Yields-byte (IsAnswer m) request 15 _ b (omega arith) λ low hl.
                  Yields-byte (IsAnswer m) request 16 _ b (omega arith) λ middle hm.
                    Yields-byte (IsAnswer m) request 17 _ b (omega arith) λ high hh.
                      Yields-byte (IsAnswer m) request 18 _ b (omega arith) λ code hd.
                        Yields-bind IsWord (IsAnswer m) (read_uint16_le request 19) _
                          (read_uint16_le-Yields request 19 b (omega arith))
                          λ points hp.
                            dispatch-Yields m request b long (low + middle * 2 ^ 8 + high * 2 ^ 16)
                              code points command subcommand)
