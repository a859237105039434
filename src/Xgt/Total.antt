-- ===== src/Xgt/Total.antt =====
-- Requests that the XGT server always answers.
use v_plc_runtime.Shared.{
  ℕ, ◌+◌, ◌*◌, ◌/◌, ◌^◌, ◌≤◌, ◌<◌, ◌≡◌, ◌≢◌, ◌⊎◌, inl, inr, List, [], Option, none, some, ◌==◌, ltb,
  length, length-append, length-take, get_or, get_elem?-eq-get_or, take, drop, All-take, All-append,
  arith, IsByte, IsBytes, IsWord, Yields, Yields-bind, Yields-byte,
}
use v_plc_runtime.Memory.{PlcMemory}
use v_plc_runtime.Memory.Shape.{IsKept, IsKept-refl}
use v_plc_runtime.Xgt.{
  read_uint16_le, Target, fixed_data_len, error_packet, response_command, respond, resolve_address,
  store_continuous, continuous_read, continuous_store, continuous_write, continuous_dispatch,
  continuous_request, read_blocks, individual_dispatch, individual_request, dispatch,
  process_request,
}
use v_plc_runtime.Xgt.Reads.{
  read_uint16_le-Yields, Yields-if, continuous_words-IsBytes, store_continuous-Yields,
  read_blocks-Yields,
}

-- The memory keeps its shape and its invariant; the response is a packet of at least thirty bytes.
pub record IsResponse (m : PlcMemory) (out : PlcMemory × List ℕ) : Type 0 where
  pub kept : IsKept m out.0
  pub at_least : 30 ≤ length out.1
  pub bytes : IsBytes out.1

error_packet-IsResponse :
    (m : PlcMemory) (command status : ℕ) → IsResponse m (m, error_packet command status)
unfolding error_packet
error_packet-IsResponse m command status = record {
  kept = IsKept-refl m;
  at_least = omega arith;
  bytes = omega arith;
}

module _ (request : List ℕ) (b : IsBytes request) where
  module _ (m : PlcMemory) (long : 30 ≤ length request) where
    respond-Yields :
        (n : PlcMemory) (command data_type status count : ℕ) (payload : List ℕ)
        → IsKept m n
        → IsBytes payload
        → Yields (IsResponse m) (respond n request command data_type status count payload)
    unfolding respond
    respond-Yields n command data_type status count payload kept h =
        Yields-byte (IsResponse m) request 12 _ b (omega arith) λ a ha.
          Yields-byte (IsResponse m) request 14 _ b (omega arith) λ c hc.
            Yields-byte (IsResponse m) request 15 _ b (omega arith) λ d hd.
              Yields-byte (IsResponse m) request 18 _ b (omega arith) λ e he.
                Yields-byte (IsResponse m) request 19 _ b (omega arith) λ f hf. record {
                  kept = kept;
                  at_least =
                      omega (arith, length-append (take 12 request) _, length-take 12 request);
                  bytes = All-append IsByte (take 12 request) _ (All-take IsByte 12 request b) (
                    ha,
                    (
                      omega arith,
                      (
                        hc,
                        (
                          hd,
                          (
                            omega arith,
                            (
                              omega arith,
                              (
                                he,
                                (
                                  hf,
                                  (
                                    omega arith,
                                    (
                                      omega arith,
                                      (
                                        omega arith,
                                        (
                                          omega arith,
                                          (
                                            omega arith,
                                            (
                                              omega arith,
                                              (
                                                omega arith,
                                                (omega arith, (omega arith, (omega arith, h))),
                                              ),
                                            ),
                                          ),
                                        ),
                                      ),
                                    ),
                                  ),
                                ),
                              ),
                            ),
                          ),
                        ),
                      ),
                    ),
                  );
                }

    refused :
        (command data_type status count : ℕ)
        → Yields (IsResponse m) (respond m request command data_type status count [])
    refused command data_type status count =
        respond-Yields m command data_type status count [] (IsKept-refl m) tt

    continuous_read-Yields :
        (data_type var_len : ℕ) (target : Option Target)
        → Yields (IsResponse m) (continuous_read m request data_type var_len target)
    unfolding continuous_read
    continuous_read-Yields data_type var_len none = refused 0x0054 data_type 0x1102 1
    continuous_read-Yields data_type var_len (some t) =
        Yields-if (IsResponse m) (ltb (length request) (30 + var_len + 2)) _ _
          (λ _. refused 0x0054 data_type 0x1102 1)
          λ e.
            Yields-bind IsWord (IsResponse m) (read_uint16_le request (30 + var_len)) _
              (read_uint16_le-Yields request (30 + var_len) b (ground arith))
              λ count hc.
                respond-Yields m 0x0054 data_type 0 1 _ (IsKept-refl m)
                  (omega arith, (omega arith, continuous_words-IsBytes m t.index 0 (count / 2)))

    continuous_store-Yields :
        (data_type var_len : ℕ) (target : Option Target) (len : ℕ)
        → Yields (IsResponse m) (continuous_store m request data_type var_len target len)
    unfolding continuous_store
    continuous_store-Yields data_type var_len none len = refused 0x0058 data_type 0x1102 1
    continuous_store-Yields data_type var_len (some t) len =
        Yields-if (IsResponse m) (ltb (length request) (30 + var_len + 2 + len)) _ _
          (λ _. refused 0x0058 data_type 0x1102 1)
          λ e.
            Yields-bind (IsKept m) (IsResponse m)
              (store_continuous m request (30 + var_len + 2) t.index 0 (len / 2)) _
              (store_continuous-Yields request b m (30 + var_len + 2) t.index 0 (len / 2)
                (ground arith))
              λ k kept. respond-Yields k 0x0058 data_type 0 1 [] kept tt

    continuous_write-Yields :
        (data_type var_len : ℕ) (target : Option Target)
        → Yields (IsResponse m) (continuous_write m request data_type var_len target)
    unfolding continuous_write
    continuous_write-Yields data_type var_len target =
        Yields-if (IsResponse m) (ltb (length request) (30 + var_len + 2)) _ _
          (λ _. refused 0x0058 data_type 0x1102 1)
          λ e.
            Yields-bind IsWord (IsResponse m) (read_uint16_le request (30 + var_len)) _
              (read_uint16_le-Yields request (30 + var_len) b (ground arith))
              λ len hl. continuous_store-Yields data_type var_len target (fixed_data_len len)

    continuous_request-Yields :
        (command data_type : ℕ)
        → Yields (IsResponse m) (continuous_request m request command data_type)
    unfolding continuous_request continuous_dispatch
    continuous_request-Yields command data_type =
        Yields-bind IsWord (IsResponse m) (read_uint16_le request 28) _
          (read_uint16_le-Yields request 28 b (omega arith))
          λ n hn.
            let target = resolve_address (take n (drop 30 request)) in
            Yields-if (IsResponse m) (ltb (length request) (30 + n)) _ _
              (λ _. error_packet-IsResponse m (response_command command) 0x1102)
              λ _.
                Yields-if (IsResponse m) (command == 0x0054) _ _
                  (λ _. continuous_read-Yields data_type n target)
                  λ _.
                    Yields-if (IsResponse m) (command == 0x0058) _ _
                      (λ _. continuous_write-Yields data_type n target)
                      λ _. refused command data_type 0x00FF 1

    individual_request-Yields :
        (command data_type : ℕ)
        → command ≢ 0x0058
        → Yields (IsResponse m) (individual_request m request command data_type)
    unfolding individual_request individual_dispatch
    individual_request-Yields command data_type ne =
        Yields-bind IsWord (IsResponse m) (read_uint16_le request 26) _
          (read_uint16_le-Yields request 26 b (omega arith))
          λ n hn.
            Yields-if (IsResponse m) (command == 0x0054) _ _
              (λ _.
                Yields-bind (λ out. IsBytes out.1) (IsResponse m) (read_blocks m request 28 n) _
                  (read_blocks-Yields request b m 28 n)
                  λ out h. respond-Yields m command data_type out.0 n out.1 (IsKept-refl m) h)
              λ _.
                Yields-if (IsResponse m) (command == 0x0058) _ _ (λ e. absurd (ground arith))
                  λ _. refused command data_type 0x00FF n

-- The command of the request, and its data type, as they stand in the packet.
abbrev pub command_of : List ℕ → ℕ
command_of request = get_or request 20 0 + get_or request 21 0 * 2 ^ 8

abbrev pub data_type_of : List ℕ → ℕ
data_type_of request = get_or request 22 0 + get_or request 23 0 * 2 ^ 8

read_uint16_le-eq :
    (l : List ℕ) (i : ℕ)
    → i + 1 < length l
    → read_uint16_le l i ≡ some (get_or l i 0 + get_or l (i + 1) 0 * 2 ^ 8)
unfolding read_uint16_le
read_uint16_le-eq l i h =
    rw (get_elem?-eq-get_or l i 0 (omega arith), get_elem?-eq-get_or l (i + 1) 0 h)

-- A packet of bytes that is no individual write (the command is not 0x0058 or the data type is 0x0014) has a response of at least
-- thirty bytes, whatever lengths it claims: no read is out of range. The memory keeps its sizes and its invariant.
pub process_request-IsResponse :
    (m : PlcMemory) (request : List ℕ)
    → IsBytes request
    → (command_of request ≢ 0x0058) ⊎ (data_type_of request ≡ 0x0014)
    → Yields (IsResponse m) (process_request m request)
unfolding process_request dispatch
process_request-IsResponse m request b h =
    Yields-if (IsResponse m) (ltb (length request) 30) _ _
      (λ _. error_packet-IsResponse m 0x00FF 0x00FF)
      λ e.
        (let long : 30 ≤ length request = ground arith in
          rw
            (read_uint16_le-eq request 20 (omega arith), read_uint16_le-eq request 22 (omega arith))
            (Yields-if (IsResponse m) (data_type_of request == 0x0014) _ _
              (λ _.
                continuous_request-Yields request b m long (command_of request)
                  (data_type_of request))
              λ other.
                individual_request-Yields request b m long (command_of request)
                  (data_type_of request) (not_write h (ground arith))))
  where
    not_write :
        (command_of request ≢ 0x0058) ⊎ (data_type_of request ≡ 0x0014)
        → data_type_of request ≢ 0x0014
        → command_of request ≢ 0x0058
    not_write (inl ne) other = ne
    not_write (inr same) other = absurd (other same)
