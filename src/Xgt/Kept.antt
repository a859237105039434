-- ===== src/Xgt/Kept.antt =====
-- Every request that the XGT server answers keeps the memory's invariant, the individual writes included.
use v_plc_runtime.Shared.{
  ℕ, zero, suc, ◌+◌, ◌*◌, not, List, Option, none, some, ◌==◌, ltb, length, get_elem?, [], ◌∷◌, ◌/◌,
  u16, take, drop, IsByte, IsBytes, IsWord, Allows, Allows-bind, Allows-mono, Allows-any,
  get_elem?-Allows, either_branch, arith,
}
use v_plc_runtime.Memory.{PlcMemory, write_ls_bit, write_ls_word, ls_bit_area}
use v_plc_runtime.Memory.Shape.{IsKept, IsKept-refl, IsKept-trans}
use v_plc_runtime.Memory.Kept.{write_named_bit-IsKept}
use v_plc_runtime.Xgt.{
  read_uint16_le, Target, flat_idx, fixed_data_len, respond, resolve_address, store_continuous,
  continuous_read, continuous_store, continuous_write, continuous_dispatch, continuous_request,
  block_target, read_blocks, store_block, write_data, write_on, write_blocks, individual_dispatch,
  individual_request, dispatch, process_request,
}
use v_plc_runtime.Xgt.Reads.{write_ls_word-IsKept}

abbrev KeptBy : PlcMemory → PlcMemory × List ℕ → Type 0
KeptBy m out = IsKept m out.0

abbrev StoredBy : PlcMemory → ℕ × PlcMemory → Type 0
StoredBy m out = IsKept m out.1

read_uint16_le-Allows : (l : List ℕ) (i : ℕ) → IsBytes l → Allows IsWord (read_uint16_le l i)
unfolding read_uint16_le
read_uint16_le-Allows l i b =
    Allows-bind IsByte IsWord (get_elem? l i) _ (get_elem?-Allows IsByte l i b) λ x hx.
      Allows-bind IsByte IsWord (get_elem? l (i + 1)) _ (get_elem?-Allows IsByte l (i + 1) b)
        λ y hy. omega arith

-- A response carries the memory that it is given.
respond-Allows :
    (m n : PlcMemory) (request : List ℕ) (command data_type status count : ℕ) (payload : List ℕ)
    → IsKept m n
    → Allows (KeptBy m) (respond n request command data_type status count payload)
unfolding respond
respond-Allows m n request command data_type status count payload kept =
    Allows-any (KeptBy m) (get_elem? request 12) _ λ a.
      Allows-any (KeptBy m) (get_elem? request 14) _ λ b.
        Allows-any (KeptBy m) (get_elem? request 15) _ λ c.
          Allows-any (KeptBy m) (get_elem? request 18) _
            λ d. Allows-any (KeptBy m) (get_elem? request 19) _ λ e. kept

module _ (request : List ℕ) (b : IsBytes request) where
  store_block-Allows :
      (m : PlcMemory) (t : Target) (o : ℕ) → Allows (IsKept m) (store_block m request t o)
  unfolding store_block write_ls_bit
  store_block-Allows m t o =
      either_branch (Allows (IsKept m)) t.is_bit _ _
        (λ _. Allows-any (IsKept m) (get_elem? request o) _ λ v.
          write_named_bit-IsKept m (ls_bit_area (t.area_char ∷ [])) (flat_idx t) (not (v == 0)))
        (λ _.
          Allows-bind IsWord (IsKept m) (read_uint16_le request o) _
            (read_uint16_le-Allows request o b) λ v hv. write_ls_word-IsKept m t.index v hv)

  write_data-Allows :
      (m : PlcMemory) (rest : PlcMemory → ℕ → Option (ℕ × PlcMemory)) (t : Target) (o len : ℕ)
      → ((n : PlcMemory) (next : ℕ) → Allows (StoredBy n) (rest n next))
      → Allows (StoredBy m) (write_data m request rest t o len)
  unfolding write_data
  write_data-Allows m rest t o len h =
      either_branch (Allows (StoredBy m)) (ltb (length request) (o + len)) _ _ (λ _. IsKept-refl m)
        (λ _.
          Allows-bind (IsKept m) (StoredBy m) (store_block m request t o) _
            (store_block-Allows m t o)
            λ n kept.
              Allows-mono (StoredBy n) (StoredBy m) (rest n (o + len))
                (λ out k. IsKept-trans kept k) (h n (o + len)))

  write_on-Allows :
      (m : PlcMemory) (rest : PlcMemory → ℕ → Option (ℕ × PlcMemory)) (head : Option (Target × ℕ))
      → ((n : PlcMemory) (next : ℕ) → Allows (StoredBy n) (rest n next))
      → Allows (StoredBy m) (write_on m request rest head)
  unfolding write_on
  write_on-Allows m rest none h = IsKept-refl m
  write_on-Allows m rest (some (t, o)) h =
      either_branch (Allows (StoredBy m)) (ltb (length request) (o + 2)) _ _ (λ _. IsKept-refl m)
        (λ _.
          Allows-any (StoredBy m) (read_uint16_le request o) _
            λ len. write_data-Allows m rest t (o + 2) (fixed_data_len len) h)

  write_blocks-Allows : (m : PlcMemory) (o n : ℕ) → Allows (StoredBy m) (write_blocks m request o n)
  unfolding write_blocks
  write_blocks-Allows m o zero = IsKept-refl m
  write_blocks-Allows m o (suc n) = Allows-any (StoredBy m) (block_target request o) _ λ head.
      write_on-Allows m (λ k next. write_blocks k request next n) head
        λ k next. write_blocks-Allows k next n

  store_continuous-Allows :
      (m : PlcMemory) (o index i n : ℕ) → Allows (IsKept m) (store_continuous m request o index i n)
  unfolding store_continuous
  store_continuous-Allows m o index i zero = IsKept-refl m
  store_continuous-Allows m o index i (suc n) =
      Allows-bind IsWord (IsKept m) (read_uint16_le request (o + i * 2)) _
        (read_uint16_le-Allows request (o + i * 2) b)
        λ v hv.
          let k : PlcMemory = write_ls_word m (u16 (index + i)) v in
          Allows-mono (IsKept k) (IsKept m) (store_continuous k request o index (i + 1) n)
            (λ q h. IsKept-trans (write_ls_word-IsKept m (u16 (index + i)) v hv) h)
            (store_continuous-Allows k o index (i + 1) n)

  module _ (m : PlcMemory) (command data_type : ℕ) where
    continuous_read-Allows :
        (var_len : ℕ) (target : Option Target)
        → Allows (KeptBy m) (continuous_read m request data_type var_len target)
    unfolding continuous_read
    continuous_read-Allows var_len none =
        respond-Allows m m request 0x0054 data_type 0x1102 1 [] (IsKept-refl m)
    continuous_read-Allows var_len (some t) =
        either_branch (Allows (KeptBy m)) (ltb (length request) (30 + var_len + 2)) _ _
          (λ _. respond-Allows m m request 0x0054 data_type 0x1102 1 [] (IsKept-refl m))
          (λ _.
            Allows-any (KeptBy m) (read_uint16_le request (30 + var_len)) _
              λ n. respond-Allows m m request 0x0054 data_type 0 1 _ (IsKept-refl m))

    continuous_store-Allows :
        (var_len : ℕ) (target : Option Target) (len : ℕ)
        → Allows (KeptBy m) (continuous_store m request data_type var_len target len)
    unfolding continuous_store
    continuous_store-Allows var_len none len =
        respond-Allows m m request 0x0058 data_type 0x1102 1 [] (IsKept-refl m)
    continuous_store-Allows var_len (some t) len =
        either_branch (Allows (KeptBy m)) (ltb (length request) (30 + var_len + 2 + len)) _ _
          (λ _. respond-Allows m m request 0x0058 data_type 0x1102 1 [] (IsKept-refl m))
          (λ _.
            Allows-bind (IsKept m) (KeptBy m)
              (store_continuous m request (30 + var_len + 2) t.index 0 (len / 2)) _
              (store_continuous-Allows m (30 + var_len + 2) t.index 0 (len / 2))
              λ n kept. respond-Allows m n request 0x0058 data_type 0 1 [] kept)

    continuous_write-Allows :
        (var_len : ℕ) (target : Option Target)
        → Allows (KeptBy m) (continuous_write m request data_type var_len target)
    unfolding continuous_write
    continuous_write-Allows var_len target =
        either_branch (Allows (KeptBy m)) (ltb (length request) (30 + var_len + 2)) _ _
          (λ _. respond-Allows m m request 0x0058 data_type 0x1102 1 [] (IsKept-refl m))
          (λ _.
            Allows-any (KeptBy m) (read_uint16_le request (30 + var_len)) _
              λ len. continuous_store-Allows var_len target (fixed_data_len len))

    continuous_dispatch-Allows :
        (var_len : ℕ) → Allows (KeptBy m) (continuous_dispatch m request command data_type var_len)
    unfolding continuous_dispatch
    continuous_dispatch-Allows var_len =
        let target = resolve_address (take var_len (drop 30 request)) in
        either_branch (Allows (KeptBy m)) (ltb (length request) (30 + var_len)) _ _
          (λ _. IsKept-refl m)
          (λ _.
            either_branch (Allows (KeptBy m)) (command == 0x0054) _ _
              (λ _. continuous_read-Allows var_len target)
              (λ _.
                either_branch (Allows (KeptBy m)) (command == 0x0058) _ _
                  (λ _. continuous_write-Allows var_len target)
                  (λ _. respond-Allows m m request command data_type 0x00FF 1 [] (IsKept-refl m))))

    individual_dispatch-Allows :
        (count : ℕ) → Allows (KeptBy m) (individual_dispatch m request command data_type count)
    unfolding individual_dispatch
    individual_dispatch-Allows count =
        either_branch (Allows (KeptBy m)) (command == 0x0054) _ _
          (λ _.
            Allows-any (KeptBy m) (read_blocks m request 28 count) _
              λ out. respond-Allows m m request command data_type out.0 count out.1 (IsKept-refl m))
          (λ _.
            either_branch (Allows (KeptBy m)) (command == 0x0058) _ _
              (λ _.
                Allows-bind (StoredBy m) (KeptBy m) (write_blocks m request 28 count) _
                  (write_blocks-Allows m 28 count)
                  λ out kept. respond-Allows m out.1 request command data_type out.0 count [] kept)
              (λ _. respond-Allows m m request command data_type 0x00FF count [] (IsKept-refl m)))

    dispatch-Allows : Allows (KeptBy m) (dispatch m request command data_type)
    unfolding dispatch continuous_request individual_request
    dispatch-Allows =
        either_branch (Allows (KeptBy m)) (data_type == 0x0014) _ _
          (λ _. Allows-any (KeptBy m) (read_uint16_le request 28) _ continuous_dispatch-Allows)
          (λ _. Allows-any (KeptBy m) (read_uint16_le request 26) _ individual_dispatch-Allows)

  pub process_request-Allows : (m : PlcMemory) → Allows (KeptBy m) (process_request m request)
  unfolding process_request
  process_request-Allows m =
      either_branch (Allows (KeptBy m)) (ltb (length request) 30) _ _ (λ _. IsKept-refl m)
        (λ _. Allows-any (KeptBy m) (read_uint16_le request 20) _ λ command.
          Allows-any (KeptBy m) (read_uint16_le request 22) _
            λ data_type. dispatch-Allows m command data_type)
