-- ===== src/Xgt/Drain.antt =====
-- The drain of the XGT server takes the client's bytes in order.
use v_plc_runtime.Shared.{
  ℕ, zero, suc, ◌+◌, ◌-◌, ◌≡◌, ◌⊎◌, refl, ◌∙◌, ap, List, [], ◌∷◌, ◌++◌, append_assoc, ◌==◌, ltb,
  length, take, drop, inl, inr, Bool-cases,
}
use v_plc_runtime.Xgt.{fixed_data_len}
use v_plc_runtime.Xgt.Server.{
  Wire, field_at, extend_to, drain_reads, drain_writes, drain_continuous, drain_individual, drain,
}

-- All bytes from the body on.
abbrev pub all_bytes_of : Wire → List ℕ
all_bytes_of w = w.body ++ w.stream

-- No byte is lost or moved, or the stream has come to its end.
abbrev pub Keeps : List ℕ → Wire → Type 0
Keeps bytes w = (all_bytes_of w ≡ bytes) ⊎ (w.stream ≡ [])

take-drop : (n : ℕ) (xs : List ℕ) → take n xs ++ drop n xs ≡ xs
take-drop zero xs = refl
take-drop (suc n) [] = refl
take-drop (suc n) (x ∷ xs) = ap (λ l. x ∷ l) (take-drop n xs)

module _ (bytes : List ℕ) where
  extend_to-Keeps :
      (size : ℕ) (w : Wire) (next : Wire → Wire)
      → all_bytes_of w ≡ bytes
      → ((w' : Wire) → all_bytes_of w' ≡ bytes → Keeps bytes (next w'))
      → Keeps bytes (extend_to size w next)
  unfolding extend_to
  extend_to-Keeps size w next h k =
      let missing : ℕ = size - length w.body in
      let moved : (w.body ++ take missing w.stream) ++ drop missing w.stream ≡ bytes =
        append_assoc w.body (take missing w.stream) (drop missing w.stream)
        ∙ ap (λ l. w.body ++ l) (take-drop missing w.stream)
        ∙ h in
      elim (Bool-cases (ltb (length w.body) size)) [
        | inl e ↦ elim (Bool-cases (ltb (length w.stream) missing)) [
          | inl f ↦ rw (e, f) (inr refl)
          | inr f ↦
              rw (e, f)
                (k
                  (record {
                    body = w.body ++ take missing w.stream;
                    stream = drop missing w.stream;
                  })
                  moved)
        ]
        | inr e ↦ rw e (k w h)
      ]

  drain_reads-Keeps :
      (offset n : ℕ) (w : Wire) → all_bytes_of w ≡ bytes → Keeps bytes (drain_reads offset n w)
  unfolding drain_reads
  drain_reads-Keeps offset zero w h = inl h
  drain_reads-Keeps offset (suc n) w h = extend_to-Keeps (offset + 2) w _ h λ w1 h1.
      extend_to-Keeps _ w1 _ h1
        λ w2 h2. drain_reads-Keeps (offset + 2 + field_at w1.body offset) n w2 h2

  drain_writes-Keeps :
      (offset n : ℕ) (w : Wire) → all_bytes_of w ≡ bytes → Keeps bytes (drain_writes offset n w)
  unfolding drain_writes
  drain_writes-Keeps offset zero w h = inl h
  drain_writes-Keeps offset (suc n) w h = extend_to-Keeps (offset + 2) w _ h λ w1 h1.
      extend_to-Keeps _ w1 _ h1 λ w2 h2. extend_to-Keeps _ w2 _ h2 λ w3 h3.
        extend_to-Keeps _ w3 _ h3 λ w4 h4.
          drain_writes-Keeps
            (offset
              + 2
              + field_at w1.body offset
              + 2
              + fixed_data_len (field_at w3.body (offset + 2 + field_at w1.body offset)))
            n w4 h4

  drain_continuous-Keeps :
      (command : ℕ) (w : Wire) → all_bytes_of w ≡ bytes → Keeps bytes (drain_continuous command w)
  unfolding drain_continuous
  drain_continuous-Keeps command w h = elim (Bool-cases (command == 0x0054)) [
    | inl e ↦ rw e (extend_to-Keeps _ w _ h λ w1 h1. inl h1)
    | inr e ↦ elim (Bool-cases (command == 0x0058)) [
      | inl f ↦
          rw (e, f) (extend_to-Keeps _ w _ h λ w1 h1. extend_to-Keeps _ w1 _ h1 λ w2 h2. inl h2)
      | inr f ↦ rw (e, f) (inl h)
    ]
  ]

  drain_individual-Keeps :
      (command n : ℕ) (w : Wire)
      → all_bytes_of w ≡ bytes
      → Keeps bytes (drain_individual command n w)
  unfolding drain_individual
  drain_individual-Keeps command n w h = elim (Bool-cases (command == 0x0054)) [
    | inl e ↦ rw e (drain_reads-Keeps 10 n w h)
    | inr e ↦ elim (Bool-cases (command == 0x0058)) [
      | inl f ↦ rw (e, f) (drain_writes-Keeps 10 n w h)
      | inr f ↦ rw (e, f) (inl h)
    ]
  ]

-- Whatever the packet claims, its drain loses and moves no byte: the body and the rest of the stream together are as before, or
-- the stream has come to its end.
pub drain-Keeps : (w : Wire) → Keeps (all_bytes_of w) (drain w)
unfolding drain
drain-Keeps w =
    let bytes : List ℕ = all_bytes_of w in
    extend_to-Keeps bytes 12 w _ refl λ w1 h. elim (Bool-cases (field_at w1.body 4 == 0x0014)) [
      | inl e ↦ rw e (drain_continuous-Keeps bytes (field_at w1.body 2) w1 h)
      | inr e ↦ rw e (drain_individual-Keeps bytes (field_at w1.body 2) (field_at w1.body 8) w1 h)
    ]
