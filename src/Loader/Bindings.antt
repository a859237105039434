-- ===== src/Loader/Bindings.antt =====
-- The bindings: within the first 64 addresses of each area, and no two of one cell.
use v_plc_runtime.Shared.{
  ℕ, zero, suc, ◌+◌, ◌≤◌, ◌<◌, ◌≡◌, refl, Bool, true, false, not, ◌&&◌, ◌||◌, ◌==◌, List, [], ◌∷◌,
  ◌++◌, All, All-append, Option, none, some, ◌⊎◌, inl, inr, Text, codes, arith,
}
use v_plc_runtime.Loader.{
  BindingType, discrete_input, coil, input_register, holding_register, VarBinding, digits,
  resolve_kind, resolve_bindings,
}

unfoldable pub same_type : BindingType → BindingType → Bool
same_type discrete_input discrete_input = true
same_type coil coil = true
same_type input_register input_register = true
same_type holding_register holding_register = true
same_type _ _ = false

-- Some binding of the list is that of address `i` of the area.
unfoldable pub is_bound : BindingType → ℕ → List VarBinding → Bool
is_bound type i [] = false
is_bound type i (b ∷ bs) = (same_type b.type type && (b.plc_address == i)) || is_bound type i bs

-- No two bindings have one cell.
unfoldable pub one_each : List VarBinding → Bool
one_each [] = true
one_each (b ∷ bs) = not (is_bound b.type b.plc_address bs) && one_each bs

is_bound-append :
    (type : BindingType) (i : ℕ) (a b : List VarBinding)
    → is_bound type i (a ++ b) ≡ (is_bound type i a || is_bound type i b)
unfolding is_bound
is_bound-append type i [] b = refl
is_bound-append type i (x ∷ a) b = ground (arith, is_bound-append type i a b)

Option-cases {ℓ} : {A : Type ℓ} (o : Option A) → (o ≡ none) ⊎ ((v : A) × (o ≡ some v))
Option-cases none = inl refl
Option-cases (some v) = inr (v, refl)

same_type_self : (t : BindingType) → same_type t t ≡ true
unfolding same_type
same_type_self discrete_input = refl
same_type_self coil = refl
same_type_self input_register = refl
same_type_self holding_register = refl

module _ (dlsym : Text → Option ℕ) (type : BindingType) (prefix : Text) where
  -- The loop binds no other area, and no address below its index.
  is_bound-resolve_kind :
      (other : BindingType) (i k left : ℕ)
      → (same_type type other ≡ false) ⊎ (k < i)
      → is_bound other k (resolve_kind dlsym type prefix i left) ≡ false
  unfolding resolve_kind is_bound
  is_bound-resolve_kind other i k zero h = refl
  is_bound-resolve_kind other i k (suc left) h =
      let rest = is_bound-resolve_kind other (i + 1) k left (later h) in
      elim (Option-cases (dlsym (prefix ++ digits 5 i))) [
        | inl e ↦ rw e rest
        | inr (v, e) ↦ rw e (here h rest)
      ]
    where
      later :
          (same_type type other ≡ false) ⊎ (k < i) → (same_type type other ≡ false) ⊎ (k < i + 1)
      later (inl e) = inl e
      later (inr lt) = inr (omega arith)

      here :
          (same_type type other ≡ false) ⊎ (k < i)
          → is_bound other k (resolve_kind dlsym type prefix (i + 1) left) ≡ false
          → ((same_type type other && (i == k))
              || is_bound other k (resolve_kind dlsym type prefix (i + 1) left))
            ≡ false
      here (inl e) r = ground arith
      here (inr lt) r = ground arith

  one_each-resolve_kind : (i left : ℕ) → one_each (resolve_kind dlsym type prefix i left) ≡ true
  unfolding resolve_kind one_each
  one_each-resolve_kind i zero = refl
  one_each-resolve_kind i (suc left) =
      let rest = one_each-resolve_kind (i + 1) left in
      let fresh = is_bound-resolve_kind type (i + 1) i left (inr (omega arith)) in
      elim (Option-cases (dlsym (prefix ++ digits 5 i))) [
        | inl e ↦ rw e rest
        | inr (v, e) ↦ rw e (ground arith)
      ]

-- Of two lists that bind different cells, no cell is bound twice.
abbrev Apart : List VarBinding → List VarBinding → Type 0
Apart [] b = Unit
Apart (x ∷ a) b = (is_bound x.type x.plc_address b ≡ false) × Apart a b

one_each-append :
    (a b : List VarBinding)
    → one_each a ≡ true
    → one_each b ≡ true
    → Apart a b
    → one_each (a ++ b) ≡ true
unfolding one_each
one_each-append [] b ha hb h = hb
one_each-append (x ∷ a) b ha hb h =
    ground (arith, is_bound-append x.type x.plc_address a b, one_each-append a b)

-- An address that the loops cover.
abbrev pub InRange : VarBinding → Type 0
InRange b = b.plc_address < 64

module _ (dlsym : Text → Option ℕ) where
  Apart-resolve_kind :
      (type : BindingType) (prefix : Text) (i left : ℕ) (rest : List VarBinding)
      → ((k : ℕ) → is_bound type k rest ≡ false)
      → Apart (resolve_kind dlsym type prefix i left) rest
  unfolding resolve_kind
  Apart-resolve_kind type prefix i zero rest h = tt
  Apart-resolve_kind type prefix i (suc left) rest h =
      let later = Apart-resolve_kind type prefix (i + 1) left rest h in
      elim (Option-cases (dlsym (prefix ++ digits 5 i))) [
        | inl e ↦ rw e later
        | inr (v, e) ↦ rw e (h i, later)
      ]

  All-InRange-resolve_kind :
      (type : BindingType) (prefix : Text) (i left : ℕ)
      → i + left ≤ 64
      → All InRange (resolve_kind dlsym type prefix i left)
  unfolding resolve_kind
  All-InRange-resolve_kind type prefix i zero h = tt
  All-InRange-resolve_kind type prefix i (suc left) h =
      let later = All-InRange-resolve_kind type prefix (i + 1) left (omega arith) in
      elim (Option-cases (dlsym (prefix ++ digits 5 i))) [
        | inl e ↦ rw e later
        | inr (v, e) ↦ rw e (omega arith, later)
      ]

  -- Whatever symbols the library has, the bindings lie within the first 64 addresses of their areas, and no two have one cell.
  pub resolve_bindings-InRange :
      All InRange (resolve_bindings dlsym) × (one_each (resolve_bindings dlsym) ≡ true)
  unfolding resolve_bindings
  resolve_bindings-InRange =
      let mw = resolve_kind dlsym holding_register (codes "__MW") 0 64 in
      let iw = resolve_kind dlsym input_register (codes "__IW") 0 64 in
      let qx = resolve_kind dlsym coil (codes "__QX0_") 0 64 in
      let ix = resolve_kind dlsym discrete_input (codes "__IX0_") 0 64 in
      let other = λ (t u : BindingType) (prefix : Text) (e : same_type t u ≡ false) (k : ℕ).
        is_bound-resolve_kind dlsym t prefix u 0 k 64 (inl e) in
      let apart1 : Apart iw mw =
        Apart-resolve_kind input_register (codes "__IW") 0 64 mw
          (other holding_register input_register (codes "__MW") (unfold same_type in refl)) in
      let apart2 : Apart qx (iw ++ mw) =
        Apart-resolve_kind coil (codes "__QX0_") 0 64 (iw ++ mw) λ k.
          neither coil k iw mw
            (other input_register coil (codes "__IW") (unfold same_type in refl) k)
            (other holding_register coil (codes "__MW") (unfold same_type in refl) k) in
      let apart3 : Apart ix (qx ++ (iw ++ mw)) =
        Apart-resolve_kind discrete_input (codes "__IX0_") 0 64 (qx ++ (iw ++ mw)) λ k.
          neither discrete_input k qx (iw ++ mw)
            (other coil discrete_input (codes "__QX0_") (unfold same_type in refl) k)
            (neither discrete_input k iw mw
              (other input_register discrete_input (codes "__IW") (unfold same_type in refl) k)
              (other holding_register discrete_input (codes "__MW") (unfold same_type in refl)
                k)) in
      let each = λ (t : BindingType) (prefix : Text). one_each-resolve_kind dlsym t prefix 0 64 in
      let range =
        λ (t : BindingType) (prefix : Text). All-InRange-resolve_kind t prefix 0 64 (omega arith) in
      (
        All-append InRange ix (qx ++ (iw ++ mw)) (range discrete_input (codes "__IX0_")) (
            All-append InRange qx (iw ++ mw) (range coil (codes "__QX0_")) (
              All-append InRange iw mw (range input_register (codes "__IW"))
                (range holding_register (codes "__MW")))),
        one_each-append ix (qx ++ (iw ++ mw)) (each discrete_input (codes "__IX0_"))
            (one_each-append qx (iw ++ mw) (each coil (codes "__QX0_"))
              (one_each-append iw mw (each input_register (codes "__IW"))
                (each holding_register (codes "__MW")) apart1)
              apart2)
            apart3,
      )
    where
      neither :
          (t : BindingType) (k : ℕ) (a b : List VarBinding)
          → is_bound t k a ≡ false
          → is_bound t k b ≡ false
          → is_bound t k (a ++ b) ≡ false
      neither t k a b ha hb = ground (arith, is_bound-append t k a b)
