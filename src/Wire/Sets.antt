-- ===== src/Wire/Sets.antt =====
-- base/packer.h and base/unpacker.h: std::set, by its elements in order.
use turnserver_v.Base.{
  ℕ, zero, suc, true, false, ◌≡◌, refl, List, [], ◌∷◌, ◌++◌, append-nil, append_assoc, Option, some,
  ◌>>=◌, if◌then◌else◌, length, All, Bool-cases, inl, inr, arith,
}
use turnserver_v.Order.{Ordered}
use turnserver_v.Wire.Unpacker.{Unpacker, pop_variable_uint32}
use turnserver_v.Wire.Unpacker.Reads.{Reads, Reads-bind, Reads-pure, pop_variable_uint32-Reads}
use turnserver_v.Wire.Codec.{Codec}
use turnserver_v.Wire.Containers.{
  push_container, push_container-Appends, encode_each, encode_container, AllValid,
}

module _ {A : Type 0} (o : Ordered A) where
  -- `insert` leaves an element that is there.
  unfoldable pub set_insert : A → List A → List A
  set_insert x [] = x ∷ []
  set_insert x (y ∷ s) =
      let rest = set_insert x s in
      if o.less x y then x ∷ y ∷ s else if o.equal x y then y ∷ s else y ∷ rest

  abbrev pub IsSorted : List A → Type 0
  IsSorted [] = Unit
  IsSorted (x ∷ s) = All (λ y. o.less x y ≡ true) s × IsSorted s

  All-middle : (P : A → Type 0) (xs : List A) {y : A} (zs : List A) → All P (xs ++ (y ∷ zs)) → P y
  All-middle P [] zs h = h.0
  All-middle P (x ∷ xs) zs h = All-middle P xs zs h.1

  not_before : (x y : A) → o.less x y ≡ true → o.less y x ≡ false
  not_before x y h = ground (arith, o.less_trans x y x, o.less_irrefl x)

  not_equal : (x y : A) → o.less x y ≡ true → o.equal y x ≡ false
  not_equal x y h = elim (Bool-cases (o.equal y x)) [
    | inl e ↦ absurd (ground (arith, o.equal_iff y x, o.less_irrefl x))
    | inr ne ↦ ne
  ]

  -- An element behind all others goes to the end.
  set_insert_last :
      (s : List A) (x : A) (more : List A)
      → IsSorted (s ++ (x ∷ more))
      → set_insert x s ≡ s ++ (x ∷ [])
  unfolding set_insert
  set_insert_last [] x more h = refl
  set_insert_last (y ∷ s) x more h =
      let above : o.less y x ≡ true = All-middle (λ z. o.less y z ≡ true) s more h.0 in
      rw (not_before y x above, not_equal y x above, set_insert_last s x more h.1) refl

  module _ (a : Codec A) where
    -- `for (i < count) { T t; p >> t; v.insert(t); }`
    unfoldable pub pop_set_loop : ℕ → List A → Unpacker → Option (List A × Unpacker)
    pop_set_loop zero v u = some (v, u)
    pop_set_loop (suc count) v u = do
      (t, u) ← a.pop a.blank u
      pop_set_loop count (set_insert t v) u

    unfoldable pub pop_set : List A → Unpacker → Option (List A × Unpacker)
    pop_set v u = do (count, u) ← pop_variable_uint32 u; pop_set_loop count v u

    pop_set_loop-Reads :
        (xs v : List A)
        → All a.IsValid xs
        → IsSorted (v ++ xs)
        → Reads (pop_set_loop (length xs) v) (encode_each a xs) (v ++ xs)
    unfolding pop_set_loop
    pop_set_loop-Reads [] v h s = rw append-nil (Reads-pure v)
    pop_set_loop-Reads (x ∷ xs) v h s =
        let rest = pop_set_loop-Reads xs (v ++ (x ∷ [])) h.1 (rw append_assoc s) in
        let inserted : Reads (pop_set_loop (length xs) (set_insert x v)) (encode_each a xs)
            (v ++ (x ∷ xs)) =
          rw (set_insert_last v x xs s) (rw append_assoc at rest) in
        Reads-bind (λ t. pop_set_loop (length xs) (set_insert t v)) (a.pop-Reads x h.0) inserted

    pop_set-Reads :
        (xs : List A) → AllValid a xs × IsSorted xs → Reads (pop_set []) (encode_container a xs) xs
    unfolding pop_set encode_container
    pop_set-Reads xs h =
        Reads-bind (λ n. pop_set_loop n []) (pop_variable_uint32-Reads (length xs) h.0.0)
          (pop_set_loop-Reads xs [] h.0.1 h.1)

    abbrev set : Codec (List A)
    set = record {
      blank = [];
      push = push_container a;
      pop = pop_set;
      encode = encode_container a;
      IsValid = λ xs. AllValid a xs × IsSorted xs;
      push-Appends = λ xs h. push_container-Appends a xs h.0;
      pop-Reads = pop_set-Reads;
    }
