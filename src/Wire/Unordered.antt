-- ===== src/Wire/Unordered.antt =====
-- base/packer.h and base/unpacker.h: std::unordered_map and std::unordered_set, and std::array.
--
-- An unordered_map is the list of its entries in the order that the library walks them in. Where the
-- library puts a new entry is its own choice, an interface here.
use turnserver_v.Base.{
  ℕ, zero, suc, Bool, true, false, ◌≡◌, refl, sym, ◌∙◌, List, [], ◌∷◌, ◌++◌, Option, none, some,
  ◌>>=◌, if◌then◌else◌, append_assoc, length, All, Bool-cases, Option-cases, inl, inr,
}
use turnserver_v.Order.{Ordered}
use turnserver_v.Wire.Packer.{Packer}
use turnserver_v.Wire.Packer.Written.{Written, Fits}
use turnserver_v.Wire.Unpacker.{Unpacker, pop_variable_uint32, move}
use turnserver_v.Wire.Unpacker.Reads.{At, Reads, Reads-bind, Reads-pure, pop_variable_uint32-Reads}
use turnserver_v.Wire.Codec.{Codec, pair}
use turnserver_v.Wire.Containers.{
  push_each, push_container, push_container-Appends, encode_each, encode_container, AllValid,
}

-- std::array: its elements, without a count.
unfoldable push_array : {A : Type 0} → Codec A → List A → Packer → Option Packer
push_array a xs p = push_each a xs p

-- std::unordered_set, by its elements in the order they are walked in.
unfoldable push_unordered_set : {A : Type 0} → Codec A → List A → Packer → Option Packer
push_unordered_set a xs p = push_container a xs p

abbrev pub or_else : {A : Type 0} → Option A → Option A → Option A
or_else (some v) other = some v
or_else none other = other

or_else-none : {A : Type 0} (a : Option A) → or_else a none ≡ a
or_else-none none = refl
or_else-none (some v) = refl

or_else_step :
    {A : Type 0} (a : Option A) (b : Bool) (v : A) (c : Option A)
    → or_else (or_else a (if b then some v else none)) c ≡ or_else a (if b then some v else c)
or_else_step none true v c = refl
or_else_step none false v c = refl
or_else_step (some w) b v c = refl

module _ {K V : Type 0} (o : Ordered K) where
  unfoldable pub find : K → List (K × V) → Option V
  find k [] = none
  find k ((j, v) ∷ m) = let rest = find k m in if o.equal j k then some v else rest

-- Where the entry of a new key goes: it is found there, and the others are found as before.
pub record HashTable {K : Type 0} (o : Ordered K) (V : Type 0) : Type 0 where
  pub place : K → V → List (K × V) → List (K × V)
  pub find-place :
      (j k : K) (v : V) (m : List (K × V))
      → find o k m ≡ none
      → find o j (place k v m) ≡ (if o.equal k j then some v else find o j m)

module _ {K V : Type 0} (o : Ordered K) (t : HashTable o V) where
  -- `insert` leaves an entry that is there.
  abbrev insert_if : Option V → K → V → List (K × V) → List (K × V)
  insert_if (some w) k v m = m
  insert_if none k v m = t.place k v m

  unfoldable pub unordered_insert : K → V → List (K × V) → List (K × V)
  unordered_insert k v m = insert_if (find o k m) k v m

  abbrev pub inserted : List (K × V) → List (K × V) → List (K × V)
  inserted [] m = m
  inserted ((k, v) ∷ es) m = inserted es (unordered_insert k v m)

  find-equal : (j k : K) (m : List (K × V)) → o.equal k j ≡ true → find o j m ≡ find o k m
  find-equal j k m e = rw ((o.equal_iff k j).0 e) refl

  find-unordered_insert :
      (j k : K) (v : V) (m : List (K × V))
      → find o j (unordered_insert k v m)
        ≡ or_else (find o j m) (if o.equal k j then some v else none)
  unfolding unordered_insert
  find-unordered_insert j k v m = elim (Option-cases (find o k m)) [
    | inl absent ↦ elim (Bool-cases (o.equal k j)) [
      | inl e ↦ rw (absent, t.find-place j k v m absent, e, find-equal j k m e, absent) refl
      | inr ne ↦ rw (absent, t.find-place j k v m absent, ne) (sym (or_else-none (find o j m)))
    ]
    | inr (w, there) ↦ elim (Bool-cases (o.equal k j)) [
      | inl e ↦ rw (there, find-equal j k m e, there) refl
      | inr ne ↦ rw (there, ne) (sym (or_else-none (find o j m)))
    ]
  ]

  find-inserted :
      (j : K) (es m : List (K × V)) → find o j (inserted es m) ≡ or_else (find o j m) (find o j es)
  unfolding find
  find-inserted j [] m = sym (or_else-none (find o j m))
  find-inserted j ((k, v) ∷ es) m =
      find-inserted j es (unordered_insert k v m)
      ∙ rw (find-unordered_insert j k v m) (or_else_step (find o j m) (o.equal k j) v (find o j es))

  module _ (key : Codec K) (value : Codec V) where
    -- `for (i < count) { K k; V v; p >> k >> v; x.insert(make_pair(k, v)); }`
    unfoldable pub pop_unordered_loop :
        ℕ → List (K × V) → Unpacker → Option (List (K × V) × Unpacker)
    pop_unordered_loop zero x u = some (x, u)
    pop_unordered_loop (suc count) x u = do
      (k, u) ← key.pop key.blank u
      (v, u) ← value.pop value.blank u
      pop_unordered_loop count (unordered_insert k v x) u

    unfoldable pub pop_unordered_map : List (K × V) → Unpacker → Option (List (K × V) × Unpacker)
    pop_unordered_map x u = do (count, u) ← pop_variable_uint32 u; pop_unordered_loop count x u

    pop_unordered_loop-Reads :
        (es x : List (K × V))
        → All (pair key value).IsValid es
        → Reads (pop_unordered_loop (length es) x) (encode_each (pair key value) es) (inserted es x)
    unfolding pop_unordered_loop
    pop_unordered_loop-Reads [] x h = Reads-pure x
    pop_unordered_loop-Reads ((k, v) ∷ es) x h = rw append_assoc (
        Reads-bind
          (λ a u. value.pop value.blank u >>= λ r.
            pop_unordered_loop (length es) (unordered_insert a r.0 x) r.1)
          (key.pop-Reads k h.0.0)
          (Reads-bind (λ b. pop_unordered_loop (length es) (unordered_insert k b x))
            (value.pop-Reads v h.0.1) (pop_unordered_loop-Reads es (unordered_insert k v x) h.1)))

    pop_unordered_map-Reads :
        (es x : List (K × V))
        → AllValid (pair key value) es
        → Reads (pop_unordered_map x) (encode_container (pair key value) es) (inserted es x)
    unfolding pop_unordered_map encode_container
    pop_unordered_map-Reads es x h =
        Reads-bind (λ n. pop_unordered_loop n x) (pop_variable_uint32-Reads (length es) h.0)
          (pop_unordered_loop-Reads es x h.1)

    -- An unordered_map that is pushed is popped into another with the same answer for every key,
    -- unless the other has an entry of that key, which stays; whatever order the two maps are walked
    -- in. The packer has room for the bytes, and the unpacker stands at them.
    pub pop_unordered_map-push_container :
        (j : K) (es x : List (K × V)) (p : Packer) (bs : List ℕ) (u : Unpacker)
        → AllValid (pair key value) es
        → Written p bs
        → Fits (bs ++ encode_container (pair key value) es)
        → At u (encode_container (pair key value) es)
        → (p' : Packer) × (push_container (pair key value) es p ≡ some p')
          × Written p' (bs ++ encode_container (pair key value) es)
          × (m : List (K × V)) × (pop_unordered_map x u
              ≡ some (m, move (length (encode_container (pair key value) es)) u))
          × (find o j m ≡ or_else (find o j x) (find o j es))
    pop_unordered_map-push_container j es x p bs u h w fits at =
        let (p', pushed, w') = (push_container-Appends (pair key value) es h).run p bs w fits in
        (
          p',
          pushed,
          w',
          inserted es x,
          (pop_unordered_map-Reads es x h).run u at,
          find-inserted j es x,
        )
