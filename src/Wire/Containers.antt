-- ===== src/Wire/Containers.antt =====
-- The container templates of base/packer.h and base/unpacker.h: a count, then the elements.
use turnserver_v.Base.{
  ℕ, zero, suc, ◌^◌, ◌<◌, ◌≡◌, refl, sym, subst, List, [], ◌∷◌, ◌++◌, append-nil, append_assoc,
  Option, some, ◌>>=◌, ltb, ◌==◌, if◌then◌else◌, length, take, All, take_all, arith,
}
use turnserver_v.Wire.Packer.{Packer, u32}
use turnserver_v.Wire.Packer.Written.{Appends}
use turnserver_v.Wire.Packer.Pushes.{
  variable_bytes, push_count, push_count-Appends, Appends-seq, Appends-nil,
}
use turnserver_v.Wire.Unpacker.{Unpacker, pop_variable_uint32}
use turnserver_v.Wire.Unpacker.Reads.{Reads, Reads-bind, Reads-pure, pop_variable_uint32-Reads}
use turnserver_v.Wire.Codec.{Codec, pair}

u32_count : {A : Type 0} (xs : List A) → length xs < 2 ^ 23 → u32 (length xs) ≡ length xs
u32_count xs h = omega arith

module _ {A : Type 0} (a : Codec A) where
  -- `for (...) p << x;`
  unfoldable pub push_each : List A → Packer → Option Packer
  push_each [] p = some p
  push_each (x ∷ xs) p = do p ← a.push x p; push_each xs p

  abbrev pub encode_each : List A → List ℕ
  encode_each [] = []
  encode_each (x ∷ xs) = a.encode x ++ encode_each xs

  pub push_each-Appends : (xs : List A) → All a.IsValid xs → Appends (push_each xs) (encode_each xs)
  unfolding push_each
  push_each-Appends [] h = Appends-nil
  push_each-Appends (x ∷ xs) h = Appends-seq (a.push-Appends x h.0) (push_each-Appends xs h.1)

  -- operator<< for std::vector, std::list and std::map: the count goes through a uint32_t. A list
  -- and a map go over all elements, a vector over `count` of them, which differ from 2 ^ 32 on only.
  unfoldable pub push_container : List A → Packer → Option Packer
  push_container xs p = do p ← push_count (u32 (length xs)) p; push_each xs p

  unfoldable pub push_vector : List A → Packer → Option Packer
  push_vector xs p = do
    let count = u32 (length xs)
    p ← push_count count p
    push_each (take count xs) p

  unfoldable pub encode_container : List A → List ℕ
  encode_container xs = variable_bytes (length xs) ++ encode_each xs

  -- More elements than a variable-length number can count are not carried.
  abbrev pub AllValid : List A → Type 0
  AllValid xs = (length xs < 2 ^ 23) × All a.IsValid xs

  pub push_container-Appends :
      (xs : List A) → AllValid xs → Appends (push_container xs) (encode_container xs)
  unfolding push_container encode_container
  push_container-Appends xs h =
      subst (λ n. Appends (λ p. push_count n p >>= push_each xs) (encode_container xs))
        (sym (u32_count xs h.0))
        (Appends-seq (push_count-Appends (length xs)) (push_each-Appends xs h.1))

  pub push_vector-Appends :
      (xs : List A) → AllValid xs → Appends (push_vector xs) (encode_container xs)
  unfolding push_vector encode_container
  push_vector-Appends xs h =
      subst (λ n. Appends (λ p. push_count n p >>= push_each (take n xs)) (encode_container xs))
        (sym (u32_count xs h.0))
        (Appends-seq (push_count-Appends (length xs))
          (rw (take_all (length xs) xs (omega arith)) (push_each-Appends xs h.1)))

  -- `for (i < count) { T t; p >> t; v.push_back(t); }`
  unfoldable pub pop_loop : ℕ → List A → Unpacker → Option (List A × Unpacker)
  pop_loop zero v u = some (v, u)
  pop_loop (suc count) v u = do (t, u) ← a.pop a.blank u; pop_loop count (v ++ (t ∷ [])) u

  pop_loop-Reads :
      (xs v : List A) → All a.IsValid xs → Reads (pop_loop (length xs) v) (encode_each xs) (v ++ xs)
  unfolding pop_loop
  pop_loop-Reads [] v h = rw append-nil (Reads-pure v)
  pop_loop-Reads (x ∷ xs) v h =
      Reads-bind (λ t. pop_loop (length xs) (v ++ (t ∷ []))) (a.pop-Reads x h.0)
        (rw append_assoc at (pop_loop-Reads xs (v ++ (x ∷ [])) h.1))

  -- operator>> for std::vector and std::list: what `v` holds already stays in front.
  unfoldable pub pop_vector : List A → Unpacker → Option (List A × Unpacker)
  pop_vector v u = do (count, u) ← pop_variable_uint32 u; pop_loop count v u

  pub pop_vector-Reads :
      (xs v : List A) → AllValid xs → Reads (pop_vector v) (encode_container xs) (v ++ xs)
  unfolding pop_vector encode_container
  pop_vector-Reads xs v h =
      Reads-bind (λ n. pop_loop n v) (pop_variable_uint32-Reads (length xs) h.0)
        (pop_loop-Reads xs v h.1)

  abbrev pub vector : Codec (List A)
  vector = record {
    blank = [];
    push = push_vector;
    pop = pop_vector;
    encode = encode_container;
    IsValid = AllValid;
    push-Appends = push_vector-Appends;
    pop-Reads = λ xs h. pop_vector-Reads xs [] h;
  }

-- std::map<uint32_t, V>, by its entries in the order of the keys.
module _ {V : Type 0} where
  -- `insert` leaves an entry that is there.
  unfoldable pub map_insert : ℕ → V → List (ℕ × V) → List (ℕ × V)
  map_insert k v [] = (k, v) ∷ []
  map_insert k v ((j, w) ∷ m) =
      if ltb k j
      then (k, v) ∷ (j, w) ∷ m
      else if k == j
      then (j, w) ∷ m
      else (j, w) ∷ map_insert k v m

  abbrev pub IsSorted : List (ℕ × V) → Type 0
  IsSorted [] = Unit
  IsSorted (e ∷ m) = All (λ f. e.0 < f.0) m × IsSorted m

  All-middle :
      (P : ℕ × V → Type 0) (xs : List (ℕ × V)) {y : ℕ × V} (zs : List (ℕ × V))
      → All P (xs ++ (y ∷ zs))
      → P y
  All-middle P [] zs h = h.0
  All-middle P (x ∷ xs) zs h = All-middle P xs zs h.1

  -- An entry with the largest key goes to the end.
  pub map_insert_last :
      (m : List (ℕ × V)) (k : ℕ) (v : V) (more : List (ℕ × V))
      → IsSorted (m ++ ((k, v) ∷ more))
      → map_insert k v m ≡ m ++ ((k, v) ∷ [])
  unfolding map_insert
  map_insert_last [] k v more s = refl
  map_insert_last ((j, w) ∷ m) k v more s =
      let above : j < k = All-middle (λ f. j < f.0) m more s.0 in
      ground (arith, map_insert_last m k v more s.1)

module _ {V : Type 0} (key : Codec ℕ) (value : Codec V) where
  -- `for (i < count) { K k; V v; p >> k >> v; x.insert(make_pair(k, v)); }`
  unfoldable pub pop_map_loop : ℕ → List (ℕ × V) → Unpacker → Option (List (ℕ × V) × Unpacker)
  pop_map_loop zero x u = some (x, u)
  pop_map_loop (suc count) x u = do
    (k, u) ← key.pop key.blank u
    (v, u) ← value.pop value.blank u
    pop_map_loop count (map_insert k v x) u

  unfoldable pub pop_map : List (ℕ × V) → Unpacker → Option (List (ℕ × V) × Unpacker)
  pop_map x u = do (count, u) ← pop_variable_uint32 u; pop_map_loop count x u

  pop_map_loop-Reads :
      (xs x : List (ℕ × V))
      → All (pair key value).IsValid xs
      → IsSorted (x ++ xs)
      → Reads (pop_map_loop (length xs) x) (encode_each (pair key value) xs) (x ++ xs)
  unfolding pop_map_loop
  pop_map_loop-Reads [] x h s = rw append-nil (Reads-pure x)
  pop_map_loop-Reads ((k, v) ∷ xs) x h s =
      let rest = pop_map_loop-Reads xs (x ++ ((k, v) ∷ [])) h.1 (rw append_assoc s) in
      let inserted : Reads (pop_map_loop (length xs) (map_insert k v x))
          (encode_each (pair key value) xs) (x ++ ((k, v) ∷ xs)) =
        rw (map_insert_last x k v xs s) (rw append_assoc at rest) in
      rw append_assoc (
        Reads-bind
          (λ a u.
            value.pop value.blank u >>= λ r. pop_map_loop (length xs) (map_insert a r.0 x) r.1)
          (key.pop-Reads k h.0.0)
          (Reads-bind (λ b. pop_map_loop (length xs) (map_insert k b x)) (value.pop-Reads v h.0.1)
            inserted))

  pub pop_map-Reads :
      (xs : List (ℕ × V))
      → AllValid (pair key value) xs × IsSorted xs
      → Reads (pop_map []) (encode_container (pair key value) xs) xs
  unfolding pop_map encode_container
  pop_map-Reads xs h =
      Reads-bind (λ n. pop_map_loop n []) (pop_variable_uint32-Reads (length xs) h.0.0)
        (pop_map_loop-Reads xs [] h.0.1 h.1)

  abbrev pub ordered_map : Codec (List (ℕ × V))
  ordered_map = record {
    blank = [];
    push = push_container (pair key value);
    pop = pop_map;
    encode = encode_container (pair key value);
    IsValid = λ xs. AllValid (pair key value) xs × IsSorted xs;
    push-Appends = λ xs h. push_container-Appends (pair key value) xs h.0;
    pop-Reads = pop_map-Reads;
  }
