-- ===== src/Wire/Unpacker/Reads.antt =====
-- What each `Popxxx` of base/unpacker.h reads where its bytes stand under the cursor.
use turnserver_v.Base.{
  ℕ, ◌+◌, ◌*◌, ◌%◌, ◌^◌, ◌≤◌, ◌<◌, ◌≡◌, refl, sym, subst, ap, ◌∙◌, Bool, true, false, List, [],
  ◌++◌, append-nil, append_assoc, Option, some, ◌>>=◌, ltb, leb, if◌then◌else◌, length,
  length-append, take-append, drop-append, le→leb, lt→ltb, le→ltb, le_bytes, from_le,
  length-le_bytes, from_le-le_bytes, arith, Bool-cases, inl, inr, ltb→lt, ltb→le,
}
use turnserver_v.Wire.Packer.{u32, variable_lower, variable_upper}
use turnserver_v.Wire.Packer.Pushes.{variable_bytes, string_bytes}
use turnserver_v.Wire.Unpacker.{
  Unpacker, check_size, read, move, pop_bytes, pop_uint, pop_boolean, to_boolean,
  pop_variable_uint32, pop_string, pop_buffer,
}

-- The bytes `e` stand under the cursor, within the length that the caller gave.
pub record At (u : Unpacker) (e : List ℕ) : Type 0 where
  pub front : List ℕ
  pub rest : List ℕ
  pub mem_shape : u.mem ≡ front ++ (e ++ rest)
  pub cursor : u.position_ ≡ length front
  pub inside : u.position_ + length e ≤ u.length_
  pub small : u.length_ < 2 ^ 32

-- `f` reads `a` off the bytes `e`, moves past them, and prints nothing.
pub record Reads {A : Type 0} (f : Unpacker → Option (A × Unpacker)) (e : List ℕ) (a : A)
    : Type 0 where
  pub run : (u : Unpacker) → At u e → f u ≡ some (a, move (length e) u)

pub At-front : {u : Unpacker} (d e : List ℕ) → At u (d ++ e) → At u d
At-front d e h = record {
  front = h.front;
  rest = e ++ h.rest;
  mem_shape = h.mem_shape ∙ rw append_assoc;
  cursor = h.cursor;
  inside = omega (arith, h.inside, length-append d e);
  small = h.small;
}

pub At-move : {u : Unpacker} (d e : List ℕ) → At u (d ++ e) → At (move (length d) u) e
unfolding move
At-move {u} d e h = record {
  front = h.front ++ d;
  rest = h.rest;
  mem_shape = h.mem_shape ∙ rw (append_assoc, append_assoc);
  cursor = rw length-append (omega (arith, h.cursor, bound));
  inside = omega (arith, h.inside, length-append d e, bound);
  small = h.small;
}
  where
    bound : u32 (u.position_ + length d) ≡ u.position_ + length d
    bound = omega (arith, h.inside, h.small, length-append d e)

check_size-At :
    (n : ℕ) {u : Unpacker} {e : List ℕ} → At u e → n ≤ length e → check_size n u.position_ u ≡ u
unfolding check_size
check_size-At n {u} h le =
    rw (le→ltb u.length_ (u32 (u.position_ + n)) (omega (arith, h.inside, h.small)))

read_lem :
    (d e : List ℕ) (at : ℕ) {u : Unpacker} (c : List ℕ)
    → At u (c ++ (d ++ e))
    → at ≡ u.position_ + length c
    → read at (length d) u ≡ some d
unfolding read
read_lem d e at {u} c h q = rw (
  shape,
  inside,
  drop-append at (h.front ++ c) (d ++ (e ++ h.rest)) reach,
  take-append (length d) d (e ++ h.rest) refl,
)
  where
    shape : u.mem ≡ (h.front ++ c) ++ (d ++ (e ++ h.rest))
    shape = h.mem_shape ∙ simp append_assoc

    reach : at ≡ length (h.front ++ c)
    reach = rw length-append (omega (arith, q, h.cursor))

    inside : leb (at + length d) (length ((h.front ++ c) ++ (d ++ (e ++ h.rest)))) ≡ true
    inside = le→leb _ _ (rw (length-append (h.front ++ c), length-append d) (omega (arith, reach)))

pub pop_bytes-Reads : (e : List ℕ) → Reads (pop_bytes (length e)) e e
unfolding pop_bytes
pop_bytes-Reads e = record {
  run = λ u h. rw (
    check_size-At (length e) h (omega arith),
    read_lem e [] u.position_ {u = u} [] (rw append-nil h) (omega arith),
  );
}

pub pop_uint-Reads : (k v : ℕ) → v < 256 ^ k → Reads (pop_uint k) (le_bytes k v) v
unfolding pop_uint
pop_uint-Reads k v small = record {
  run = λ u h.
      ap (λ n. pop_bytes n u >>= λ x. some (from_le x.0, x.1)) (sym (length-le_bytes k v))
      ∙ rw (((pop_bytes-Reads (le_bytes k v)).run u h), from_le-le_bytes k v small);
}

pub pop_boolean-Reads : (b : Bool) → Reads pop_boolean (le_bytes 1 (if b then 1 else 0)) b
unfolding pop_boolean to_boolean
pop_boolean-Reads b = record {
  run = λ u h. rw ((pop_uint-Reads 1 (if b then 1 else 0) (bit b)).run u h) (again b (move 1 u));
}
  where
    pair : Bool → Unpacker → Option (Bool × Unpacker)
    pair v w = some (v, w)

    bit : (c : Bool) → (if c then 1 else 0) < 256
    bit true = omega arith
    bit false = omega arith

    again :
        (c : Bool) (w : Unpacker)
        → (to_boolean (if c then 1 else 0) >>= λ v. pair v w) ≡ some (c, w)
    again true w = refl
    again false w = refl

move-move : (m n : ℕ) (u : Unpacker) → move n (move m u) ≡ move (m + n) u
unfolding move
move-move m n u =
    ap (λ k. record u { position_ = k }) {x = u32 (u32 (u.position_ + m) + n)}
      {y = u32 (u.position_ + (m + n))} (omega arith)

move-append :
    (d e : List ℕ) (u : Unpacker) → move (length e) (move (length d) u) ≡ move (length (d ++ e)) u
move-append d e u = move-move (length d) (length e) u ∙ ap (λ n. move n u) (sym (length-append d e))

-- Running one read after another.
pub Reads-bind :
    {A B : Type 0} {f : Unpacker → Option (A × Unpacker)} {d e : List ℕ} {a : A} {b : B}
    (k : A → Unpacker → Option (B × Unpacker))
    → Reads f d a
    → Reads (k a) e b
    → Reads (λ u. f u >>= λ r. k r.0 r.1) (d ++ e) b
Reads-bind {d = d} {e = e} {b = b} k hf hk = record {
  run = λ u h.
      rw (hf.run u (At-front d e h))
        (hk.run (move (length d) u) (At-move d e h) ∙ ap (λ w. some (b, w)) (move-append d e u));
}

-- A last read, whose value goes into a larger one.
pub Reads-map :
    {A B : Type 0} {f : Unpacker → Option (A × Unpacker)} {d : List ℕ} {a : A} (g : A → B)
    → Reads f d a
    → Reads (λ u. f u >>= λ r. some (g r.0, r.1)) d (g a)
Reads-map g hf = record { run = λ u h. rw (hf.run u h) }

pub Reads-pure : {A : Type 0} (a : A) → Reads (λ u. some (a, u)) [] a
unfolding move
Reads-pure a = record {
  run = λ u h.
      ap (λ n. some (a, record u { position_ = n })) {x = u.position_} {y = u32 (u.position_ + 0)}
        (omega (arith, h.inside, h.small));
}

pop_variable_short : (v : ℕ) → v < 0x8000 → Reads pop_variable_uint32 (le_bytes 2 v) v
unfolding pop_variable_uint32
pop_variable_short v small = record {
  run = λ u h. rw (
    check_size-At 2 h (omega arith),
    read_lem (le_bytes 2 v) [] u.position_ {u = u} [] h (omega arith),
    from_le-le_bytes 2 v (omega arith),
    lt→ltb v 0x8000 small,
  );
}

pop_variable_long :
    (v : ℕ)
    → 0x8000 ≤ v
    → Reads pop_variable_uint32
        (le_bytes 2 (variable_lower v) ++ le_bytes 1 (variable_upper v))
        (v % 2 ^ 23)
unfolding pop_variable_uint32
pop_variable_long v large = record {
  run = λ u h. rw (
    check_size-At 2 h (omega arith),
    read_lem low high u.position_ {u = u} [] h (omega arith),
    low_value,
    le→ltb (variable_lower v) 0x8000 (omega arith),
    check_size-At 3 h (omega arith),
    read_lem high [] (u.position_ + 2) {u = u} low h (omega arith),
    high_value,
    value,
  );
}
  where
    low : List ℕ
    low = le_bytes 2 (variable_lower v)

    high : List ℕ
    high = le_bytes 1 (variable_upper v)

    low_value : from_le low ≡ variable_lower v
    low_value = from_le-le_bytes 2 (variable_lower v) (omega arith)

    high_value : from_le high ≡ variable_upper v
    high_value = from_le-le_bytes 1 (variable_upper v) (omega arith)

    value : u32 (variable_upper v * 2 ^ 15 + variable_lower v % 0x8000) ≡ v % 2 ^ 23
    value = omega arith

-- Of a variable-length number its lower 23 bits are read back.
pub pop_variable_uint32-wraps : (v : ℕ) → Reads pop_variable_uint32 (variable_bytes v) (v % 2 ^ 23)
unfolding variable_bytes
pop_variable_uint32-wraps v = elim (Bool-cases (ltb v 0x8000)) [
  | inl short ↦
      let same : v ≡ v % 2 ^ 23 = omega (arith, ltb→lt _ _ short) in
      rw short (
        subst (Reads pop_variable_uint32 (le_bytes 2 v)) same
          (pop_variable_short v (ltb→lt _ _ short)))
  | inr long ↦ rw long (pop_variable_long v (ltb→le _ _ long))
]

-- A variable-length number below 2 ^ 23 is read back.
pub pop_variable_uint32-Reads :
    (v : ℕ) → v < 2 ^ 23 → Reads pop_variable_uint32 (variable_bytes v) v
pop_variable_uint32-Reads v small =
    subst (Reads pop_variable_uint32 (variable_bytes v)) same (pop_variable_uint32-wraps v)
  where
    same : v % 2 ^ 23 ≡ v
    same = omega (arith, small)

pub pop_string-Reads : (s : List ℕ) → length s < 2 ^ 23 → Reads pop_string (string_bytes s) s
unfolding pop_string string_bytes
pop_string-Reads s small =
    Reads-bind pop_bytes (pop_variable_uint32-Reads (length s) small) (pop_bytes-Reads s)

pub pop_buffer-Reads : (s : List ℕ) → length s < 2 ^ 23 → Reads pop_buffer (string_bytes s) s
unfolding pop_buffer
pop_buffer-Reads = pop_string-Reads
