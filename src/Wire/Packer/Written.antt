-- ===== src/Wire/Packer/Written.antt =====
-- What a packer holds: the bytes pushed so far, behind four bytes kept free for the length.
use turnserver_v.Base.{
  ℕ, ◌+◌, ◌-◌, ◌*◌, ◌≤◌, ◌<◌, ◌≡◌, refl, ap, ◌∙◌, min, max, true, false, List, [], ◌++◌, map,
  append-nil, append_assoc, map-append, Option, none, some, ltb, leb, if◌then◌else◌, length, take,
  drop, replicate, length-append, length-take, length-drop, length-map, length-replicate, take_all,
  take-append, drop-append, take-append-drop, le→leb, lt→leb, arith, Bool-cases, inl, inr, ltb→lt,
  ltb→le,
}
use turnserver_v.Wire.Packer.{
  Cell, Packer, max_packet_size, u32, create_from, poke, grow, check_size, store, advance,
  push_bytes,
}

-- `m` is `k` cells, the bytes `bs`, and at least `room` cells more.
pub record Filled (k : ℕ) (m : List Cell) (bs : List ℕ) (room : ℕ) : Type 0 where
  pub front : List Cell
  pub rest : List Cell
  pub shape : m ≡ front ++ (map some bs ++ rest)
  pub offset : length front ≡ k
  pub space : room ≤ length rest

-- A `memcpy` over cells that are there replaces just these.
pub poke_lem :
    (xs ys zs bs : List Cell) (at : ℕ)
    → at ≡ length xs
    → length bs ≡ length ys
    → poke (xs ++ (ys ++ zs)) at bs ≡ some (xs ++ (bs ++ zs))
unfolding poke
poke_lem xs ys zs bs at e h = rw (inside, take-append at xs (ys ++ zs) e, dropped)
  where
    total : length (xs ++ (ys ++ zs)) ≡ length xs + (length ys + length zs)
    total = rw (length-append, length-append)

    inside : leb (at + length bs) (length (xs ++ (ys ++ zs))) ≡ true
    inside = le→leb _ _ (omega (arith, total))

    dropped : drop (at + length bs) (xs ++ (ys ++ zs)) ≡ zs
    dropped = rw (← append_assoc) (drop-append _ (xs ++ ys) zs (omega (arith, length-append xs ys)))

Filled-poke :
    {k room : ℕ} {m : List Cell} {bs : List ℕ} (e : List ℕ) (at : ℕ)
    → Filled k m bs room
    → length e ≤ room
    → at ≡ k + length bs
    → (m' : List Cell) × (poke m at (map some e) ≡ some m')
      × Filled k m' (bs ++ e) (room - length e)
Filled-poke {m = m} {bs = bs} e at f h q = (
  front ++ (map some (bs ++ e) ++ drop (length e) rest),
  ap (λ t. poke t at (map some e)) reshaped
      ∙ poke_lem (front ++ map some bs) (take (length e) rest) (drop (length e) rest) (map some e)
          at (rw (length-append, length-map) (omega (arith, f.offset)))
          (rw (length-map, length-take) (omega (arith, f.space)))
      ∙ ap some (rw (map-append, append_assoc, append_assoc)),
  record {
    front = front;
    rest = drop (length e) rest;
    shape = refl;
    offset = f.offset;
    space = rw length-drop (omega (arith, f.space));
  },
)
  where
    open f use {front, rest}

    reshaped : m ≡ (front ++ map some bs) ++ (take (length e) rest ++ drop (length e) rest)
    reshaped = rw (take-append-drop, append_assoc) f.shape

-- The grown buffer is the old one with bytes added at its end, `n` bytes long or longer.
pub grow_lem :
    (m : List Cell) (n : ℕ)
    → (more : List Cell) × (grow m n ≡ m ++ more) × (n ≤ length m + length more)
unfolding grow create_from
grow_lem m n = elim (Bool-cases (ltb (length m) n)) [
  | inl short ↦ (
    replicate (size - length m) none,
    rw (short, copied (ltb→lt _ _ short), take_all (length m) m (omega arith)),
    rw length-replicate (omega (arith, ltb→lt _ _ short)),
  )
  | inr enough ↦ ([], rw (enough, append-nil), omega (arith, ltb→le _ _ enough))
]
  where
    size : ℕ
    size = max n (u32 (2 * length m))

    copied : length m < n → min (length m) size ≡ length m
    copied h = omega arith

Filled-grow :
    {k : ℕ} {m : List Cell} {bs : List ℕ} (n room : ℕ)
    → Filled k m bs 0
    → n ≡ k + length bs + room
    → Filled k (grow m n) bs room
Filled-grow {m = m} {bs = bs} n room f e =
    let (more, grown, enough) = grow_lem m n in
    record {
      front = f.front;
      rest = f.rest ++ more;
      shape = grown ∙ rw (f.shape, append_assoc, append_assoc);
      offset = f.offset;
      space = omega (arith, enough, total, length-append f.rest more, f.offset);
    }
  where
    total : length m ≡ length f.front + (length bs + length f.rest)
    total = rw (f.shape, length-append, length-append, length-map)

-- The bytes `bs` are pushed, and no warning was printed.
pub record Written (p : Packer) (bs : List ℕ) : Type 0 where
  pub cells : List Cell
  pub held : p.mem ≡ some cells
  pub filled : Filled 4 cells bs 0
  pub at : p.position_ ≡ 4 + length bs
  pub quiet : p.warnings ≡ 0

-- With these bytes pushed, `CheckSize` of a byte more stays below the packet limit.
abbrev pub Fits : List ℕ → Type 0
Fits bs = length bs + 5 < max_packet_size

-- An operation that appends `e` to whatever is pushed, while that fits.
pub record Appends (f : Packer → Option Packer) (e : List ℕ) : Type 0 where
  pub run :
      (p : Packer) (bs : List ℕ)
      → Written p bs
      → Fits (bs ++ e)
      → (p' : Packer) × (f p ≡ some p') × Written p' (bs ++ e)

-- A packer with room for `room` more bytes.
pub record Ready (p : Packer) (bs : List ℕ) (room : ℕ) : Type 0 where
  pub cells : List Cell
  pub held : p.mem ≡ some cells
  pub filled : Filled 4 cells bs room
  pub at : p.position_ ≡ 4 + length bs
  pub quiet : p.warnings ≡ 0

pub check_size-Ready :
    (room : ℕ) {p : Packer} {bs : List ℕ}
    → Written p bs
    → 4 + length bs + room < max_packet_size
    → (p' : Packer) × (check_size room p.position_ p ≡ some p') × Ready p' bs room
unfolding check_size
check_size-Ready room {p} {bs} w h = (
  record p {
    mem = some (grow w.cells n);
    warnings = if leb max_packet_size n then p.warnings + 1 else p.warnings;
  },
  rw w.held,
  record {
    cells = grow w.cells n;
    held = refl;
    filled = Filled-grow n room w.filled (omega (arith, w.at));
    at = w.at;
    quiet = rw (below) w.quiet;
  },
)
  where
    n : ℕ
    n = u32 (p.position_ + room)

    below : leb max_packet_size n ≡ false
    below = lt→leb _ _ (omega (arith, w.at))

-- `memcpy` of `e` behind the bytes that are there.
pub store-Filled :
    (e : List ℕ) {k room : ℕ} (p : Packer) {m : List Cell} {bs : List ℕ} (at : ℕ)
    → p.mem ≡ some m
    → Filled k m bs room
    → length e ≤ room
    → at ≡ k + length bs
    → (m' : List Cell) × (store at e p ≡ some (record p { mem = some m' }))
      × Filled k m' (bs ++ e) (room - length e)
unfolding store
store-Filled e p at held f h q =
    let (m', poked, filled) = Filled-poke e at f h q in (m', rw (held, poked), filled)

pub Filled-less : {k room : ℕ} {m : List Cell} {bs : List ℕ} → Filled k m bs room → Filled k m bs 0
Filled-less f = record {
  front = f.front;
  rest = f.rest;
  shape = f.shape;
  offset = f.offset;
  space = omega arith;
}

-- A fixed-size push appends the bytes of its value.
pub push_bytes-Appends : (e : List ℕ) → Appends (push_bytes e) e
unfolding push_bytes
push_bytes-Appends e = record {
  run = λ p bs w fits.
      let (q, checked, r) = check_size-Ready (length e) w (omega (arith, length-append bs e)) in
      let (m, stored, filled) = store-Filled e q q.position_ r.held r.filled (omega arith) r.at in
      (
        advance (length e) (record q { mem = some m }),
        rw (checked, stored),
        record {
          cells = m;
          held = unfold advance in refl;
          filled = Filled-less filled;
          at = unfold advance in omega (arith, r.at, length-append bs e);
          quiet = unfold advance in r.quiet;
        },
      );
}
