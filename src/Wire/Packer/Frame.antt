-- ===== src/Wire/Packer/Frame.antt =====
-- base/packer.h: Pack puts the length in front of the body, in the cells kept free for it, and
-- Data, Data2, Body and Body2 read the packet back from the buffer.
use turnserver_v.Base.{
  ℕ, ◌+◌, ◌-◌, ◌^◌, ◌≤◌, ◌<◌, ◌≡◌, refl, sym, ap, ◌∙◌, true, false, List, ◌++◌, map, append_assoc,
  map-append, some, ◌>>=◌, ltb, leb, if◌then◌else◌, length, take, drop, length-append, length-take,
  length-drop, length-map, take-append, drop-append, take-append-drop, le→leb, lt→leb, lt→ltb,
  le→ltb, le_bytes, arith, Bool-cases, inl, inr, ltb→lt, ltb→le, leb→le, leb→gt,
}
use turnserver_v.Wire.Packer.{
  Cell, Packer, max_packet_size, u32, poke, peek, check_size, store, advance, store_variable,
  push_variable_uint32, variable_lower, variable_upper, pack, packed_data, body, body_size,
}
use turnserver_v.Wire.Packer.Written.{poke_lem, grow_lem, Written}
use turnserver_v.Wire.Packer.Pushes.{variable_bytes}

-- The packet that carries `bs`: its own length, then the bytes. Two bytes of length where the whole
-- is below 0x8000 bytes, three otherwise.
unfoldable pub frame_length : List ℕ → ℕ
frame_length bs = if ltb (length bs) 0x7ffe then length bs + 2 else length bs + 3

unfoldable pub frame : List ℕ → List ℕ
frame bs = variable_bytes (frame_length bs) ++ bs

pub length-frame : (bs : List ℕ) → length (frame bs) ≡ frame_length bs
unfolding frame frame_length variable_bytes
length-frame bs = elim (Bool-cases (ltb (length bs) 0x7ffe)) [
  | inl short ↦
      rw (short, lt→ltb (length bs + 2) 0x8000 (omega (arith, ltb→lt _ _ short))) (omega arith)
  | inr long ↦
      rw (long, le→ltb (length bs + 3) 0x8000 (omega (arith, ltb→le _ _ long))) (omega arith)
]

pub peek_lem :
    (xs ys zs : List Cell) (at n : ℕ)
    → at ≡ length xs
    → n ≡ length ys
    → peek (xs ++ (ys ++ zs)) at n ≡ some ys
unfolding peek
peek_lem xs ys zs at n e h = rw (inside, drop-append at xs (ys ++ zs) e, take-append n ys zs h)
  where
    total : length (xs ++ (ys ++ zs)) ≡ length xs + (length ys + length zs)
    total = rw (length-append, length-append)

    inside : leb (at + n) (length (xs ++ (ys ++ zs))) ≡ true
    inside = le→leb _ _ (omega (arith, total))

-- `store_variable` over the cells `hole`, which are as many as the value takes.
module _ (v : ℕ) (p : Packer) (xs hole zs : List Cell) where
  abbrev Over : List ℕ → Type 0
  Over e =
      p.mem ≡ some (xs ++ (hole ++ zs))
      → p.position_ ≡ length xs
      → length hole ≡ length e
      → store_variable v p
        ≡ some (length e, advance (length e) (record p { mem = some (xs ++ (map some e ++ zs)) }))

  Over-short : ltb v 0x8000 ≡ true → Over (le_bytes 2 v)
  unfolding store_variable store
  Over-short short held at same =
      rw (short, held, poke_lem xs hole zs (map some (le_bytes 2 v)) p.position_ at (omega arith))

  Over-long :
      ltb v 0x8000 ≡ false → Over (le_bytes 2 (variable_lower v) ++ le_bytes 1 (variable_upper v))
  unfolding store_variable store
  Over-long long held at same = rw (long, split, first, second)
    where
      low : List Cell
      low = map some (le_bytes 2 (variable_lower v))

      high : List Cell
      high = map some (le_bytes 1 (variable_upper v))

      split : p.mem ≡ some (xs ++ (take 2 hole ++ (drop 2 hole ++ zs)))
      split = held ∙ ap (λ t. some (xs ++ t)) (rw (← append_assoc, take-append-drop))

      first :
          poke (xs ++ (take 2 hole ++ (drop 2 hole ++ zs))) p.position_ low
          ≡ some (xs ++ (low ++ (drop 2 hole ++ zs)))
      first =
          poke_lem xs (take 2 hole) (drop 2 hole ++ zs) low p.position_ at
            (rw length-take (omega arith))

      second :
          poke (xs ++ (low ++ (drop 2 hole ++ zs))) (p.position_ + 2) high
          ≡ some (xs ++ (low ++ (high ++ zs)))
      second =
          ap (λ t. poke t (p.position_ + 2) high) (sym (append_assoc xs low (drop 2 hole ++ zs)))
          ∙ poke_lem (xs ++ low) (drop 2 hole) zs high (p.position_ + 2)
              (omega (arith, at, length-append xs low)) (rw length-drop (omega arith))
          ∙ ap some (append_assoc xs low (high ++ zs))

  store_variable-Over : Over (variable_bytes v)
  unfolding variable_bytes
  store_variable-Over = elim (Bool-cases (ltb v 0x8000)) [
    | inl short ↦ rw short (Over-short short)
    | inr long ↦ rw long (Over-long long)
  ]

-- PushVariableUint32 at `position_`, with room made behind the buffer where it ends there.
header_lem :
    (v : ℕ) (p : Packer) (xs hole zs : List Cell)
    → p.mem ≡ some (xs ++ (hole ++ zs))
    → p.position_ ≡ length xs
    → length xs ≤ 4
    → length hole ≡ length (variable_bytes v)
    → (p' : Packer) × (more : List Cell) × (push_variable_uint32 v p
        ≡ some (length (variable_bytes v), p'))
      × (p'.mem ≡ some (xs ++ (map some (variable_bytes v) ++ (zs ++ more))))
      × (p'.length_ ≡ p.length_)
      × (p'.warnings ≡ p.warnings)
unfolding push_variable_uint32 check_size
header_lem v p xs hole zs held at low same =
    let n : ℕ = u32 (p.position_ + 3) in
    let (more, grown, enough) = grow_lem (xs ++ (hole ++ zs)) n in
    let q : Packer = record p { mem = some (xs ++ (hole ++ (zs ++ more))) } in
    (
      advance (length (variable_bytes v))
          (record q { mem = some (xs ++ (map some (variable_bytes v) ++ (zs ++ more))) }),
      more,
      rw (held, grown, quiet, append_assoc, append_assoc)
          (store_variable-Over v q xs hole (zs ++ more) refl at same),
      unfold advance in refl,
      unfold advance in refl,
      unfold advance in refl,
    )
  where
    quiet : leb max_packet_size (u32 (p.position_ + 3)) ≡ false
    quiet = lt→leb _ _ (omega (arith, at))

-- What `Pack` makes of a packer that holds `bs`.
pub record Packed (p : Packer) (bs : List ℕ) : Type 0 where
  pub state : Packer
  pub packed : pack p ≡ some state
  pub written : packed_data state ≡ some (map some (frame bs))
  pub carried : body state ≡ some (map some bs)
  pub total : state.length_ ≡ length (frame bs)
  pub quiet : state.warnings ≡ 0

body_size_lem :
    (p : Packer) (bs : List ℕ)
    → p.length_ ≡ frame_length bs
    → length bs + 4 < max_packet_size
    → body_size p ≡ length bs
unfolding body_size frame_length
body_size_lem p bs e small = ground arith

-- The length of the packet stands in the `hole`, right in front of the body.
module _ (p : Packer) (bs : List ℕ) (xs hole tail : List Cell)
    (held : p.mem ≡ some (xs ++ (hole ++ (map some bs ++ tail))))
    (four : length xs + length hole ≡ 4)
    (same : length hole ≡ length (variable_bytes (frame_length bs)))
    (small : length bs + 4 < max_packet_size) (quiet : p.warnings ≡ 0) where
  -- The state in which `Pack` calls PushVariableUint32.
  abbrev at_header : Packer
  at_header = record p { length_ = frame_length bs; position_ = length xs }

  finish :
      (do
        (_, q) ← push_variable_uint32 (frame_length bs) at_header
        some (record q { position_ = length xs }))
        ≡ pack p
      → Packed p bs
  unfolding packed_data body frame
  finish e =
      let (q, more, pushed, mem, len, warned) =
        header_lem (frame_length bs) at_header xs hole (map some bs ++ tail) held refl (omega arith)
          same in
      record {
        state = record q { position_ = length xs };
        packed = sym e ∙ rw pushed;
        written =
            rw (mem, len)
              (ap (λ t. peek (xs ++ t) (length xs) (frame_length bs)) (whole more)
                ∙ peek_lem xs (map some (frame bs)) (tail ++ more) (length xs) (frame_length bs)
                    refl (rw (length-map, length-frame)));
        carried =
            rw (mem, body_size_lem (record q { position_ = length xs }) bs len small)
              (ap (λ t. peek t 4 (length bs)) (behind more)
                ∙ peek_lem (xs ++ map some (variable_bytes (frame_length bs))) (map some bs)
                    (tail ++ more) 4 (length bs) (rw (length-append, length-map) (omega arith))
                    (rw length-map));
        total = len ∙ sym (length-frame bs);
        quiet = warned ∙ quiet;
      }
    where
      whole :
          (more : List Cell)
          → map some (variable_bytes (frame_length bs)) ++ ((map some bs ++ tail) ++ more)
            ≡ map some (frame bs) ++ (tail ++ more)
      whole more = simp (append_assoc, map-append)

      behind :
          (more : List Cell)
          → xs ++ (map some (variable_bytes (frame_length bs)) ++ ((map some bs ++ tail) ++ more))
            ≡ (xs ++ map some (variable_bytes (frame_length bs))) ++ (map some bs ++ (tail ++ more))
      behind more = simp append_assoc

-- Where the body `bs` has been pushed and is short enough for a packet, Pack succeeds. Data is then
-- the frame of `bs`, Body is `bs`, Length is the frame's length, and nothing has been printed.
pub pack-Packed :
    (p : Packer) (bs : List ℕ) → Written p bs → length bs + 4 < max_packet_size → Packed p bs
unfolding pack
pack-Packed p bs w small = elim (Bool-cases (leb 0x8002 p.position_)) [
  | inl long ↦
      let three : frame_length bs ≡ length bs + 3 =
        unfold frame_length in
        rw (le→ltb (length bs) 0x7ffe (omega (arith, at, leb→le _ _ long))) in
      let sent : p.position_ - 1 ≡ frame_length bs = omega (arith, three, at) in
      finish p bs (take 1 front) (drop 1 front) rest (split 1)
        (rw (length-take, length-drop) (omega (arith, filled.offset)))
        (rw length-drop (omega (arith, filled.offset, hole, three))) small quiet
        (rw (start, long, sent, taken 1 (omega arith)))
  | inr short ↦
      let two : frame_length bs ≡ length bs + 2 =
        unfold frame_length in
        rw (lt→ltb (length bs) 0x7ffe (omega (arith, at, leb→gt _ _ short))) in
      let sent : u32 (p.position_ + 2 ^ 32 - 2) ≡ frame_length bs = omega (arith, two, at) in
      finish p bs (take 2 front) (drop 2 front) rest (split 2)
        (rw (length-take, length-drop) (omega (arith, filled.offset)))
        (rw length-drop (omega (arith, filled.offset, hole, two))) small quiet
        (rw (start, short, sent, taken 2 (omega arith)))
]
  where
    open w use {cells, held, filled, at, quiet}
    open filled use {front, rest}

    start : ltb p.position_ max_packet_size ≡ true
    start = lt→ltb _ _ (omega (arith, at))

    split : (q : ℕ) → p.mem ≡ some (take q front ++ (drop q front ++ (map some bs ++ rest)))
    split q =
        held
        ∙ ap some (
            filled.shape
            ∙ ap (λ t. t ++ (map some bs ++ rest)) (sym (take-append-drop q front))
            ∙ append_assoc (take q front) (drop q front) (map some bs ++ rest))

    taken : (q : ℕ) → q ≤ 4 → length (take q front) ≡ q
    taken q h = rw length-take (omega (arith, filled.offset))

    hole : length (variable_bytes (frame_length bs)) + length bs ≡ frame_length bs
    hole =
        sym (length-append (variable_bytes (frame_length bs)) bs)
        ∙ (unfold frame in length-frame bs)
