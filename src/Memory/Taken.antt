-- ===== src/Memory/Taken.antt =====
-- turnserver/base/packer.h: Packer::TakeBuffer, which hands the packed bytes over as a slice.
use turnserver_v.Base.{
  ℕ, ◌+◌, ◌-◌, ◌^◌, ◌≤◌, ◌<◌, ◌≡◌, refl, sym, ap, ◌∙◌, ◌⊎◌, min, true, List, map, Option, none,
  some, ◌>>=◌, leb, ltb, ◌==◌, ==_iff, Bool-cases, Option-cases, inl, inr, leb→le, le→ltb, length,
  arith,
}
use mathlib.Core.Option.{some-injective}
use turnserver_v.Wire.Packer.{Cell, Packer, u32, peek, packed_data, pack, max_packet_size}
use turnserver_v.Wire.Packer.Written.{Written}
use turnserver_v.Wire.Packer.Frame.{frame, frame_length, length-frame, Packed, pack-Packed}
use turnserver_v.Memory.Slice.{
  Heap, set, MemSlice, add_ref, add_ref_if, initialize, make, set_begin_pointer, set_end_pointer,
}

-- The bytes between Begin() and End().
unfoldable pub slice_bytes : MemSlice → Heap → Option (List Cell)
unfolding peek
slice_bytes s h = do
  a ← s.buffer
  m ← h a
  peek m.bytes s.begin_offset (s.end_offset - s.begin_offset)

-- TakeBuffer of a packer whose MemBuf has these bytes and stands at the address `a`. Without a
-- MemBuf, Begin() dereferences a null pointer.
unfoldable pub take_from :
    Option (List Cell) → ℕ → Heap → Packer → Option (MemSlice × Heap × Packer)
take_from none a h p = none
take_from (some bytes) a h p = do
  (slice, h) ← make (some a) 65536 (set a (some (record { ref_cnt = 0; bytes = bytes })) h)
  some (
    set_end_pointer (u32 (p.position_ + p.length_)) (length bytes)
        (set_begin_pointer p.position_ slice),
    h,
    record p { mem = none },
  )

unfoldable pub take_buffer : ℕ → Heap → Packer → Option (MemSlice × Heap × Packer)
take_buffer a h p = take_from p.mem a h p

-- The slice of `n` bytes from `at` on, and the heap with it.
abbrev pub taken_slice : ℕ → ℕ → ℕ → MemSlice
taken_slice a at n = record { buffer = some a; begin_offset = at; end_offset = at + n }

take_from_lem :
    (a : ℕ) (h : Heap) (p : Packer) (bytes : List Cell)
    → p.position_ + p.length_ ≤ length bytes
    → p.position_ ≤ 65536
    → p.position_ + p.length_ < 2 ^ 32
    → (h' : Heap) × (take_from (some bytes) a h p
        ≡ some (taken_slice a p.position_ p.length_, h', record p { mem = none }))
      × (slice_bytes (taken_slice a p.position_ p.length_) h' ≡ peek bytes p.position_ p.length_)
unfolding take_from make initialize add_ref_if add_ref set_begin_pointer set_end_pointer slice_bytes
take_from_lem a h p bytes inside near small = (
  set a (some (record { ref_cnt = 1; bytes = bytes }))
      (set a (some (record { ref_cnt = 0; bytes = bytes })) h),
  rw (
    self,
    self,
    le→ltb (min 65536 (length bytes)) p.position_ (omega (arith, inside, near)),
    whole,
    le→ltb (p.position_ + p.length_) p.position_ (omega arith),
    le→ltb (length bytes) (p.position_ + p.length_) inside,
  ),
  rw (self, back),
)
  where
    self : (a == a) ≡ true
    self = (==_iff a a).1 refl

    whole : u32 (p.position_ + p.length_) ≡ p.position_ + p.length_
    whole = omega (arith, small)

    back : (p.position_ + p.length_) - p.position_ ≡ p.length_
    back = omega arith

moved :
    (o : Option (ℕ × Packer)) (k : ℕ) (q : Packer)
    → (o >>= λ r. some (record r.1 { position_ = k })) ≡ some q
    → q.position_ ≡ k
moved none k q e = absurd (cc)
moved (some r) k q e =
    sym (ap (λ t. t.position_) (some-injective (record r.1 { position_ = k }) q e))

-- Pack leaves the position at the packet's first byte, 1 or 2.
pack-position : (p q : Packer) → pack p ≡ some q → q.position_ ≤ 2
unfolding pack
pack-position p q e = elim (Bool-cases (ltb p.position_ max_packet_size)) [
  | inr large ↦ absurd (refuses (rw large at e))
  | inl small ↦ elim (Bool-cases (leb 0x8002 p.position_)) [
    | inl long ↦ omega (arith, moved _ 1 q (rw (small, long) at e))
    | inr short ↦ omega (arith, moved _ 2 q (rw (small, short) at e))
  ]
]
  where
    refuses : none ≡ some q → ⊥
    refuses h = cc

peek_inside : (m r : List Cell) (at n : ℕ) → peek m at n ≡ some r → at + n ≤ length m
unfolding peek
peek_inside m r at n e = elim (Bool-cases (leb (at + n) (length m))) [
  | inl in_range ↦ leb→le _ _ in_range
  | inr beyond ↦ absurd (refuses (rw beyond at e))
]
  where
    refuses : none ≡ some r → ⊥
    refuses h = cc

-- Where the body `bs` has been pushed and is short enough for a packet, Pack and TakeBuffer succeed,
-- at any address of the packer's MemBuf. The slice has the frame of `bs`, and the packer has no
-- buffer any more.
pub take_buffer-frame :
    (a : ℕ) (h : Heap) (p : Packer) (bs : List ℕ)
    → Written p bs
    → length bs + 4 < max_packet_size
    → (s : MemSlice) × (h' : Heap) × (p' : Packer) × ((pack p >>= take_buffer a h)
        ≡ some (s, h', p'))
      × (slice_bytes s h' ≡ some (map some (frame bs)))
      × (p'.mem ≡ none)
unfolding take_buffer packed_data
take_buffer-frame a h p bs w small = taken (Option-cases packed.state.mem)
  where
    packed : Packed p bs
    packed = pack-Packed p bs w small

    q : Packer
    q = packed.state

    at_mem :
        (o : Option (List Cell))
        → q.mem ≡ o
        → packed_data q ≡ (o >>= λ m. peek m q.position_ q.length_)
    at_mem o e = ap (λ o. o >>= λ m. peek m q.position_ q.length_) e

    missing : none ≡ some (map some (frame bs)) → ⊥
    missing h = cc

    near : q.position_ ≤ 65536
    near = omega (arith, pack-position p q packed.packed)

    at_most : frame_length bs ≤ length bs + 3
    at_most = unfold frame_length in ground arith

    fits : q.position_ + q.length_ < 2 ^ 32
    fits =
        omega
          (arith, pack-position p q packed.packed, packed.total, length-frame bs, small, at_most)

    Goal : Type 0
    Goal =
        (s : MemSlice) × (h' : Heap) × (p' : Packer) × ((pack p >>= take_buffer a h)
          ≡ some (s, h', p'))
        × (slice_bytes s h' ≡ some (map some (frame bs)))
        × (p'.mem ≡ none)

    taken : ((q.mem ≡ none) ⊎ ((m : List Cell) × (q.mem ≡ some m))) → Goal
    taken (inl e) = absurd (missing (sym (at_mem none e) ∙ packed.written))
    taken (inr (m, e)) =
        let seen = sym (at_mem (some m) e) ∙ packed.written in
        let (h', ran, same) = take_from_lem a h q m (peek_inside m _ _ _ seen) near fits in
        (
          taken_slice a q.position_ q.length_,
          h',
          record q { mem = none },
          ap (λ o. o >>= take_buffer a h) packed.packed ∙ ap (λ o. take_from o a h q) e ∙ ran,
          same ∙ seen,
          refl,
        )
