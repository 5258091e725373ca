-- ===== src/Memory/Span/Adjust.antt =====
-- mem_slice_span.cpp: AdjustBeginPointer, where it drops bytes of the first block, and where it loses
-- a block.
use turnserver_v.Base.{
  ℕ, ◌+◌, ◌-◌, ◌^◌, ◌≤◌, ◌<◌, min, ◌≡◌, refl, sym, subst, ap, ◌∙◌, false, List, [], ◌∷◌, ◌++◌, some,
  ◌==◌, if◌then◌else◌, take, drop, length, All, length-append, length-take, length-drop,
  take-append, drop-append, lt→leb, lt→ltb, le→ltb, arith,
}
use turnserver_v.Wire.Packer.{u32}
use turnserver_v.Memory.Slice.{
  Heap, MemSlice, destroy, release_if, get_used_size, assign_move, set_begin_pointer,
}
use turnserver_v.Memory.Slice as Slice
use turnserver_v.Memory.Span.{
  Span, blocks, adjust_blocks, move_to_first, shifted, adjust_begin_pointer,
}
use turnserver_v.Memory.Span.Blocks.{IsSpan, total, HasNoBuffer}

positive : (x : ℕ) → 0 < x → (x == 0) ≡ false
positive x h = ground arith

begin_moves :
    (offset : ℕ) (s : MemSlice)
    → s.begin_offset + offset ≤ s.end_offset
    → s.end_offset < 2 ^ 32
    → Slice.adjust_begin_pointer offset s ≡ record s { begin_offset = s.begin_offset + offset }
unfolding Slice.adjust_begin_pointer set_begin_pointer
begin_moves offset s inside small =
    rw (wrap, le→ltb s.end_offset (s.begin_offset + offset) inside) refl
  where
    wrap : u32 (s.begin_offset + offset) ≡ s.begin_offset + offset
    wrap = omega (arith, inside, small)

-- The first loop ends at the first block, which has all the bytes to be dropped.
adjust_first :
    (offset : ℕ) (s : MemSlice) (ss : List MemSlice)
    → s.begin_offset + offset ≤ s.end_offset
    → s.end_offset < 2 ^ 32
    → adjust_blocks offset (s ∷ ss) ≡ (
      record s { begin_offset = s.begin_offset + offset } ∷ ss,
      if (s.end_offset - (s.begin_offset + offset)) == 0 then 1 else 0,
    )
unfolding adjust_blocks
adjust_first offset s ss inside small = rw (whole, done, begin_moves offset s inside small) refl
  where
    whole : min offset (get_used_size s) ≡ offset
    whole = omega (arith, inside)

    done : offset - offset ≡ 0
    done = omega arith

-- AdjustBeginPointer by less than the first block's bytes moves that block's begin and keeps the
-- others: the span loses that many bytes.
adjust_begin_pointer-IsSpan :
    (offset : ℕ) (s : MemSlice) (ss : List MemSlice) (sp : Span) (h : Heap)
    → IsSpan sp
    → blocks sp ≡ s ∷ ss
    → offset < get_used_size s
    → s.end_offset < 2 ^ 32
    → (sp' : Span) × (adjust_begin_pointer offset sp h ≡ some (sp', h))
      × IsSpan sp'
      × (blocks sp' ≡ record s { begin_offset = s.begin_offset + offset } ∷ ss)
unfolding adjust_begin_pointer shifted
adjust_begin_pointer-IsSpan offset s ss sp h i e short small = (
  record {
    size_ = sp.size_ - offset;
    block_count_ = sp.block_count_;
    buffer_ =
        (record s { begin_offset = s.begin_offset + offset } ∷ ss)
        ++ drop sp.block_count_ sp.buffer_;
  },
  rw
      (
        e,
        lt→ltb offset sp.size_ within,
        lt→leb sp.size_ offset within,
        adjust_first offset s ss (omega (arith, short)) small,
        positive (s.end_offset - (s.begin_offset + offset)) (omega (arith, short)),
        same_count,
      )
      refl,
  record {
    sum = omega (arith, size_used, short, ap total front);
    four = omega (
      arith,
      length-append (s1 ∷ ss) (drop sp.block_count_ sp.buffer_),
      len,
      i.four,
      i.used,
      length-drop sp.block_count_ sp.buffer_,
    );
    used = i.used;
    unused =
        subst (All HasNoBuffer) (sym (drop-append sp.block_count_ (s1 ∷ ss) _ (sym len))) i.unused;
  },
  front,
)
  where
    s1 : MemSlice
    s1 = record s { begin_offset = s.begin_offset + offset }

    size_used : sp.size_ ≡ get_used_size s + total ss
    size_used = i.sum ∙ ap total e

    within : offset < sp.size_
    within = omega (arith, short, size_used)

    same_count : sp.block_count_ - 0 ≡ sp.block_count_
    same_count = omega arith

    len : length (s1 ∷ ss) ≡ sp.block_count_
    len = omega (arith, ap length e, length-take sp.block_count_ sp.buffer_, i.used, i.four)

    front : take sp.block_count_ ((s1 ∷ ss) ++ drop sp.block_count_ sp.buffer_) ≡ s1 ∷ ss
    front = take-append sp.block_count_ (s1 ∷ ss) (drop sp.block_count_ sp.buffer_) (sym len)

-- AdjustBeginPointer by the bytes of the first of three blocks ends with two blocks, of which the
-- first is the last one and the other is empty: the bytes of the second block are lost, although the
-- size still counts them.
pub adjust_begin_pointer-loses :
    (a b c last : MemSlice) (n : ℕ) (h : Heap)
    → 0 < get_used_size b + get_used_size c
    → n ≡ get_used_size a + (get_used_size b + get_used_size c)
    → a.end_offset < 2 ^ 32
    → a.begin_offset ≤ a.end_offset
    → (sp' : Span) × (adjust_begin_pointer
          (get_used_size a)
          (record { size_ = n; block_count_ = 3; buffer_ = a ∷ b ∷ c ∷ last ∷ [] })
          h
        ≡ some (sp', h))
      × (sp'.size_ ≡ get_used_size b + get_used_size c)
      × (blocks sp' ≡ c ∷ record a { begin_offset = a.end_offset } ∷ [])
unfolding adjust_begin_pointer shifted move_to_first assign_move
adjust_begin_pointer-loses a b c last n h more sum small ordered = (
  record { size_ = n - get_used_size a; block_count_ = 2; buffer_ = c ∷ a1 ∷ b ∷ last ∷ [] },
  rw
      (
        lt→ltb (get_used_size a) n (omega (arith, more, sum)),
        lt→leb n (get_used_size a) (omega (arith, more, sum)),
        adjust_first (get_used_size a) a (b ∷ c ∷ []) (omega (arith, ordered)) small,
        at_end,
        spent,
      )
      refl,
  omega (arith, sum),
  refl,
)
  where
    a1 : MemSlice
    a1 = record a { begin_offset = a.end_offset }

    at_end : a.begin_offset + get_used_size a ≡ a.end_offset
    at_end = omega (arith, ordered)

    spent : a.end_offset - a.end_offset ≡ 0
    spent = omega arith
