-- ===== src/Memory/Span/Blocks.antt =====
-- mem_slice_span.cpp: which blocks a span has, and how many bytes.
use turnserver_v.Base.{
  ℕ, zero, suc, ◌+◌, ◌^◌, ◌≤◌, ◌<◌, ◌≡◌, refl, sym, subst, ap, ◌∙◌, true, List, [], ◌∷◌, ◌++◌, none,
  some, take, drop, length, All, lt→leb, arith,
}
use turnserver_v.Wire.Packer.{u32}
use turnserver_v.Memory.Slice.{Heap, MemSlice, destroy, release_if, get_used_size, assign_move}
use turnserver_v.Memory.Span.{Span, slot, set_slot, blocks, push_back}

abbrev pub total : List MemSlice → ℕ
total [] = 0
total (s ∷ ss) = get_used_size s + total ss

total-append : (xs ys : List MemSlice) → total (xs ++ ys) ≡ total xs + total ys
total-append [] ys = omega arith
total-append (s ∷ xs) ys = omega (arith, total-append xs ys)

abbrev pub HasNoBuffer : MemSlice → Type 0
HasNoBuffer s = s.buffer ≡ none

-- The size is that of the blocks in use, and the other slots hold no buffer.
pub record IsSpan (sp : Span) : Type 0 where
  pub sum : sp.size_ ≡ total (blocks sp)
  pub four : length sp.buffer_ ≡ 4
  pub used : sp.block_count_ ≤ 4
  pub unused : All HasNoBuffer (drop sp.block_count_ sp.buffer_)

-- What is stored in a slot stands behind the slots before it.
record Stores (i : ℕ) (x : MemSlice) (ss : List MemSlice) : Type 0 where
  old : MemSlice
  found : slot i ss ≡ some old
  rest : drop i ss ≡ old ∷ drop (suc i) ss
  front : take (suc i) (set_slot i x ss) ≡ take i ss ++ (x ∷ [])
  back : drop (suc i) (set_slot i x ss) ≡ drop (suc i) ss
  size : length (set_slot i x ss) ≡ length ss

set_slot-Stores : (i : ℕ) (x : MemSlice) (ss : List MemSlice) → i < length ss → Stores i x ss
unfolding slot set_slot
set_slot-Stores i x [] h = absurd (omega (arith, h))
set_slot-Stores zero x (s ∷ ss) h = record {
  old = s;
  found = refl;
  rest = refl;
  front = refl;
  back = refl;
  size = refl;
}
set_slot-Stores (suc i) x (s ∷ ss) h =
    let k = set_slot-Stores i x ss (omega (arith, h)) in
    record {
      old = k.old;
      found = k.found;
      rest = k.rest;
      front = ap (λ t. s ∷ t) k.front;
      back = k.back;
      size = omega (arith, k.size);
    }

-- PushBack of a slice onto a span of fewer than four blocks answers true; the slice is then the last
-- block, the size has grown by its bytes, and no reference count changes.
push_back-IsSpan :
    (block : MemSlice) (sp : Span) (h : Heap)
    → IsSpan sp
    → sp.block_count_ < 4
    → sp.size_ + get_used_size block < 2 ^ 32
    → (sp' : Span) × (push_back block sp h ≡ some (true, sp', h))
      × IsSpan sp'
      × (blocks sp' ≡ blocks sp ++ (block ∷ []))
unfolding push_back assign_move destroy release_if
push_back-IsSpan block sp h s room fits = (
  record {
    size_ = u32 (sp.size_ + get_used_size block);
    block_count_ = sp.block_count_ + 1;
    buffer_ = set_slot sp.block_count_ block sp.buffer_;
  },
  rw (lt→leb 4 sp.block_count_ room, k.found, no_buffer) refl,
  record {
    sum = omega (arith, s.sum, fits, ap total blocks_new, total-append (blocks sp) (block ∷ []));
    four = k.size ∙ s.four;
    used = omega (arith, room);
    unused =
        subst (All HasNoBuffer)
          (sym (ap (λ n. drop n (set_slot sp.block_count_ block sp.buffer_)) next ∙ k.back)) held.1;
  },
  blocks_new,
)
  where
    k : Stores sp.block_count_ block sp.buffer_
    k = set_slot-Stores sp.block_count_ block sp.buffer_ (omega (arith, room, s.four))

    next : sp.block_count_ + 1 ≡ suc sp.block_count_
    next = omega arith

    blocks_new :
        take (sp.block_count_ + 1) (set_slot sp.block_count_ block sp.buffer_)
        ≡ blocks sp ++ (block ∷ [])
    blocks_new = ap (λ n. take n (set_slot sp.block_count_ block sp.buffer_)) next ∙ k.front

    held : All HasNoBuffer (k.old ∷ drop (suc sp.block_count_) sp.buffer_)
    held = subst (All HasNoBuffer) k.rest s.unused

    no_buffer : k.old.buffer ≡ none
    no_buffer = held.0
