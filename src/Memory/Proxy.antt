-- ===== src/Memory/Proxy.antt =====
-- turnserver/memory/mem_proxy.h: MemProxy, which sees the bytes of a buffer or of a span as values of
-- plain types, one behind the other. `sizes` are the sizes of the types.
pub mod Layers
pub mod Copied
use turnserver_v.Base.{
  ℕ, zero, suc, ◌+◌, ◌-◌, ◌≤◌, ◌<◌, ◌≡◌, refl, sym, ap, ◌∙◌, List, [], ◌∷◌, ◌++◌, Option, none,
  some, ◌>>=◌, ◌>>◌, assert, leb, ltb, ◌==◌, if◌then◌else◌, length, take, drop, Bool-cases, inl,
  inr, length-append, length-drop, take-append_le, drop-append_le, length-take, le→leb, leb→le,
  true, arith,
}
use turnserver_v.Wire.Packer.{Cell, create, peek}
use turnserver_v.Memory.Slice.{Heap, MemSlice, get_used_size, set, make, release_if, destroy}
use turnserver_v.Memory.Taken.{slice_bytes}
use turnserver_v.Memory.Span.{Span, blocks, slot}
use turnserver_v.Memory.Span.Bytes.{
  Holds, slice_length, empty_of_length, Holds-total, drop_past, to_raw_buffer-clone_spanned_mem,
}
use turnserver_v.Memory.Span.Copies.{copy_span, assign_move_span, destroy_slots}
use turnserver_v.Memory.Span.Clones.{to_single_block}

unfoldable pub full_size : List ℕ → ℕ
full_size [] = 0
full_size (n ∷ sizes) = n + full_size sizes

unfoldable pub prefix_size : ℕ → List ℕ → ℕ
prefix_size n sizes = full_size (take n sizes)

unfoldable pub nth_size : ℕ → List ℕ → ℕ
nth_size n [] = 0
nth_size zero (size ∷ sizes) = size
nth_size (suc n) (size ∷ sizes) = nth_size n sizes

-- The address of a MemBuf and an offset into it.
abbrev pub Pointer : Type 0
Pointer = ℕ × ℕ

-- BorrowedMemProxy(buffer): the span is passed by value.
unfoldable borrow : List ℕ → Span → Heap → Option (Span × Heap)
borrow sizes buffer h = do
  (sp, h) ← copy_span buffer h
  assert (leb (full_size sizes) buffer.size_)
  h ← destroy_slots buffer.buffer_ h
  some (sp, h)

-- Where the loop of Layer comes to its end: in a block, with so many bytes of the block to skip; where
-- a block ends before the value does; or behind all blocks.
pub data Found : Type 0 where
  within : MemSlice → ℕ → Found
  split : Found
  behind : Found

unfoldable pub find_layer : ℕ → ℕ → List MemSlice → Found
find_layer skip size [] = Found.behind
find_layer skip size (s ∷ ss) =
    let rest = find_layer (skip - get_used_size s) size ss in
    if ltb (get_used_size s) skip
    then rest
    else if ltb (get_used_size s) (skip + size)
    then Found.split
    else Found.within s skip

unfoldable pub pointer_in : MemSlice → ℕ → Option Pointer
pointer_in s skip = do a ← s.buffer; some (a, s.begin_offset + skip)

unfoldable pub first_layer : ℕ → Span → Option Pointer
first_layer skip sp = do assert (ltb 0 sp.block_count_); s ← slot 0 sp.buffer_; pointer_in s skip

-- The rest of Layer; `a` is the address of the buffer of ToSingleBlock. After it the span is a single
-- block.
unfoldable pub end_layer : ℕ → ℕ → Found → Span → Heap → Option (Option Pointer × Span × Heap)
end_layer skip a (Found.within s k) sp h = do p ← pointer_in s k; some (some p, sp, h)
end_layer skip a Found.behind sp h = some (none, sp, h)
end_layer skip a Found.split sp h = do
  (t, h) ← to_single_block a sp h
  (sp, t, h) ← assign_move_span sp t h
  h ← destroy_slots t.buffer_ h
  p ← first_layer skip sp
  some (some p, sp, h)

-- BorrowedMemProxy::Layer<n>
unfoldable pub layer : ℕ → List ℕ → ℕ → Span → Heap → Option (Option Pointer × Span × Heap)
layer n sizes a sp h =
    if sp.block_count_ == 1
    then (do p ← first_layer (prefix_size n sizes) sp; some (some p, sp, h))
    else end_layer (prefix_size n sizes) a
        (find_layer (prefix_size n sizes) (nth_size n sizes) (blocks sp)) sp h

-- CreatedMemProxy(), at the address `a`; it holds the buffer until ToSlice.
unfoldable pub created : List ℕ → ℕ → Heap → Option ℕ × Heap
created sizes a h =
    (some a, set a (some (record { ref_cnt = 0; bytes = create (full_size sizes) })) h)

unfoldable to_slice : Option ℕ → Heap → Option (MemSlice × Option ℕ × Heap)
to_slice none h = none
to_slice (some a) h = do (s, h) ← make (some a) 65536 h; some (s, none, h)

-- CreatedMemProxy::Layer<n>
unfoldable created_layer : ℕ → List ℕ → Option ℕ → Option Pointer
created_layer n sizes buffer = do a ← buffer; some (a, prefix_size n sizes)

-- ~CreatedMemProxy()
unfoldable destroy_created : Option ℕ → Heap → Option Heap
destroy_created buffer h = release_if buffer h
