-- ===== src/Memory/Span/Clones.antt =====
-- mem_buf.cpp, mem_slice.cpp and mem_slice_span.cpp: the clones, which copy the bytes into buffers of
-- their own. The addresses of the new buffers are arguments.
use turnserver_v.Base.{
  ℕ, ◌≡◌, refl, true, List, [], ◌∷◌, ◌++◌, Option, none, some, ◌>>=◌, ◌>>◌, assert, leb, ltb, ◌==◌,
  ==_iff, if◌then◌else◌, take,
}
use turnserver_v.Memory.Slice.{Heap, MemBuf, MemSlice, set, initialize, make, add_ref_if, add_ref}
use turnserver_v.Memory.Taken.{slice_bytes}
use turnserver_v.Memory.Span.{Span, empty_slice, empty_span, max_blocks, blocks, clone_spanned_mem}
use turnserver_v.Memory.Span.Copies.{copy_span}

unfoldable pub clone_buf : MemBuf → MemBuf
clone_buf m = record { ref_cnt = 0; bytes = m.bytes }

unfoldable pub clone_slice : ℕ → MemSlice → Heap → Option (MemSlice × Heap)
clone_slice a s h = do
  b ← s.buffer
  m ← h b
  (tmp, h) ← make (some a) 65536 (set a (some (clone_buf m)) h)
  some (record tmp { begin_offset = s.begin_offset; end_offset = s.end_offset }, h)

-- CloneSlicedMem: the new buffer, which nothing refers to yet.
unfoldable clone_sliced_mem : ℕ → MemSlice → Heap → Option Heap
clone_sliced_mem a s h = do
  bs ← slice_bytes s h
  some (set a (some (record { ref_cnt = 0; bytes = bs })) h)

-- tmp.buffer_[i] = buffer_[i].Clone(): the empty slot is destroyed with the temporary.
unfoldable pub clone_each : List ℕ → List MemSlice → Heap → Option (List MemSlice × Heap)
clone_each addresses [] h = some ([], h)
clone_each [] (s ∷ ss) h = none
clone_each (a ∷ addresses) (s ∷ ss) h = do
  (t, h) ← clone_slice a s h
  (ts, h) ← clone_each addresses ss h
  some (t ∷ ts, h)

unfoldable pub clone_span : List ℕ → Span → Heap → Option (Span × Heap)
clone_span addresses sp h = do
  assert (ltb sp.block_count_ max_blocks)
  (ts, h) ← clone_each addresses (blocks sp) h
  some (record sp { buffer_ = take max_blocks (ts ++ empty_span.buffer_) }, h)

unfoldable pub to_single_block : ℕ → Span → Heap → Option (Span × Heap)
to_single_block a sp h = do
  assert (ltb sp.block_count_ max_blocks)
  if leb sp.block_count_ 1 then copy_span sp h else (do
    bs ← clone_spanned_mem sp h
    (s, h) ← make (some a) 65536 (set a (some (record { ref_cnt = 0; bytes = bs })) h)
    some (
      record {
        size_ = sp.size_;
        block_count_ = 1;
        buffer_ = s ∷ empty_slice ∷ empty_slice ∷ empty_slice ∷ [];
      },
      h,
    ))

-- A clone of a slice holds the same bytes.
pub clone_slice-bytes :
    (a b : ℕ) (m : MemBuf) (s : MemSlice) (h : Heap)
    → s.buffer ≡ some b
    → h b ≡ some m
    → (t : MemSlice) × (h' : Heap) × (clone_slice a s h ≡ some (t, h'))
      × (slice_bytes t h' ≡ slice_bytes s h)
unfolding clone_slice clone_buf make initialize add_ref_if add_ref slice_bytes
clone_slice-bytes a b m s h at_b live = (
  record { buffer = some a; begin_offset = s.begin_offset; end_offset = s.end_offset },
  set a (some (record { ref_cnt = 1; bytes = m.bytes }))
      (set a (some (record { ref_cnt = 0; bytes = m.bytes })) h),
  rw (at_b, live, self, self) refl,
  rw (at_b, live, self) refl,
)
  where
    self : (a == a) ≡ true
    self = (==_iff a a).1 refl
