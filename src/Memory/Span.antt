-- ===== src/Memory/Span.antt =====
-- turnserver/memory/mem_slice_span.h and mem_slice_span.cpp: class MemSliceSpan, up to four slices in
-- a row. The array of the object has four slots, of which the first `block_count_` are in use.
use turnserver_v.Base.{
  ℕ, zero, suc, ◌+◌, ◌-◌, min, Bool, true, false, List, [], ◌∷◌, ◌++◌, Option, none, some, ◌>>=◌,
  ◌>>◌, assert, ltb, leb, ◌==◌, ◌||◌, if◌then◌else◌, take, drop,
}
use turnserver_v.Wire.Packer.{Cell, u32, create, poke}
use turnserver_v.Memory.Slice.{Heap, MemSlice, assign_move, destroy, get_used_size}
use turnserver_v.Memory.Slice as Slice
use turnserver_v.Memory.Taken.{slice_bytes}
pub mod Bytes
pub mod Blocks
pub mod Adjust
pub mod Copies
pub mod Clones
pub mod Counted
pub mod Loops
pub mod Becomes
pub mod Safe

abbrev pub max_blocks : ℕ
max_blocks = 4

pub record Span : Type 0 where
  pub size_ : ℕ
  pub block_count_ : ℕ
  pub buffer_ : List MemSlice

-- MemSlice()
abbrev pub empty_slice : MemSlice
empty_slice = record { buffer = none; begin_offset = 0; end_offset = 0 }

-- MemSliceSpan(nullptr)
unfoldable pub empty_span : Span
empty_span = record {
  size_ = 0;
  block_count_ = 0;
  buffer_ = empty_slice ∷ empty_slice ∷ empty_slice ∷ empty_slice ∷ [];
}

-- buffer_[i], and a store to it.
unfoldable pub slot : ℕ → List MemSlice → Option MemSlice
slot i [] = none
slot zero (s ∷ ss) = some s
slot (suc i) (s ∷ ss) = slot i ss

unfoldable pub set_slot : ℕ → MemSlice → List MemSlice → List MemSlice
set_slot i x [] = []
set_slot zero x (s ∷ ss) = x ∷ ss
set_slot (suc i) x (s ∷ ss) = s ∷ set_slot i x ss

-- begin(a) to end(a)
abbrev pub blocks : Span → List MemSlice
blocks sp = take sp.block_count_ sp.buffer_

-- The block is passed by value: what is left of it is destroyed.
unfoldable pub push_back : MemSlice → Span → Heap → Option (Bool × Span × Heap)
push_back block sp h =
    if leb max_blocks sp.block_count_ then (do h ← destroy block h; some (false, sp, h)) else (do
      old ← slot sp.block_count_ sp.buffer_
      let moved = assign_move old block
      h ← destroy moved.1 h
      some (
        true,
        record {
          size_ = u32 (sp.size_ + get_used_size block);
          block_count_ = sp.block_count_ + 1;
          buffer_ = set_slot sp.block_count_ moved.0 sp.buffer_;
        },
        h,
      ))

-- The loop of Reset, from the last block to the first.
unfoldable pub reset_blocks : ℕ → List MemSlice → Heap → Option (List MemSlice × Heap)
reset_blocks zero ss h = some (ss, h)
reset_blocks (suc i) ss h = do
  s ← slot i ss
  (s, h) ← Slice.reset s none h
  reset_blocks i (set_slot i s ss) h

unfoldable pub reset : MemSlice → Span → Heap → Option (Span × Heap)
reset block sp h = do
  (ss, h) ← reset_blocks sp.block_count_ sp.buffer_ h
  old ← slot 0 ss
  let moved = assign_move old block
  h ← destroy moved.1 h
  some (
    record {
      size_ = get_used_size moved.0;
      block_count_ = if get_used_size moved.0 == 0 then 0 else 1;
      buffer_ = set_slot 0 moved.0 ss;
    },
    h,
  )

unfoldable pub insert_blocks : List Cell → List MemSlice → Heap → Option (List Cell)
insert_blocks buffer [] h = some buffer
insert_blocks buffer (s ∷ ss) h = do bs ← slice_bytes s h; insert_blocks (buffer ++ bs) ss h

unfoldable pub to_raw_buffer : Span → Heap → Option (List Cell)
to_raw_buffer sp h = do
  assert (ltb sp.block_count_ max_blocks)
  if (leb sp.block_count_ 0) || (sp.size_ == 0) then some [] else insert_blocks [] (blocks sp) h

-- The loop of CloneSpannedMem: `q` is the distance from the begin of the new MemBuf.
unfoldable pub copy_blocks : ℕ → List Cell → List MemSlice → Heap → Option (List Cell)
copy_blocks q m [] h = some m
copy_blocks q m (s ∷ ss) h = do
  bs ← slice_bytes s h
  m ← poke m q bs
  copy_blocks (q + get_used_size s) m ss h

-- The bytes of the new MemBuf.
unfoldable pub clone_spanned_mem : Span → Heap → Option (List Cell)
clone_spanned_mem sp h = do
  assert (ltb sp.block_count_ max_blocks)
  copy_blocks 0 (create sp.size_) (blocks sp) h

-- The first loop of AdjustBeginPointer: the blocks, and `pos`.
unfoldable pub adjust_blocks : ℕ → List MemSlice → List MemSlice × ℕ
adjust_blocks left [] = ([], 0)
adjust_blocks left (s ∷ ss) =
    let n = min left (get_used_size s) in
    let s' = Slice.adjust_begin_pointer n s in
    let rest = adjust_blocks (left - n) ss in
    if (left - n) == 0
    then (s' ∷ ss, if get_used_size s' == 0 then 1 else 0)
    else (s' ∷ rest.0, rest.1 + 1)

-- The last loop: every block from `pos` on is moved into the first slot, in turn.
unfoldable pub move_to_first : MemSlice → List MemSlice → MemSlice × List MemSlice
move_to_first first [] = (first, [])
move_to_first first (s ∷ ss) =
    let moved = assign_move first s in
    let rest = move_to_first moved.0 ss in (rest.0, moved.1 ∷ rest.1)

unfoldable pub shifted : ℕ → List MemSlice → List MemSlice
shifted zero ss = ss
shifted (suc pos) [] = []
shifted (suc pos) (first ∷ ss) =
    let moved = move_to_first first (drop pos ss) in moved.0 ∷ (take pos ss ++ moved.1)

unfoldable pub adjust_begin_pointer : ℕ → Span → Heap → Option (Span × Heap)
adjust_begin_pointer offset sp h = do
  assert (ltb offset sp.size_)
  if leb sp.size_ offset
      then reset empty_slice sp h
      else (let adjusted = adjust_blocks offset (blocks sp) in
          some (
            record {
              size_ = sp.size_ - offset;
              block_count_ = sp.block_count_ - adjusted.1;
              buffer_ = shifted adjusted.1 adjusted.0 ++ drop sp.block_count_ sp.buffer_;
            },
            h,
          ))
