-- ===== src/Memory/Slice.antt =====
-- turnserver/memory/mem_buf.h and mem_slice.h, mem_slice.cpp: class MemBuf, bytes on the heap with a
-- reference count, and class MemSlice, a window on a shared MemBuf.
--
-- The heap gives the MemBuf at an address, `none` where there is none or it was freed; to use such
-- an address is a fault (`none`). A count is taken to stay below 2 ^ 31. An `int32_t` offset is given
-- by the number below 2 ^ 32 with the same bits.
pub mod Counts
pub mod Window
use turnserver_v.Base.{
  ℕ, ◌+◌, ◌-◌, ◌%◌, ◌^◌, min, Bool, true, false, List, Option, none, some, ◌>>=◌, leb, ltb, ◌==◌,
  if◌then◌else◌, length, take, drop,
}
use turnserver_v.Wire.Packer.{Cell, u32}

pub record MemBuf : Type 0 where
  pub ref_cnt : ℕ
  pub bytes : List Cell

abbrev pub Heap : Type 0
Heap = ℕ → Option MemBuf

abbrev pub set : ℕ → Option MemBuf → Heap → Heap
set a m h = λ x. if x == a then m else h x

abbrev pub capacity : MemBuf → ℕ
capacity m = length m.bytes

unfoldable pub add_ref : ℕ → Heap → Option Heap
add_ref a h = do m ← h a; some (set a (some (record m { ref_cnt = m.ref_cnt + 1 })) h)

unfoldable pub release : ℕ → Heap → Option Heap
release a h = do
  m ← h a
  some (set a (if leb m.ref_cnt 1 then none else some (record m { ref_cnt = m.ref_cnt - 1 })) h)

pub record MemSlice : Type 0 where
  pub buffer : Option ℕ
  pub begin_offset : ℕ
  pub end_offset : ℕ

-- if (buffer_) buffer_->AddRef();
unfoldable pub add_ref_if : Option ℕ → Heap → Option Heap
add_ref_if none h = some h
add_ref_if (some a) h = add_ref a h

-- if (buffer_) buffer_->Release();
unfoldable pub release_if : Option ℕ → Heap → Option Heap
release_if none h = some h
release_if (some a) h = release a h

abbrev pub capacity_if : Option ℕ → Heap → Option ℕ
capacity_if none h = some 0
capacity_if (some a) h = do m ← h a; some (capacity m)

unfoldable pub initialize : Option ℕ → Heap → Option (MemSlice × Heap)
initialize buffer h = do
  h ← add_ref_if buffer h
  n ← capacity_if buffer h
  some (record { buffer = buffer; begin_offset = 0; end_offset = n }, h)

-- MemSlice(buffer, size)
unfoldable pub make : Option ℕ → ℕ → Heap → Option (MemSlice × Heap)
make buffer size h = do
  (s, h) ← initialize buffer h
  some (record s { end_offset = min size s.end_offset }, h)

-- MemSlice(const MemSlice &)
unfoldable pub copy : MemSlice → Heap → Option (MemSlice × Heap)
copy rhs h = do
  (s, h) ← initialize rhs.buffer h
  some (record s { begin_offset = rhs.begin_offset; end_offset = rhs.end_offset }, h)

-- MemSlice(MemSlice &&): the new slice, and what is left of `rhs`.
unfoldable pub move_from : MemSlice → Heap → Option (MemSlice × MemSlice × Heap)
move_from rhs h = do
  (s, h) ← initialize rhs.buffer h
  h ← release_if rhs.buffer h
  some (
    record s { begin_offset = rhs.begin_offset; end_offset = rhs.end_offset },
    record { buffer = none; begin_offset = 0; end_offset = 0 },
    h,
  )

unfoldable pub destroy : MemSlice → Heap → Option Heap
destroy s h = release_if s.buffer h

-- operator=(const MemSlice &) of two different objects.
unfoldable pub assign : MemSlice → MemSlice → Heap → Option (MemSlice × Heap)
assign s rhs h = do h ← release_if s.buffer h; h ← add_ref_if rhs.buffer h; some (rhs, h)

-- operator=(MemSlice &&) swaps the two.
unfoldable pub assign_move : MemSlice → MemSlice → MemSlice × MemSlice
assign_move s rhs = (rhs, s)

-- Reset, and operator=(const MemBuf *)
unfoldable pub reset : MemSlice → Option ℕ → Heap → Option (MemSlice × Heap)
reset s buffer h = do h ← release_if s.buffer h; initialize buffer h

unfoldable pub update_begin : ℕ → MemSlice → Bool × MemSlice
update_begin offset s =
    if ltb s.end_offset (u32 (s.begin_offset + offset))
    then (false, s)
    else (true, record s { begin_offset = u32 (s.begin_offset + offset) })

unfoldable pub set_begin_pointer : ℕ → MemSlice → MemSlice
set_begin_pointer position s = record s {
  begin_offset = if ltb s.end_offset position then s.end_offset else position;
}

-- The second argument is the capacity of the slice's buffer.
unfoldable pub set_end_pointer : ℕ → ℕ → MemSlice → MemSlice
set_end_pointer position cap s =
    let position = if ltb position s.begin_offset then s.begin_offset else position in
    record s { end_offset = if ltb cap position then cap else position }

unfoldable pub adjust_begin_pointer : ℕ → MemSlice → MemSlice
adjust_begin_pointer offset s = set_begin_pointer (u32 (s.begin_offset + offset)) s

unfoldable pub adjust_end_pointer : ℕ → ℕ → MemSlice → MemSlice
adjust_end_pointer offset cap s = set_end_pointer (u32 (s.end_offset + offset)) cap s

abbrev pub get_used_size : MemSlice → ℕ
get_used_size s = s.end_offset - s.begin_offset
