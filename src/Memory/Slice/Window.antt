-- ===== src/Memory/Slice/Window.antt =====
-- mem_slice.cpp: a slice's window stays within its buffer.
use turnserver_v.Base.{
  ℕ, ◌+◌, ◌^◌, ◌≤◌, ◌<◌, ◌≡◌, true, false, ltb, if◌then◌else◌, Bool-cases, inl, inr, ltb→lt, ltb→le,
  lt→ltb, le→ltb, arith,
}
use turnserver_v.Wire.Packer.{u32}
use turnserver_v.Memory.Slice.{
  MemSlice, update_begin, set_begin_pointer, set_end_pointer, adjust_begin_pointer,
  adjust_end_pointer, get_used_size,
}

pub record IsWindow (cap : ℕ) (s : MemSlice) : Type 0 where
  pub ordered : s.begin_offset ≤ s.end_offset
  pub inside : s.end_offset ≤ cap

-- Whatever position it gets, SetBeginPointer keeps a window within its buffer.
set_begin_pointer-IsWindow :
    (position cap : ℕ) (s : MemSlice) → IsWindow cap s → IsWindow cap (set_begin_pointer position s)
unfolding set_begin_pointer
set_begin_pointer-IsWindow position cap s w = ground arith

-- Whatever position it gets, SetEndPointer keeps a window within its buffer.
set_end_pointer-IsWindow :
    (position cap : ℕ) (s : MemSlice)
    → IsWindow cap s
    → IsWindow cap (set_end_pointer position cap s)
unfolding set_end_pointer
set_end_pointer-IsWindow position cap s w = ground arith

-- AdjustBeginPointer and then AdjustEndPointer, by any offsets, keep a window within its buffer.
pub adjust-IsWindow :
    (front back cap : ℕ) (s : MemSlice)
    → IsWindow cap s
    → IsWindow cap (adjust_end_pointer back cap (adjust_begin_pointer front s))
unfolding adjust_begin_pointer adjust_end_pointer
adjust-IsWindow front back cap s w =
    set_end_pointer-IsWindow _ cap _ (set_begin_pointer-IsWindow _ cap s w)

-- Where the sum of begin and offset fits into 32 bits, UpdateBegin answers true if the window is
-- at least `offset` long and then drops these bytes; otherwise it answers false and changes nothing.
update_begin_lem :
    (offset cap : ℕ) (s : MemSlice)
    → IsWindow cap s
    → s.begin_offset + offset < 2 ^ 32
    → update_begin offset s ≡ (
        if ltb (get_used_size s) offset
        then (false, s)
        else (true, record s { begin_offset = s.begin_offset + offset }))
unfolding update_begin
update_begin_lem offset cap s w fits = elim (Bool-cases (ltb (get_used_size s) offset)) [
  | inl short ↦ rw (
    short,
    wrap,
    lt→ltb s.end_offset (s.begin_offset + offset) (omega (arith, ltb→lt _ _ short, w.ordered)),
  )
  | inr long ↦ rw (
    long,
    wrap,
    le→ltb s.end_offset (s.begin_offset + offset) (omega (arith, ltb→le _ _ long, w.ordered)),
  )
]
  where
    wrap : u32 (s.begin_offset + offset) ≡ s.begin_offset + offset
    wrap = omega (arith, fits)
