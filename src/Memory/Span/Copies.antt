-- ===== src/Memory/Span/Copies.antt =====
-- mem_slice_span.cpp: the constructors and the assignments of MemSliceSpan.
use turnserver_v.Base.{
  first_of_some, ℕ, zero, suc, ◌-◌, ◌≤◌, ◌≡◌, refl, ap, List, [], ◌∷◌, Option, none, some, ◌>>=◌,
  ◌>>◌, assert, leb, ◌==◌, if◌then◌else◌, take, length, ltb, ◌+◌, Bool-cases, Option-cases, Ensures,
  Ensures-bind, subst, inl, inr, arith,
}
use turnserver_v.Wire.Packer.{Cell, u32, create_from}
use turnserver_v.Memory.Slice.{
  Heap, MemSlice, MemBuf, set, assign, assign_move, destroy, make, capacity_if, get_used_size,
  release_if, add_ref_if,
}
use turnserver_v.Memory.Slice as Slice
use turnserver_v.Memory.Span.{Span, empty_span, empty_slice, max_blocks, slot, set_slot, blocks}

-- MemSliceSpan(MemSlice): the slice is passed by value.
unfoldable from_slice : MemSlice → Heap → Option (Span × Heap)
from_slice buffer h =
    if get_used_size buffer == 0
    then (do h ← destroy buffer h; some (empty_span, h))
    else some (
      record {
        size_ = get_used_size buffer;
        block_count_ = 1;
        buffer_ = buffer ∷ empty_slice ∷ empty_slice ∷ empty_slice ∷ [];
      },
      h,
    )

-- MemSliceSpan(buf, length), for bytes of that length, fewer than 2 ^ 32; `a` is the address of the
-- new MemBuf, of which MemSlice takes 65536 bytes at most.
unfoldable from_bytes : ℕ → List Cell → Heap → Option (Span × Heap)
from_bytes a bytes h = do
  (s, h) ← make (some a) 65536 (
      set a (some (record { ref_cnt = 0; bytes = create_from bytes (length bytes) (length bytes) }))
        h)
  some (
    record {
      size_ = u32 (length bytes);
      block_count_ = 1;
      buffer_ = s ∷ empty_slice ∷ empty_slice ∷ empty_slice ∷ [];
    },
    h,
  )

-- buffer_[i] = a.buffer_[i], for the blocks of `a`.
unfoldable pub assign_each : List MemSlice → List MemSlice → Heap → Option (List MemSlice × Heap)
assign_each ds [] h = some (ds, h)
assign_each [] (s ∷ ss) h = none
assign_each (d ∷ ds) (s ∷ ss) h = do
  (d, h) ← assign d s h
  (ds, h) ← assign_each ds ss h
  some (d ∷ ds, h)

-- MemSliceSpan(buffer): MemSlice takes 65536 bytes at most, the size counts them all.
unfoldable from_buf : Option ℕ → Heap → Option (Span × Heap)
from_buf none h = some (empty_span, h)
from_buf (some a) h = do
  n ← capacity_if (some a) h
  (s, h) ← make (some a) 65536 h
  some (
    record {
      size_ = n;
      block_count_ = 1;
      buffer_ = s ∷ empty_slice ∷ empty_slice ∷ empty_slice ∷ [];
    },
    h,
  )

abbrev total_size : List MemSlice → ℕ
total_size [] = 0
total_size (s ∷ ss) = get_used_size s + total_size ss

-- MemSliceSpan(blocks): the slices of an initializer_list are constant and are copied.
unfoldable from_list : List MemSlice → Heap → Option (Span × Heap)
from_list ss h = do
  assert (ltb (length ss) max_blocks)
  (ds, h) ← assign_each empty_span.buffer_ ss h
  some (record { size_ = u32 (total_size ss); block_count_ = length ss; buffer_ = ds }, h)

-- buffer_[i] = std::move(a.buffer_[i]) swaps the two: the slots of both.
unfoldable pub swap_each : ℕ → List MemSlice → List MemSlice → List MemSlice × List MemSlice
swap_each zero ds ss = (ds, ss)
swap_each (suc n) [] ss = ([], ss)
swap_each (suc n) (d ∷ ds) [] = (d ∷ ds, [])
swap_each (suc n) (d ∷ ds) (s ∷ ss) =
    let moved = assign_move d s in
    let rest = swap_each n ds ss in (moved.0 ∷ rest.0, moved.1 ∷ rest.1)

-- buffer_[i].Reset(), for the slots from `first` on, `n` of them.
unfoldable pub reset_from : ℕ → ℕ → List MemSlice → Heap → Option (List MemSlice × Heap)
reset_from first zero ss h = some (ss, h)
reset_from first (suc n) ss h = do
  s ← slot first ss
  (s, h) ← Slice.reset s none h
  reset_from (suc first) n (set_slot first s ss) h

-- ~MemSliceSpan, which destroys the slots.
unfoldable pub destroy_slots : List MemSlice → Heap → Option Heap
destroy_slots [] h = some h
destroy_slots (s ∷ ss) h = do h ← destroy s h; destroy_slots ss h

-- MemSliceSpan(const MemSliceSpan &)
unfoldable pub copy_span : Span → Heap → Option (Span × Heap)
copy_span a h = do
  (ss, h) ← assign_each empty_span.buffer_ (blocks a) h
  some (record a { buffer_ = ss }, h)

-- MemSliceSpan(MemSliceSpan &&): the new span, and what is left of `a`.
unfoldable pub move_span : Span → Span × Span
move_span a =
    let moved = swap_each a.block_count_ empty_span.buffer_ a.buffer_ in
    (record a { buffer_ = moved.0 }, record { size_ = 0; block_count_ = 0; buffer_ = moved.1 })

-- operator=(const MemSliceSpan &) of two different objects.
unfoldable pub assign_span : Span → Span → Heap → Option (Span × Heap)
assign_span sp a h = do
  assert (leb a.block_count_ max_blocks)
  (ss, h) ← assign_each sp.buffer_ (blocks a) h
  (ss, h) ← reset_from a.block_count_ (sp.block_count_ - a.block_count_) ss h
  some (record a { buffer_ = ss }, h)

-- operator=(MemSliceSpan &&) of two different objects.
unfoldable pub assign_move_span : Span → Span → Heap → Option (Span × Span × Heap)
assign_move_span sp a h = do
  assert (leb a.block_count_ max_blocks)
  let moved = swap_each a.block_count_ sp.buffer_ a.buffer_
  (ss, h) ← reset_from a.block_count_ (sp.block_count_ - a.block_count_) moved.0 h
  some (record a { buffer_ = ss }, record { size_ = 0; block_count_ = 0; buffer_ = moved.1 }, h)

-- operator=(MemSlice): the slice is passed by value.
unfoldable assign_slice : Span → MemSlice → Heap → Option (Span × Heap)
assign_slice sp buffer h = do
  (ss, h) ← reset_from 1 (sp.block_count_ - 1) sp.buffer_ h
  old ← slot 0 ss
  let moved = assign_move old buffer
  h ← destroy moved.1 h
  some (
    record { size_ = get_used_size moved.0; block_count_ = 1; buffer_ = set_slot 0 moved.0 ss },
    h,
  )

swap_each-take :
    (n : ℕ) (ds ss : List MemSlice)
    → n ≤ length ds
    → n ≤ length ss
    → take n (swap_each n ds ss).0 ≡ take n ss
unfolding swap_each assign_move
swap_each-take zero ds ss h k = refl
swap_each-take (suc n) [] ss h k = absurd (omega (arith, h))
swap_each-take (suc n) (d ∷ ds) [] h k = absurd (omega (arith, k))
swap_each-take (suc n) (d ∷ ds) (s ∷ ss) h k =
    ap (λ t. s ∷ t) (swap_each-take n ds ss (omega (arith, h)) (omega (arith, k)))

-- A span that is moved into has the blocks of the other, of which none are left there.
move_span-blocks :
    (a : Span)
    → a.block_count_ ≤ 4
    → length a.buffer_ ≡ 4
    → (blocks (move_span a).0 ≡ blocks a) × (blocks (move_span a).1 ≡ [])
unfolding move_span empty_span
move_span-blocks a used four = (
  swap_each-take a.block_count_ _ a.buffer_ (omega (arith, used)) (omega (arith, used, four)),
  refl,
)

assign_gives : (d s : MemSlice) (h : Heap) → Ensures (λ r. r.0 ≡ s) (assign d s h)
unfolding assign
assign_gives d s h =
    Ensures-bind (λ (r : MemSlice × Heap). r.0 ≡ s) (release_if d.buffer h) _
      (λ h. Ensures-bind (λ (r : MemSlice × Heap). r.0 ≡ s) (add_ref_if s.buffer h) _ (λ h. refl))

assign_each-take :
    (ds ss ts : List MemSlice) (h h' : Heap)
    → assign_each ds ss h ≡ some (ts, h')
    → take (length ss) ts ≡ ss
unfolding assign_each
assign_each-take ds [] ts h h' done = refl
assign_each-take [] (s ∷ ss) ts h h' done = absurd (cc)
assign_each-take (d ∷ ds) (s ∷ ss) ts h h' done = elim (Option-cases (assign d s h)) [
  | inl fails ↦ absurd (ground arith)
  | inr ((t, g), assigned) ↦
      let same : t ≡ s = subst (Ensures (λ r. r.0 ≡ s)) assigned (assign_gives d s h) in
      elim (Option-cases (assign_each ds ss g)) [
        | inl fails ↦ absurd (ground arith)
        | inr ((more, k), rest) ↦
            let made : some (t ∷ more, k) ≡ some (ts, h') = rw (assigned, rest) at done in
            let all : t ∷ more ≡ ts = first_of_some (t ∷ more) ts k h' made in
            rw⁻¹ all (rw same (ap (λ l. s ∷ l) (assign_each-take ds ss more g k rest)))
      ]
]

-- A span that is made of a list of slices has these blocks.
from_list-blocks :
    (ss : List MemSlice) (sp : Span) (h h' : Heap)
    → from_list ss h ≡ some (sp, h')
    → (blocks sp ≡ ss) × (sp.size_ ≡ u32 (total_size ss))
unfolding from_list
from_list-blocks ss sp h h' done = elim (Bool-cases (ltb (length ss) max_blocks)) [
  | inr many ↦ absurd (ground arith)
  | inl few ↦ elim (Option-cases (assign_each empty_span.buffer_ ss h)) [
    | inl fails ↦ absurd (ground arith)
    | inr ((ts, g), assigned) ↦
        let made : some
              (record { size_ = u32 (total_size ss); block_count_ = length ss; buffer_ = ts }, g)
            ≡ some (sp, h') =
          rw (few, assigned) at done in
        let same : record { size_ = u32 (total_size ss); block_count_ = length ss; buffer_ = ts }
            ≡ sp =
          first_of_some _ sp g h' made in
        rw⁻¹ same (assign_each-take empty_span.buffer_ ss ts h g assigned, refl)
  ]
]
