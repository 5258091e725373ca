-- ===== src/Memory/Span/Loops.antt =====
-- mem_slice_span.cpp: the loops over the slots of a span, and the store of a slice in one of them,
-- do not fail, and keep the reference counts the numbers of the slices.
use turnserver_v.Base.{
  ℕ, zero, suc, ◌+◌, ◌≤◌, ◌<◌, ◌≡◌, refl, ◌∙◌, List, [], ◌∷◌, ◌++◌, some, length, arith,
}
use turnserver_v.Memory.Slice.{Heap, MemSlice, assign_move, destroy}
use turnserver_v.Memory.Slice.Counts.{WellCounted, count, assign-WellCounted}
use turnserver_v.Memory.Span.{empty_slice, slot, set_slot, reset_blocks}
use turnserver_v.Memory.Span.Copies.{assign_each, swap_each}
use turnserver_v.Memory.Span.Counted.{
  count-append, recount, destroy-Frees, slot-SlotReset, count-set_slot, slot_within,
  length-set_slot,
}

pub assign_each-WellCounted :
    (ds srcs ss : List MemSlice) (h : Heap)
    → WellCounted h (ds ++ (srcs ++ ss))
    → length srcs ≤ length ds
    → (ds' : List MemSlice) × (h' : Heap) × (assign_each ds srcs h ≡ some (ds', h'))
      × WellCounted h' (ds' ++ (srcs ++ ss))
      × (length ds' ≡ length ds)
unfolding assign_each
assign_each-WellCounted ds [] ss h w inside = (ds, h, refl, w, refl)
assign_each-WellCounted [] (s ∷ srcs) ss h w inside = absurd (omega (arith, inside))
assign_each-WellCounted (d ∷ ds) (s ∷ srcs) ss h w inside =
    let (d', g, one, w1) = assign-WellCounted d s h (ds ++ (srcs ++ ss)) (
      recount h _ _ w (λ x.
        omega (arith, count-append x ds (s ∷ (srcs ++ ss)), count-append x ds (srcs ++ ss)))) in
    let (ds', h', rest, w2, size) =
      assign_each-WellCounted ds srcs (d' ∷ s ∷ ss) g
        (recount g _ _ w1 (λ x. omega (
          arith,
          count-append x ds (srcs ++ ss),
          count-append x ds (srcs ++ (d' ∷ s ∷ ss)),
          count-append x srcs ss,
          count-append x srcs (d' ∷ s ∷ ss),
        )))
        (omega (arith, inside)) in
    (
      d' ∷ ds',
      h',
      rw (one, rest) refl,
      recount h' _ _ w2 (λ x. omega (
        arith,
        count-append x ds' (s ∷ (srcs ++ ss)),
        count-append x ds' (srcs ++ (d' ∷ s ∷ ss)),
        count-append x srcs ss,
        count-append x srcs (d' ∷ s ∷ ss),
      )),
      omega (arith, size),
    )

pub swap_each_counts :
    (n : ℕ) (ds ss : List MemSlice)
    → ((x : ℕ)
        → count x (swap_each n ds ss).0 + count x (swap_each n ds ss).1 ≡ count x ds + count x ss)
      × (length (swap_each n ds ss).0 ≡ length ds)
      × (length (swap_each n ds ss).1 ≡ length ss)
unfolding swap_each assign_move
swap_each_counts zero ds ss = (λ x. refl, refl, refl)
swap_each_counts (suc n) [] ss = (λ x. refl, refl, refl)
swap_each_counts (suc n) (d ∷ ds) [] = (λ x. refl, refl, refl)
swap_each_counts (suc n) (d ∷ ds) (s ∷ ss) =
    let (counts, left, right) = swap_each_counts n ds ss in
    (λ x. omega (arith, counts x), omega (arith, left), omega (arith, right))

pub reset_blocks-WellCounted :
    (n : ℕ) (ts ss : List MemSlice) (h : Heap)
    → WellCounted h (ts ++ ss)
    → n ≤ length ts
    → (ts' : List MemSlice) × (h' : Heap) × (reset_blocks n ts h ≡ some (ts', h'))
      × WellCounted h' (ts' ++ ss)
      × (length ts' ≡ length ts)
unfolding reset_blocks
reset_blocks-WellCounted zero ts ss h w inside = (ts, h, refl, w, refl)
reset_blocks-WellCounted (suc n) ts ss h w inside =
    let one = slot-SlotReset n ts h ss w (omega (arith, inside)) in
    let size = length-set_slot n empty_slice ts in
    let (ts', h', rest, w', size') =
      reset_blocks-WellCounted n (set_slot n empty_slice ts) ss one.heap one.counted
        (omega (arith, inside, size)) in
    (ts', h', rw (one.at, one.result) rest, w', size' ∙ size)

-- A slice that is moved into a slot, while what was there is destroyed.
pub record Stored (i : ℕ) (b : MemSlice) (ts : List MemSlice) (h : Heap) (ss : List MemSlice)
    : Type 0 where
  pub old : MemSlice
  pub at : slot i ts ≡ some old
  pub heap : Heap
  pub result : destroy old h ≡ some heap
  pub counted : WellCounted heap (set_slot i b ts ++ ss)

pub store-Stored :
    (i : ℕ) (b : MemSlice) (ts : List MemSlice) (h : Heap) (ss : List MemSlice)
    → WellCounted h (b ∷ (ts ++ ss))
    → i < length ts
    → Stored i b ts h ss
store-Stored i b ts h ss w inside =
    let (old, at) = slot_within i ts inside in
    let one = destroy-Frees old h (set_slot i b ts ++ ss) (
      recount h _ _ w (λ x. omega (
        arith,
        count-append x ts ss,
        count-append x (set_slot i b ts) ss,
        count-set_slot i b old ts x at,
      ))) in
    record { old = old; at = at; heap = one.heap; result = one.result; counted = one.counted }
