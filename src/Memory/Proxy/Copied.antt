-- ===== src/Memory/Proxy/Copied.antt =====
-- turnserver/memory/mem_proxy.h: BorrowedMemProxy::Layer gives the value, also where it copies the
-- span into one block.
use turnserver_v.Base.{
  ℕ, ◌+◌, ◌-◌, ◌≤◌, ◌<◌, ◌≡◌, refl, sym, ap, ◌∙◌, min, true, false, List, [], ◌∷◌, ◌++◌, Option,
  none, some, leb, ◌==◌, ==_iff, length, take, drop, Bool-cases, Option-cases, inl, inr, le→leb,
  lt→leb, lt→ltb, arith,
}
use turnserver_v.Wire.Packer.{Cell, peek}
use turnserver_v.Memory.Slice.{
  MemBuf, Heap, MemSlice, set, make, initialize, add_ref_if, add_ref, assign_move,
}
use turnserver_v.Memory.Slice.Counts.{WellCounted, count, points, refs}
use turnserver_v.Memory.Span.{Span, empty_slice, blocks, slot, clone_spanned_mem}
use turnserver_v.Memory.Span.Blocks.{total, IsSpan}
use turnserver_v.Memory.Span.Bytes.{Holds, Holds-total, to_raw_buffer-clone_spanned_mem}
use turnserver_v.Memory.Span.Copies.{swap_each, assign_move_span, destroy_slots}
use turnserver_v.Memory.Span.Clones.{to_single_block}
use turnserver_v.Memory.Span.Counted.{
  count-append, recount, Keeps, Keeps-trans, Frees, destroy_slots-Frees, Resets, reset_from-Resets,
}
use turnserver_v.Memory.Proxy.{
  full_size, prefix_size, nth_size, Pointer, Found, first_layer, pointer_in, end_layer, layer,
}
use turnserver_v.Memory.Proxy.Layers.{read, nth_size_bounded, layer-IsPlaced}
use turnserver_v.Memory.Proxy.Layers.IsPlaced.{pointed, copied}

-- The first slice of a new buffer at `a`, and the heap with both.
abbrev new_slice : ℕ → List Cell → MemSlice
new_slice a bs = record { buffer = some a; begin_offset = 0; end_offset = min 65536 (length bs) }

abbrev new_heap : ℕ → List Cell → Heap → Heap
new_heap a bs h =
    set a (some (record { ref_cnt = 1; bytes = bs }))
      (set a (some (record { ref_cnt = 0; bytes = bs })) h)

make-new :
    (a : ℕ) (bs : List Cell) (h : Heap)
    → make (some a) 65536 (set a (some (record { ref_cnt = 0; bytes = bs })) h)
      ≡ some (new_slice a bs, new_heap a bs h)
unfolding make initialize add_ref_if add_ref
make-new a bs h = let self : (a == a) ≡ true = (==_iff a a).1 refl in rw (self, self) refl

new_heap-WellCounted :
    (a : ℕ) (bs : List Cell) (h : Heap) (ss : List MemSlice)
    → h a ≡ none
    → WellCounted h ss
    → WellCounted (new_heap a bs h) (new_slice a bs ∷ ss)
new_heap-WellCounted a bs h ss fresh w = record {
  counted = λ x. elim (Bool-cases (x == a)) [
    | inl same ↦
        rw same
          (omega (arith, w.counted x, ap (λ y. refs (h y)) ((==_iff x a).0 same), ap refs fresh))
    | inr other ↦ rw other (omega (arith, w.counted x))
  ];
}

-- A slice in the first slot is counted.
count_first :
    (s : MemSlice) (ts : List MemSlice) (x : ℕ)
    → slot 0 ts ≡ some s
    → points x s.buffer ≤ count x ts
unfolding slot
count_first s [] x at = absurd (ground arith)
count_first s (t ∷ ts) x at =
    let same : t ≡ s = cc in omega (arith, ap (λ r. points x r.buffer) same)

-- What is left of a buffer that a slice points to has all bytes.
bytes_left :
    (a : ℕ) (bs : List Cell) (h g : Heap) (ss : List MemSlice)
    → WellCounted g ss
    → 1 ≤ count a ss
    → Keeps (new_heap a bs h) g
    → (m : MemBuf) × (g a ≡ some m) × (m.bytes ≡ bs)
bytes_left a bs h g ss w used keeps = elim (Option-cases (g a)) [
  | inl gone ↦ absurd (omega (arith, w.counted a, ap refs gone, used))
  | inr (m, there) ↦
      let (n, here, same) = keeps.kept a m there in
      let self : (a == a) ≡ true = (==_iff a a).1 refl in
      let new : some (record { ref_cnt = 1; bytes = bs }) ≡ some n = rw self at here in
      let is : bs ≡ n.bytes = cc in (m, there, sym (is ∙ same))
]

-- What Layer gives: a pointer, the span and the heap after it.
pub record Gives (o : Option (Option Pointer × Span × Heap)) (size : ℕ) (d : List Cell)
    (ss : List MemSlice) : Type 0 where
  pub pointer : Pointer
  pub span : Span
  pub heap : Heap
  pub result : o ≡ some (some pointer, span, heap)
  pub value : read pointer size heap ≡ some d
  pub counted : WellCounted heap (span.buffer_ ++ ss)

abbrev empties : List MemSlice
empties = empty_slice ∷ empty_slice ∷ empty_slice ∷ []

abbrev single : ℕ → List Cell → Span → Span
single a bs sp = record { size_ = sp.size_; block_count_ = 1; buffer_ = new_slice a bs ∷ empties }

to_single_block_lem :
    (a : ℕ) (sp : Span) (h : Heap) (bs : List Cell)
    → 2 ≤ sp.block_count_
    → sp.block_count_ < 4
    → clone_spanned_mem sp h ≡ some bs
    → to_single_block a sp h ≡ some (single a bs sp, new_heap a bs h)
unfolding to_single_block
to_single_block_lem a sp h bs several few cloned =
    rw
      (
        lt→ltb sp.block_count_ 4 few,
        lt→leb sp.block_count_ 1 (omega (arith, several)),
        cloned,
        make-new a bs h,
      )
      refl

read_lem :
    (a skip size : ℕ) (bs : List Cell) (g : Heap) (m : MemBuf)
    → g a ≡ some m
    → m.bytes ≡ bs
    → skip + size ≤ length bs
    → read (a, 0 + skip) size g ≡ some (take size (drop skip bs))
unfolding read peek
read_lem a skip size bs g m there bytes inside =
    let same : 0 + skip ≡ skip = omega arith in
    let room : leb (skip + size) (length bs) ≡ true = le→leb _ _ inside in
    rw (same, there, bytes, room) refl

module _ (skip size a : ℕ) (sp : Span) (h : Heap) (bs : List Cell) (ss : List MemSlice)
    (b : MemSlice) (rest : List MemSlice) (slots : sp.buffer_ ≡ b ∷ rest) where
  -- With the slots after the first reset and what is left of the temporary destroyed.
  assembled :
      (r : Resets 1
        (sp.block_count_ - 1)
        (new_slice a bs ∷ rest)
        (new_heap a bs h)
        ((b ∷ empties) ++ ss))
      (f : Frees (destroy_slots (b ∷ empties) r.heap) r.heap (r.slots ++ ss))
      → 2 ≤ sp.block_count_
      → sp.block_count_ < 4
      → clone_spanned_mem sp h ≡ some bs
      → skip + size ≤ length bs
      → Gives (end_layer skip a Found.split sp h) size (take size (drop skip bs)) ss
  unfolding end_layer assign_move_span swap_each assign_move first_layer pointer_in slot
  assembled r f several few cloned inside =
      let first : slot 0 r.slots ≡ some (new_slice a bs) = r.before 0 (omega arith) in
      let self : (a == a) ≡ true = (==_iff a a).1 refl in
      let here : points a (some a) ≡ 1 = rw self refl in
      let used : 1 ≤ count a (r.slots ++ ss) =
        omega
          (arith, count-append a r.slots ss, count_first (new_slice a bs) r.slots a first, here) in
      let (m, there, bytes) =
        bytes_left a bs h f.heap (r.slots ++ ss) f.counted used
          (Keeps-trans (new_heap a bs h) r.heap f.heap r.keeps f.keeps) in
      let moved : assign_move_span sp (single a bs sp) (new_heap a bs h)
          ≡ some (
            record { size_ = sp.size_; block_count_ = 1; buffer_ = r.slots },
            record { size_ = 0; block_count_ = 0; buffer_ = b ∷ empties },
            r.heap,
          ) =
        rw (slots, r.result) refl in
      record {
        pointer = (a, 0 + skip);
        span = record { size_ = sp.size_; block_count_ = 1; buffer_ = r.slots };
        heap = f.heap;
        result = rw (to_single_block_lem a sp h bs several few cloned, moved, f.result, first) refl;
        value = read_lem a skip size bs f.heap m there bytes inside;
        counted = f.counted;
      }

  copied_lem :
      2 ≤ sp.block_count_
      → sp.block_count_ < 4
      → length sp.buffer_ ≡ 4
      → sp.size_ ≡ total (blocks sp)
      → Holds h (blocks sp) bs
      → h a ≡ none
      → WellCounted h (sp.buffer_ ++ ss)
      → skip + size ≤ length bs
      → Gives (end_layer skip a Found.split sp h) size (take size (drop skip bs)) ss
  copied_lem several few four sum held fresh w inside =
      let w0 : WellCounted h (b ∷ (rest ++ ss)) = rw slots at w in
      let w1 : WellCounted (new_heap a bs h) (new_slice a bs ∷ b ∷ (rest ++ ss)) =
        new_heap-WellCounted a bs h (b ∷ (rest ++ ss)) fresh w0 in
      let w2 : WellCounted (new_heap a bs h) ((new_slice a bs ∷ rest) ++ ((b ∷ empties) ++ ss)) =
        recount (new_heap a bs h) _ _ w1
          (λ x. omega (arith, count-append x rest ss, count-append x rest ((b ∷ empties) ++ ss))) in
      let r =
        reset_from-Resets 1 (sp.block_count_ - 1) (new_slice a bs ∷ rest) (new_heap a bs h)
          ((b ∷ empties) ++ ss) w2 (omega (arith, few, several, four, ap length slots)) in
      let w3 : WellCounted r.heap ((b ∷ empties) ++ (r.slots ++ ss)) =
        recount r.heap _ _ r.counted (λ x.
          omega (arith, count-append x r.slots ((b ∷ empties) ++ ss), count-append x r.slots ss)) in
      assembled r (destroy_slots-Frees (b ∷ empties) r.heap (r.slots ++ ss) w3) several few
        (to_raw_buffer-clone_spanned_mem sp h bs few sum held).1 inside

first_and_rest :
    (ts : List MemSlice) → length ts ≡ 4 → (b : MemSlice) × (rest : List MemSlice) × (ts ≡ b ∷ rest)
first_and_rest [] four = absurd (omega (arith, four))
first_and_rest (b ∷ rest) four = (b, rest, refl)

-- A span that holds bytes and is not one block has two blocks at least.
two_blocks :
    (sp : Span) (h : Heap) (bs : List Cell)
    → Holds h (blocks sp) bs
    → 0 < length bs
    → (sp.block_count_ == 1) ≡ false
    → 2 ≤ sp.block_count_
two_blocks sp h bs held filled several = elim (Bool-cases (sp.block_count_ == 0)) [
  | inl unused ↦
      let none_used : sp.block_count_ ≡ 0 = (==_iff _ _).0 unused in
      let nothing : 0 ≡ length bs = rw none_used at (Holds-total h (blocks sp) bs held) in
      absurd (omega (arith, filled, nothing))
  | inr used ↦ ground arith
]

-- Of a span of fewer than four blocks that holds at least the bytes of all values, Layer<n> gives a
-- pointer to the bytes of the n-th value, whether they are in one block, or in several, which are
-- copied into a new buffer. The reference counts are the numbers of slices, of the span and of all
-- others, after it when they are before.
pub layer-Gives :
    (n : ℕ) (sizes : List ℕ) (a : ℕ) (sp : Span) (h : Heap) (bs : List Cell) (ss : List MemSlice)
    → IsSpan sp
    → sp.block_count_ < 4
    → Holds h (blocks sp) bs
    → full_size sizes ≤ length bs
    → 0 < nth_size n sizes
    → h a ≡ none
    → WellCounted h (sp.buffer_ ++ ss)
    → Gives
        (layer n sizes a sp h)
        (nth_size n sizes)
        (take (nth_size n sizes) (drop (prefix_size n sizes) bs))
        ss
layer-Gives n sizes a sp h bs ss is few held room some_bytes fresh w =
    elim (layer-IsPlaced n sizes a sp h bs held room some_bytes) [
      | pointed p does value ↦ record {
        pointer = p;
        span = sp;
        heap = h;
        result = does;
        value = value;
        counted = w;
      }
      | copied several before after front whole before_held low high does ↦
          let inside : prefix_size n sizes + nth_size n sizes ≤ length bs =
            omega (arith, room, nth_size_bounded n sizes) in
          let (b, rest, slots) = first_and_rest sp.buffer_ is.four in
          let g =
            copied_lem (prefix_size n sizes) (nth_size n sizes) a sp h bs ss b rest slots
              (two_blocks sp h bs held (omega (arith, inside, some_bytes)) several) few is.four
              is.sum held fresh w inside in
          record {
            pointer = g.pointer;
            span = g.span;
            heap = g.heap;
            result = does ∙ g.result;
            value = g.value;
            counted = g.counted;
          }
    ]
