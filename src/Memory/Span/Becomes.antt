-- ===== src/Memory/Span/Becomes.antt =====
-- mem_slice_span.cpp: each operation of a span does not fail, and keeps the reference counts the
-- numbers of the slices.
use turnserver_v.Base.{
  Bool, true, false, ℕ, ◌+◌, ◌-◌, ◌≤◌, ◌<◌, ◌≡◌, refl, ap, ◌∙◌, List, ◌∷◌, ◌++◌, Option, some, ◌==◌,
  if◌then◌else◌, Bool-cases, inl, inr, leb, le→leb, leb→gt, length, take, drop, take-append-drop,
  length-take, arith,
}
use turnserver_v.Wire.Packer.{u32}
use turnserver_v.Memory.Slice.{Heap, MemSlice, assign_move, get_used_size}
use turnserver_v.Memory.Slice.Counts.{WellCounted, count}
use turnserver_v.Memory.Span.{Span, empty_span, max_blocks, blocks, set_slot, push_back, reset}
use turnserver_v.Memory.Span.Copies.{swap_each, copy_span, assign_span, assign_move_span}
use turnserver_v.Memory.Span.Loops.{
  assign_each-WellCounted, swap_each_counts, reset_blocks-WellCounted, store-Stored,
}
use turnserver_v.Memory.Span.Counted.{
  count-append, recount, destroy-Frees, reset_from-Resets, length-set_slot,
}

pub record IsFour (sp : Span) : Type 0 where
  pub four : length sp.buffer_ ≡ 4
  pub used : sp.block_count_ ≤ 4

-- One of the two spans changes into one that the counts fit to.
pub record Becomes (o : Option (Span × Heap)) (ss : List MemSlice) : Type 0 where
  pub span : Span
  pub heap : Heap
  pub result : o ≡ some (span, heap)
  pub four : IsFour span
  pub counted : WellCounted heap (span.buffer_ ++ ss)

pub reset-Becomes :
    (b : MemSlice) (sp : Span) (h : Heap) (ss : List MemSlice)
    → IsFour sp
    → WellCounted h (b ∷ (sp.buffer_ ++ ss))
    → Becomes (reset b sp h) ss
unfolding reset assign_move
reset-Becomes b sp h ss f w =
    let (ts, g, emptied, w1, size) =
      reset_blocks-WellCounted sp.block_count_ sp.buffer_ (b ∷ ss) h
        (recount h _ _ w
          (λ x. omega (arith, count-append x sp.buffer_ ss, count-append x sp.buffer_ (b ∷ ss))))
        (omega (arith, f.four, f.used)) in
    let one =
      store-Stored 0 b ts g ss
        (recount g _ _ w1 (λ x. omega (arith, count-append x ts ss, count-append x ts (b ∷ ss))))
        (omega (arith, size, f.four)) in
    record {
      span = record {
        size_ = get_used_size b;
        block_count_ = if get_used_size b == 0 then 0 else 1;
        buffer_ = set_slot 0 b ts;
      };
      heap = one.heap;
      result = rw (emptied, one.at, one.result) refl;
      four = record {
        four = length-set_slot 0 b ts ∙ size ∙ f.four;
        used = elim (Bool-cases (get_used_size b == 0)) [
          | inl e ↦ rw e (omega arith)
          | inr ne ↦ rw ne (omega arith)
        ];
      };
      counted = one.counted;
    }

count_split :
    (n x : ℕ) (ts ss : List MemSlice)
    → count x (take n ts ++ (drop n ts ++ ss)) ≡ count x ts + count x ss
count_split n x ts ss = omega (
  arith,
  count-append x (take n ts) (drop n ts ++ ss),
  count-append x (drop n ts) ss,
  count-append x (take n ts) (drop n ts),
  ap (count x) (take-append-drop n ts),
)

pub assign_span-Becomes :
    (sp a : Span) (h : Heap) (ss : List MemSlice)
    → IsFour sp
    → IsFour a
    → WellCounted h (sp.buffer_ ++ (a.buffer_ ++ ss))
    → Becomes (assign_span sp a h) (a.buffer_ ++ ss)
unfolding assign_span
assign_span-Becomes sp a h ss f k w =
    let n = a.block_count_ in
    let more : List MemSlice = drop n a.buffer_ ++ ss in
    let (ds, g, copies, w1, size) =
      assign_each-WellCounted sp.buffer_ (blocks a) more h
        (recount h _ _ w (λ x. omega (
          arith,
          count-append x sp.buffer_ (a.buffer_ ++ ss),
          count-append x sp.buffer_ (blocks a ++ more),
          count-append x a.buffer_ ss,
          count_split n x a.buffer_ ss,
        )))
        (omega (arith, length-take n a.buffer_, k.used, f.four)) in
    let r =
      reset_from-Resets n (sp.block_count_ - n) ds g (blocks a ++ more) w1
        (omega (arith, size, f.four, f.used, k.used)) in
    record {
      span = record a { buffer_ = r.slots };
      heap = r.heap;
      result = rw (le→leb _ _ k.used, copies, r.result) refl;
      four = record { four = r.size ∙ size ∙ f.four; used = k.used };
      counted = recount r.heap _ _ r.counted (λ x. omega (
        arith,
        count-append x r.slots (a.buffer_ ++ ss),
        count-append x r.slots (blocks a ++ more),
        count-append x a.buffer_ ss,
        count_split n x a.buffer_ ss,
      ));
    }

pub copy_span-Becomes :
    (a : Span) (h : Heap) (ss : List MemSlice)
    → IsFour a
    → WellCounted h (a.buffer_ ++ ss)
    → Becomes (copy_span a h) (a.buffer_ ++ ss)
unfolding copy_span empty_span
copy_span-Becomes a h ss k w =
    let n = a.block_count_ in
    let more : List MemSlice = drop n a.buffer_ ++ ss in
    let (ds, g, copies, w1, size) =
      assign_each-WellCounted empty_span.buffer_ (blocks a) more h
        (recount h _ _ w
          (λ x. omega (arith, count-append x a.buffer_ ss, count_split n x a.buffer_ ss)))
        (omega (arith, length-take n a.buffer_, k.used)) in
    record {
      span = record a { buffer_ = ds };
      heap = g;
      result = rw copies refl;
      four = record { four = size; used = k.used };
      counted = recount g _ _ w1 (λ x. omega (
        arith,
        count-append x ds (a.buffer_ ++ ss),
        count-append x ds (blocks a ++ more),
        count-append x a.buffer_ ss,
        count_split n x a.buffer_ ss,
      ));
    }

pub push_back_lem :
    (b : MemSlice) (sp : Span) (h : Heap) (ss : List MemSlice)
    → IsFour sp
    → WellCounted h (b ∷ (sp.buffer_ ++ ss))
    → (ok : Bool) × (sp' : Span) × (h' : Heap) × (push_back b sp h ≡ some (ok, sp', h'))
      × IsFour sp'
      × WellCounted h' (sp'.buffer_ ++ ss)
unfolding push_back assign_move
push_back_lem b sp h ss f w = elim (Bool-cases (leb max_blocks sp.block_count_)) [
  | inl full ↦
      let one = destroy-Frees b h (sp.buffer_ ++ ss) w in
      (false, sp, one.heap, rw (full, one.result) refl, f, one.counted)
  | inr room ↦
      let n = sp.block_count_ in
      let below : n < 4 = leb→gt _ _ room in
      let one = store-Stored n b sp.buffer_ h ss w (omega (arith, f.four, below)) in
      (
        true,
        record {
          size_ = u32 (sp.size_ + get_used_size b);
          block_count_ = n + 1;
          buffer_ = set_slot n b sp.buffer_;
        },
        one.heap,
        rw (room, one.at, one.result) refl,
        record { four = length-set_slot n b sp.buffer_ ∙ f.four; used = omega (arith, below) },
        one.counted,
      )
]

pub assign_move_span_lem :
    (sp a : Span) (h : Heap) (ss : List MemSlice)
    → IsFour sp
    → IsFour a
    → WellCounted h (sp.buffer_ ++ (a.buffer_ ++ ss))
    → (sp' a' : Span) × (h' : Heap) × (assign_move_span sp a h ≡ some (sp', a', h'))
      × IsFour sp'
      × IsFour a'
      × WellCounted h' (sp'.buffer_ ++ (a'.buffer_ ++ ss))
unfolding assign_move_span
assign_move_span_lem sp a h ss f k w =
    let n = a.block_count_ in
    let moved = swap_each n sp.buffer_ a.buffer_ in
    let (counts, left, right) = swap_each_counts n sp.buffer_ a.buffer_ in
    let r =
      reset_from-Resets n (sp.block_count_ - n) moved.0 h (moved.1 ++ ss)
        (recount h _ _ w (λ x. omega (
          arith,
          counts x,
          count-append x sp.buffer_ (a.buffer_ ++ ss),
          count-append x a.buffer_ ss,
          count-append x moved.0 (moved.1 ++ ss),
          count-append x moved.1 ss,
        )))
        (omega (arith, left, f.four, f.used, k.used)) in
    (
      record a { buffer_ = r.slots },
      record { size_ = 0; block_count_ = 0; buffer_ = moved.1 },
      r.heap,
      rw (le→leb _ _ k.used, r.result) refl,
      record { four = r.size ∙ left ∙ f.four; used = k.used },
      record { four = right ∙ k.four; used = omega arith },
      r.counted,
    )

pub swapped :
    (x : ℕ) (ls rs ss : List MemSlice) → count x (ls ++ (rs ++ ss)) ≡ count x (rs ++ (ls ++ ss))
swapped x ls rs ss = omega (
  arith,
  count-append x ls (rs ++ ss),
  count-append x rs ss,
  count-append x rs (ls ++ ss),
  count-append x ls ss,
)
