-- ===== src/Memory/Slice/Counts.antt =====
-- mem_slice.h: the reference counts are the numbers of slices, so that a slice's buffer is never freed
-- under it, and is freed with its last slice.
use turnserver_v.Base.{
  ℕ, ◌+◌, ◌-◌, ◌≤◌, ◌≡◌, refl, sym, ap, ◌∙◌, List, [], ◌∷◌, Option, none, some, leb, ◌==◌, ==_iff,
  if◌then◌else◌, Bool-cases, Option-cases, inl, inr, arith, leb→le, leb→gt, length,
}
use turnserver_v.Memory.Slice.{
  MemBuf, Heap, set, add_ref, release, MemSlice, add_ref_if, release_if, capacity_if, initialize,
  copy, destroy, assign,
}

-- The slices that point to the address.
abbrev pub points : ℕ → Option ℕ → ℕ
points x none = 0
points x (some a) = if x == a then 1 else 0

abbrev pub count : ℕ → List MemSlice → ℕ
count x [] = 0
count x (s ∷ ss) = points x s.buffer + count x ss

abbrev pub refs : Option MemBuf → ℕ
refs none = 0
refs (some m) = m.ref_cnt

-- At every address the reference count is the number of the slices that point there.
pub record WellCounted (h : Heap) (ss : List MemSlice) : Type 0 where
  pub counted : (x : ℕ) → refs (h x) ≡ count x ss

abbrev IsLive : Option ℕ → Heap → Type 0
IsLive none h = Unit
IsLive (some a) h = (m : MemBuf) × (h a ≡ some m)

-- The heap after a change of one count.
record Counted (h : Heap) (o : Option Heap) (more less : Option ℕ) : Type 0 where
  heap : Heap
  result : o ≡ some heap
  changed : (x : ℕ) → refs (heap x) + points x less ≡ refs (h x) + points x more

set-more :
    (a : ℕ) (h : Heap) (m : Option MemBuf) (x : ℕ)
    → refs m ≡ refs (h a) + 1
    → refs (set a m h x) + 0 ≡ refs (h x) + points x (some a)
set-more a h m x e = elim (Bool-cases (x == a)) [
  | inl same ↦ rw same (omega (arith, e, ap (λ y. refs (h y)) ((==_iff x a).0 same)))
  | inr other ↦ rw other
]

set-less :
    (a : ℕ) (h : Heap) (m : Option MemBuf) (x : ℕ)
    → refs m + 1 ≡ refs (h a)
    → refs (set a m h x) + points x (some a) ≡ refs (h x) + 0
set-less a h m x e = elim (Bool-cases (x == a)) [
  | inl same ↦ rw same (omega (arith, e, ap (λ y. refs (h y)) ((==_iff x a).0 same)))
  | inr other ↦ rw other
]

add_ref_if-Counted : (b : Option ℕ) (h : Heap) → IsLive b h → Counted h (add_ref_if b h) b none
unfolding add_ref add_ref_if
add_ref_if-Counted none h l = record { heap = h; result = refl; changed = λ x. refl }
add_ref_if-Counted (some a) h (m, e) = record {
  heap = set a (some (record m { ref_cnt = m.ref_cnt + 1 })) h;
  result = rw e;
  changed = λ x.
      set-more a h (some (record m { ref_cnt = m.ref_cnt + 1 })) x (sym (ap (λ o. refs o + 1) e));
}

release_if-Counted :
    (b : Option ℕ) (h : Heap)
    → ((x : ℕ) → points x b ≤ refs (h x))
    → Counted h (release_if b h) none b
unfolding release release_if
release_if-Counted none h enough = record { heap = h; result = refl; changed = λ x. refl }
release_if-Counted (some a) h enough = elim (Option-cases (h a)) [
  | inl e ↦ absurd (omega (arith, ap refs e, enough a, self))
  | inr (m, e) ↦ record {
    heap = set a (left m) h;
    result = rw e;
    changed = λ x. set-less a h (left m) x (left-refs m e ∙ sym (ap refs e));
  }
]
  where
    self : points a (some a) ≡ 1
    self = rw ((==_iff a a).1 refl)

    left : MemBuf → Option MemBuf
    left m = if leb m.ref_cnt 1 then none else some (record m { ref_cnt = m.ref_cnt - 1 })

    left-refs : (m : MemBuf) → h a ≡ some m → refs (left m) + 1 ≡ m.ref_cnt
    left-refs m e = elim (Bool-cases (leb m.ref_cnt 1)) [
      | inl last ↦ rw last (omega (arith, ap refs e, enough a, self, leb→le _ _ last))
      | inr more ↦ rw more (omega (arith, leb→gt _ _ more))
    ]

live : (b : Option ℕ) (h : Heap) → ((x : ℕ) → points x b ≤ refs (h x)) → IsLive b h
live none h enough = tt
live (some a) h enough = elim (Option-cases (h a)) [
  | inl e ↦ absurd (omega (arith, ap refs e, enough a, self))
  | inr found ↦ found
]
  where
    self : points a (some a) ≡ 1
    self = rw ((==_iff a a).1 refl)

capacity_if-live : (b : Option ℕ) (h : Heap) → IsLive b h → (n : ℕ) × (capacity_if b h ≡ some n)
capacity_if-live none h l = (0, refl)
capacity_if-live (some a) h (m, e) = (length m.bytes, rw e)

-- A live buffer stays live under AddRef.
still_live :
    (b : Option ℕ) (h h' : Heap)
    → ((x : ℕ) → refs (h' x) + 0 ≡ refs (h x) + points x b)
    → IsLive b h'
still_live b h h' changed = live b h' (λ x. omega (arith, changed x))

initialize_lem :
    (b : Option ℕ) (h : Heap)
    → IsLive b h
    → (s : MemSlice) × (h' : Heap) × (initialize b h ≡ some (s, h'))
      × (s.buffer ≡ b)
      × ((x : ℕ) → refs (h' x) + 0 ≡ refs (h x) + points x b)
unfolding initialize
initialize_lem b h l =
    let d = add_ref_if-Counted b h l in
    let (n, measured) = capacity_if-live b d.heap (still_live b h d.heap d.changed) in
    (
      record { buffer = b; begin_offset = 0; end_offset = n },
      d.heap,
      rw (d.result, measured),
      refl,
      d.changed,
    )

-- Where the counts are the numbers of the slices, a slice can be copied, and with the copy the
-- counts are the numbers of the slices again.
copy-WellCounted :
    (s : MemSlice) (h : Heap) (ss : List MemSlice)
    → WellCounted h (s ∷ ss)
    → (t : MemSlice) × (h' : Heap) × (copy s h ≡ some (t, h')) × WellCounted h' (t ∷ s ∷ ss)
unfolding copy
copy-WellCounted s h ss w =
    let (t, h', ran, same, changed) =
      initialize_lem s.buffer h (live s.buffer h (λ x. omega (arith, w.counted x))) in
    (
      record t { begin_offset = s.begin_offset; end_offset = s.end_offset },
      h',
      rw ran,
      record { counted = λ x. omega (arith, changed x, w.counted x, ap (points x) same) },
    )

-- Where the counts are the numbers of the slices, a slice can be destroyed, and the counts are then
-- the numbers of the slices that are left.
pub destroy-WellCounted :
    (s : MemSlice) (h : Heap) (ss : List MemSlice)
    → WellCounted h (s ∷ ss)
    → (h' : Heap) × (destroy s h ≡ some h') × WellCounted h' ss
unfolding destroy
destroy-WellCounted s h ss w =
    let d = release_if-Counted s.buffer h (λ x. omega (arith, w.counted x)) in
    (d.heap, d.result, record { counted = λ x. omega (arith, d.changed x, w.counted x) })

-- Where the counts are the numbers of the slices, a slice can be assigned to another, also one of
-- the same buffer, and the counts are then the numbers of the slices.
pub assign-WellCounted :
    (s rhs : MemSlice) (h : Heap) (ss : List MemSlice)
    → WellCounted h (s ∷ rhs ∷ ss)
    → (s' : MemSlice) × (h' : Heap) × (assign s rhs h ≡ some (s', h'))
      × WellCounted h' (s' ∷ rhs ∷ ss)
unfolding assign
assign-WellCounted s rhs h ss w =
    let d = release_if-Counted s.buffer h (λ x. omega (arith, w.counted x)) in
    let e =
      add_ref_if-Counted rhs.buffer d.heap
        (live rhs.buffer d.heap (λ x. omega (arith, d.changed x, w.counted x))) in
    (
      rhs,
      e.heap,
      rw (d.result, e.result),
      record { counted = λ x. omega (arith, e.changed x, d.changed x, w.counted x) },
    )
