-- ===== src/Memory/Proxy/Layers.antt =====
-- turnserver/memory/mem_proxy.h: the bytes that BorrowedMemProxy::Layer points to.
use turnserver_v.Base.{
  Option-cases, append-nil, ==_iff, take_nil, sub_take, drop-drop, ℕ, zero, suc, ◌+◌, ◌-◌, ◌≤◌, ◌<◌,
  ◌≡◌, refl, sym, ap, ◌∙◌, List, [], ◌∷◌, ◌++◌, Option, some, ◌>>=◌, leb, ltb, ◌==◌, length, take,
  drop, Bool-cases, false, inl, inr, length-append, length-drop, take-append_le, drop-append_le,
  length-take, le→leb, leb→le, true, arith,
}
use turnserver_v.Wire.Packer.{Cell, peek}
use turnserver_v.Memory.Slice.{Heap, MemSlice}
use turnserver_v.Memory.Taken.{slice_bytes}
use turnserver_v.Memory.Span.{Span, blocks, slot}
use turnserver_v.Memory.Span.Bytes.{Holds, slice_length, empty_of_length, Holds-total, drop_past}
use turnserver_v.Memory.Proxy.{
  full_size, prefix_size, nth_size, Pointer, Found, find_layer, pointer_in, first_layer, end_layer,
  layer,
}

-- The values lie one behind the other, the last at the end.
prefix_size_step :
    (n : ℕ) (sizes : List ℕ) → prefix_size (suc n) sizes ≡ prefix_size n sizes + nth_size n sizes
unfolding prefix_size full_size nth_size
prefix_size_step n [] = rw (take_nil n) refl
prefix_size_step zero (size ∷ sizes) = omega arith
prefix_size_step (suc n) (size ∷ sizes) = omega (arith, prefix_size_step n sizes)

prefix_size_bounded : (n : ℕ) (sizes : List ℕ) → prefix_size n sizes ≤ full_size sizes
unfolding prefix_size full_size
prefix_size_bounded zero sizes = omega arith
prefix_size_bounded (suc n) [] = omega arith
prefix_size_bounded (suc n) (size ∷ sizes) = omega (arith, prefix_size_bounded n sizes)

pub nth_size_bounded :
    (n : ℕ) (sizes : List ℕ) → prefix_size n sizes + nth_size n sizes ≤ full_size sizes
nth_size_bounded n sizes =
    omega (arith, prefix_size_step n sizes, prefix_size_bounded (suc n) sizes)

-- What the loop finds in slices that hold `bs`, for a value of `size` bytes behind `skip` others: a
-- block with the value's bytes, or a block that ends at the first of them or inside of the value.
data IsFound (h : Heap) (ss : List MemSlice) (bs : List Cell) (skip size : ℕ) : Found → Type 0 where
  in_block :
      (s : MemSlice) (k : ℕ) (d : List Cell)
      → slice_bytes s h ≡ some d
      → k + size ≤ length d
      → take size (drop k d) ≡ take size (drop skip bs)
      → IsFound h ss bs skip size (Found.within s k)
  cut :
      (before after : List MemSlice) (front : List Cell)
      → before ++ after ≡ ss
      → Holds h before front
      → skip ≤ length front
      → length front < skip + size
      → IsFound h ss bs skip size Found.split

later :
    (h : Heap) (s : MemSlice) (ss : List MemSlice) (d bs : List Cell) (skip size : ℕ) (f : Found)
    → slice_bytes s h ≡ some d
    → length d < skip
    → IsFound h ss bs (skip - length d) size f
    → IsFound h (s ∷ ss) (d ++ bs) skip size f
later h s ss d bs skip size _ e far (in_block t k b held inside same) = in_block t k b held inside (
    same
    ∙ ap (λ l. take size l)
        (sym (drop_past d bs (skip - length d)) ∙ ap (λ n. drop n (d ++ bs)) (omega (arith, far))))
later h s ss d bs skip size _ e far (cut before after front whole held low high) =
    cut (s ∷ before) after (d ++ front) (ap (λ l. s ∷ l) whole)
      (Holds.block s before d front e held) (omega (arith, low, length-append d front))
      (omega (arith, far, high, length-append d front))

find_layer-IsFound :
    (h : Heap) (ss : List MemSlice) (bs : List Cell) (skip size : ℕ)
    → Holds h ss bs
    → 0 < size
    → skip + size ≤ length bs
    → IsFound h ss bs skip size (find_layer skip size ss)
unfolding find_layer
find_layer-IsFound h _ _ skip size Holds.no_block some_bytes room =
    absurd (omega (arith, some_bytes, room))
find_layer-IsFound h _ _ skip size (Holds.block s ss d bs e held) some_bytes room =
    let none_more : List Cell = [] in
    rw (sym (slice_length s h d e)) (elim (Bool-cases (ltb (length d) skip)) [
      | inl far ↦ rw far (
          later h s ss d bs skip size _ e (ground arith) (
            find_layer-IsFound h ss bs (skip - length d) size held some_bytes
              (ground (arith, length-append d bs))))
      | inr near ↦ elim (Bool-cases (ltb (length d) (skip + size))) [
        | inl short ↦
            rw (near, short)
              (cut (s ∷ []) ss (d ++ []) refl (Holds.block s [] d [] e Holds.no_block)
                (ground (arith, length-append d none_more))
                (ground (arith, length-append d none_more)))
        | inr enough ↦
            rw (near, enough)
              (in_block s skip d e (ground arith) (
                sym (
                  ap (λ l. take size l) (drop-append_le skip d bs (ground arith))
                  ∙ take-append_le size (drop skip d) bs (ground (arith, length-drop skip d)))))
      ]
    ])

-- The bytes of a value at a pointer.
unfoldable pub read : Pointer → ℕ → Heap → Option (List Cell)
unfolding peek
read p size h = do m ← h p.0; peek m.bytes p.1 size

-- The bytes of a slice from `k` on, by way of a pointer.
peek_within :
    (m d : List Cell) (at n k size : ℕ)
    → peek m at n ≡ some d
    → k + size ≤ length d
    → peek m (at + k) size ≡ some (take size (drop k d))
unfolding peek
peek_within m d at n k size e inside = elim (Bool-cases (leb (at + n) (length m))) [
  | inr outside ↦ absurd (ground arith)
  | inl held ↦
      let same : some (take n (drop at m)) ≡ some d = rw held at e in
      let is : take n (drop at m) ≡ d = cc in
      let fits : k + size ≤ n = omega (
        arith,
        ap length is,
        leb→le _ _ held,
        length-take n (drop at m),
        length-drop at m,
        inside,
      ) in
      let room : leb (at + k + size) (length m) ≡ true =
        le→leb _ _ (omega (arith, leb→le _ _ held, fits)) in
      rw room (
        ap (λ t. some t)
          (ap (λ l. take size l) (sym (drop-drop at k m))
            ∙ sym (sub_take k size n (drop at m) fits)
            ∙ ap (λ l. take size (drop k l)) is))
]

-- What Layer<n> does with a span that holds `bs`.
pub data IsPlaced (n : ℕ) (sizes : List ℕ) (a : ℕ) (sp : Span) (h : Heap) (bs : List Cell)
    : Type 0 where
  pointed :
      (p : Pointer)
      → layer n sizes a sp h ≡ some (some p, sp, h)
      → read p (nth_size n sizes) h ≡ some (take (nth_size n sizes) (drop (prefix_size n sizes) bs))
      → IsPlaced n sizes a sp h bs
  copied :
      (sp.block_count_ == 1) ≡ false
      → (before after : List MemSlice) (front : List Cell) → before ++ after ≡ blocks sp
      → Holds h before front
      → prefix_size n sizes ≤ length front
      → length front < prefix_size n sizes + nth_size n sizes
      → layer n sizes a sp h ≡ end_layer (prefix_size n sizes) a Found.split sp h
      → IsPlaced n sizes a sp h bs

-- A slice that holds bytes has a buffer, where a pointer finds them.
pointer_in_lem :
    (s : MemSlice) (h : Heap) (d : List Cell) (k size : ℕ)
    → slice_bytes s h ≡ some d
    → k + size ≤ length d
    → (p : Pointer) × (pointer_in s k ≡ some p) × (read p size h ≡ some (take size (drop k d)))
unfolding slice_bytes read pointer_in
pointer_in_lem s h d k size e inside = elim (Option-cases s.buffer) [
  | inl unset ↦ absurd (ground arith)
  | inr (b, buffer) ↦ elim (Option-cases (h b)) [
    | inl gone ↦ absurd (ground arith)
    | inr (m, live) ↦
        let held : peek m.bytes s.begin_offset (s.end_offset - s.begin_offset) ≡ some d =
          rw (buffer, live) at e in
        (
          (b, s.begin_offset + k),
          rw buffer refl,
          rw live (
              peek_within m.bytes d s.begin_offset (s.end_offset - s.begin_offset) k size held
                inside),
        )
  ]
]

end_layer-IsFound :
    (n : ℕ) (sizes : List ℕ) (a : ℕ) (sp : Span) (h : Heap) (bs : List Cell) (f : Found)
    → (sp.block_count_ == 1) ≡ false
    → layer n sizes a sp h ≡ end_layer (prefix_size n sizes) a f sp h
    → IsFound h (blocks sp) bs (prefix_size n sizes) (nth_size n sizes) f
    → IsPlaced n sizes a sp h bs
unfolding end_layer
end_layer-IsFound n sizes a sp h bs _ several does (in_block s k d e inside same) =
    let (p, there, bytes) = pointer_in_lem s h d k (nth_size n sizes) e inside in
    pointed p (does ∙ rw there refl) (bytes ∙ ap (λ l. some l) same)
end_layer-IsFound n sizes a sp h bs _ several does (cut before after front whole held low high) =
    copied several before after front whole held low high does

one_block :
    (s : MemSlice) (h : Heap) (bs : List Cell) → Holds h (s ∷ []) bs → slice_bytes s h ≡ some bs
one_block s h _ (Holds.block t ss d more e held) =
    let nothing : more ≡ [] = empty_of_length more (sym (Holds-total h [] more held)) in
    rw nothing (rw append-nil e)

layer_of_one :
    (n : ℕ) (sizes : List ℕ) (a : ℕ) (sp : Span) (h : Heap) (bs : List Cell) (ss : List MemSlice)
    → sp.block_count_ ≡ 1
    → sp.buffer_ ≡ ss
    → Holds h (take 1 ss) bs
    → 0 < nth_size n sizes
    → prefix_size n sizes + nth_size n sizes ≤ length bs
    → IsPlaced n sizes a sp h bs
unfolding layer first_layer slot
layer_of_one n sizes a sp h bs [] one buffer held some_bytes room =
    absurd (omega (arith, Holds-total h [] bs held))
layer_of_one n sizes a sp h bs (s ∷ ss) one buffer held some_bytes room =
    let (p, there, bytes) =
      pointer_in_lem s h bs (prefix_size n sizes) (nth_size n sizes) (one_block s h bs held) room in
    pointed p (rw (one, buffer, there) refl) bytes

-- Of a span that holds at least the bytes of all values, Layer<n> never is the null pointer: it is a
-- pointer to the bytes of the n-th value, and the span stays; or it copies the span into one block, as
-- no more than when a block of several ends at the first byte of the value or inside of it.
pub layer-IsPlaced :
    (n : ℕ) (sizes : List ℕ) (a : ℕ) (sp : Span) (h : Heap) (bs : List Cell)
    → Holds h (blocks sp) bs
    → full_size sizes ≤ length bs
    → 0 < nth_size n sizes
    → IsPlaced n sizes a sp h bs
layer-IsPlaced n sizes a sp h bs held room some_bytes =
    let inside : prefix_size n sizes + nth_size n sizes ≤ length bs =
      omega (arith, room, nth_size_bounded n sizes) in
    elim (Bool-cases (sp.block_count_ == 1)) [
      | inl single ↦
          let one : sp.block_count_ ≡ 1 = (==_iff _ _).0 single in
          layer_of_one n sizes a sp h bs sp.buffer_ one refl (rw one at held) some_bytes inside
      | inr several ↦
          end_layer-IsFound n sizes a sp h bs
            (find_layer (prefix_size n sizes) (nth_size n sizes) (blocks sp)) several
            (unfold layer in rw several refl)
            (find_layer-IsFound h (blocks sp) bs (prefix_size n sizes) (nth_size n sizes) held
              some_bytes inside)
    ]
