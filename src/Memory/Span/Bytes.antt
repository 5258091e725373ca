-- ===== src/Memory/Span/Bytes.antt =====
-- mem_slice_span.cpp: the bytes of a span, as ToRawBuffer and CloneSpannedMem give them.
use turnserver_v.Base.{
  ℕ, suc, ◌+◌, ◌≤◌, ◌<◌, ◌≡◌, refl, sym, subst, ap, ◌∙◌, List, [], ◌∷◌, ◌++◌, append-nil,
  append_assoc, none, some, leb, ◌==◌, take, drop, length, length-append, length-take, length-drop,
  length-replicate, take-append, Bool-cases, Ensures, Ensures-bind, inl, inr, leb→le, le→leb,
  lt→ltb, ==_iff, arith,
}
use turnserver_v.Wire.Packer.{Cell, create, poke, peek}
use turnserver_v.Memory.Slice.{Heap, MemSlice, get_used_size}
use turnserver_v.Memory.Taken.{slice_bytes}
use turnserver_v.Memory.Span.{
  Span, blocks, insert_blocks, to_raw_buffer, copy_blocks, clone_spanned_mem,
}
use turnserver_v.Memory.Span.Blocks.{total}

-- The bytes of the slices on the heap, in a row.
pub data Holds (h : Heap) : List MemSlice → List Cell → Type 0 where
  no_block : Holds h [] []
  block :
      (s : MemSlice) (ss : List MemSlice) (d bs : List Cell)
      → slice_bytes s h ≡ some d
      → Holds h ss bs
      → Holds h (s ∷ ss) (d ++ bs)

peek-Ensures : (m : List Cell) (at n : ℕ) → Ensures (λ d. length d ≡ n) (peek m at n)
unfolding peek
peek-Ensures m at n = elim (Bool-cases (leb (at + n) (length m))) [
  | inl inside ↦
      rw inside (omega (arith, leb→le _ _ inside, length-take n (drop at m), length-drop at m))
  | inr outside ↦ rw outside tt
]

pub slice_length :
    (s : MemSlice) (h : Heap) (d : List Cell)
    → slice_bytes s h ≡ some d
    → length d ≡ get_used_size s
unfolding slice_bytes
slice_length s h d e = subst (Ensures (λ d. length d ≡ get_used_size s)) e (
    Ensures-bind (λ (d : List Cell). length d ≡ get_used_size s) s.buffer _
      (λ a.
        Ensures-bind (λ (d : List Cell). length d ≡ get_used_size s) (h a) _
          (λ m. peek-Ensures m.bytes s.begin_offset (get_used_size s))))

pub empty_of_length : (bs : List Cell) → length bs ≡ 0 → bs ≡ []
empty_of_length [] h = refl
empty_of_length (b ∷ bs) h = absurd (omega (arith, h))

pub drop_past :
    (front room : List Cell) (n : ℕ) → drop (length front + n) (front ++ room) ≡ drop n room
drop_past [] room n = let same : 0 + n ≡ n = omega arith in ap (λ k. drop k room) same
drop_past (x ∷ front) room n =
    let same : suc (length front) + n ≡ suc (length front + n) = omega arith in
    ap (λ k. drop k (x ∷ (front ++ room))) same ∙ drop_past front room n

pub Holds-total :
    (h : Heap) (ss : List MemSlice) (bs : List Cell) → Holds h ss bs → total ss ≡ length bs
Holds-total h ss bs no_block = refl
Holds-total h ss bs (block s rest d more e k) =
    omega (arith, slice_length s h d e, Holds-total h rest more k, length-append d more)

insert_blocks-Holds :
    (h : Heap) (buffer : List Cell) (ss : List MemSlice) (bs : List Cell)
    → Holds h ss bs
    → insert_blocks buffer ss h ≡ some (buffer ++ bs)
unfolding insert_blocks
insert_blocks-Holds h buffer ss bs no_block = rw append-nil refl
insert_blocks-Holds h buffer ss bs (block s rest d more e k) =
    rw (e, insert_blocks-Holds h (buffer ++ d) rest more k, append_assoc) refl

-- A store of `d` behind `front`.
poke_front :
    (front d room : List Cell)
    → length d ≤ length room
    → poke (front ++ room) (length front) d ≡ some ((front ++ d) ++ drop (length d) room)
unfolding poke
poke_front front d room fits =
    rw
      (
        le→leb (length front + length d) (length (front ++ room))
            (omega (arith, fits, length-append front room)),
        take-append (length front) front room refl,
        behind,
        append_assoc,
      )
      refl
  where
    behind : drop (length front + length d) (front ++ room) ≡ drop (length d) room
    behind = drop_past front room (length d)

copy_blocks-Holds :
    (h : Heap) (front room : List Cell) (ss : List MemSlice) (bs : List Cell)
    → Holds h ss bs
    → length room ≡ length bs
    → copy_blocks (length front) (front ++ room) ss h ≡ some (front ++ bs)
unfolding copy_blocks
copy_blocks-Holds h front room ss bs no_block q =
    ap (λ r. some (front ++ r)) (empty_of_length room q)
copy_blocks-Holds h front room ss bs (block s rest d more e k) q =
    rw (e, poke_front front d room (omega (arith, q, length-append d more)))
      (ap (λ n. copy_blocks n ((front ++ d) ++ drop (length d) room) rest h) reached
        ∙ copy_blocks-Holds h (front ++ d) (drop (length d) room) rest more k left
        ∙ ap (λ t. some t) (append_assoc front d more))
  where
    reached : length front + get_used_size s ≡ length (front ++ d)
    reached = omega (arith, slice_length s h d e, length-append front d)

    left : length (drop (length d) room) ≡ length more
    left = omega (arith, q, length-append d more, length-drop (length d) room)

-- Of a span of less than four blocks whose size is that of its blocks, ToRawBuffer and
-- CloneSpannedMem give the same bytes: those of the blocks, in order.
pub to_raw_buffer-clone_spanned_mem :
    (sp : Span) (h : Heap) (bs : List Cell)
    → sp.block_count_ < 4
    → sp.size_ ≡ total (blocks sp)
    → Holds h (blocks sp) bs
    → (to_raw_buffer sp h ≡ some bs) × (clone_spanned_mem sp h ≡ some bs)
unfolding to_raw_buffer clone_spanned_mem
to_raw_buffer-clone_spanned_mem sp h bs few sum k = (
  rw (lt→ltb sp.block_count_ 4 few) (elim (Bool-cases (leb sp.block_count_ 0)) [
    | inl unused ↦
        rw unused (ap (λ t. some t) (sym (empty_of_length bs (none_in (leb→le _ _ unused)))))
    | inr in_use ↦ elim (Bool-cases (sp.size_ == 0)) [
      | inl empty ↦
          rw (in_use, empty)
            (ap (λ t. some t)
              (sym (empty_of_length bs (omega (arith, counted, (==_iff _ _).0 empty)))))
      | inr filled ↦ rw (in_use, filled) (insert_blocks-Holds h [] (blocks sp) bs k)
    ]
  ]),
  rw (lt→ltb sp.block_count_ 4 few) (
      copy_blocks-Holds h [] (create sp.size_) (blocks sp) bs k
        (unfold create in length-replicate sp.size_ nothing ∙ counted)),
)
  where
    counted : sp.size_ ≡ length bs
    counted = sum ∙ Holds-total h (blocks sp) bs k

    nothing : Cell
    nothing = none

    none_in : sp.block_count_ ≤ 0 → length bs ≡ 0
    none_in z =
        let no_count : sp.block_count_ ≡ 0 = omega (arith, z) in
        sym (Holds-total h (blocks sp) bs k) ∙ ap (λ n. total (take n sp.buffer_)) no_count
