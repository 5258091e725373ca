-- ===== src/Examples/Spans.antt =====
-- A span of two windows on one buffer.
use turnserver_v.Base.{
  ◌++◌, Bool-cases, inl, inr, ◌>>=◌, ℕ, ◌≡◌, refl, [], ◌∷◌, map, none, some, ◌==◌, if◌then◌else◌,
  arith,
}
use turnserver_v.Wire.Packer.{peek}
use turnserver_v.Memory.Slice as Slice
use turnserver_v.Wire.Packer.{create, poke}
use turnserver_v.Memory.Span.{copy_blocks, slot, set_slot}
use turnserver_v.Memory.Slice.{
  assign_move, make, initialize, add_ref_if, add_ref, release_if, release, destroy, Heap, MemSlice,
}
use turnserver_v.Memory.Taken.{slice_bytes}
use turnserver_v.Memory.Span.{
  Span, empty_slice, blocks, adjust_begin_pointer, to_raw_buffer, clone_spanned_mem,
}
use turnserver_v.Memory.Proxy.{
  layer, full_size, nth_size, prefix_size, end_layer, find_layer, first_layer, pointer_in,
}
use turnserver_v.Memory.Span.Clones.{to_single_block}
use turnserver_v.Memory.Span.Copies.{assign_move_span, swap_each, reset_from, destroy_slots}
use turnserver_v.Memory.Span.{empty_span}
use turnserver_v.Memory.Span.Safe.{
  Store, IsStore, acts, acts-IsStore, copied, assigned, exchanged, move_assigned, pushed, cleared,
}
use turnserver_v.Memory.Slice.Counts.{WellCounted}
use turnserver_v.Memory.Proxy.Copied.{Gives, layer-Gives}
use turnserver_v.Memory.Span.Blocks.{IsSpan}
use turnserver_v.Memory.Span.Adjust.{adjust_begin_pointer-loses}
use turnserver_v.Memory.Span.Bytes.{Holds, no_block, block, to_raw_buffer-clone_spanned_mem}

-- Four bytes at the address 0, which two slices share.
abbrev heap : Heap
heap = λ a.
    if a == 0 then some (record { ref_cnt = 2; bytes = map some (1 ∷ 2 ∷ 3 ∷ 4 ∷ []) }) else none

abbrev window : ℕ → ℕ → MemSlice
window from to = record { buffer = some 0; begin_offset = from; end_offset = to }

abbrev one_block : Span
one_block = record {
  size_ = 3;
  block_count_ = 1;
  buffer_ = window 0 3 ∷ empty_slice ∷ empty_slice ∷ empty_slice ∷ [];
}

abbrev two_blocks : Span
two_blocks = record {
  size_ = 4;
  block_count_ = 2;
  buffer_ = window 0 3 ∷ window 3 4 ∷ empty_slice ∷ empty_slice ∷ [];
}

one_block-IsSpan : IsSpan one_block
one_block-IsSpan = record {
  sum = refl;
  four = refl;
  used = omega arith;
  unused = (refl, (refl, (refl, tt)));
}

adjust_begin_pointer-loses_example :
    (sp' : Span) × (adjust_begin_pointer 2
        (record {
          size_ = 4;
          block_count_ = 3;
          buffer_ = window 0 2 ∷ window 2 3 ∷ window 3 4 ∷ empty_slice ∷ [];
        })
        heap
      ≡ some (sp', heap))
    × (sp'.size_ ≡ 2)
    × (blocks sp' ≡ window 3 4 ∷ window 2 2 ∷ [])
adjust_begin_pointer-loses_example =
    adjust_begin_pointer-loses (window 0 2) (window 2 3) (window 3 4) empty_slice 4 heap
      (omega arith) refl (omega arith) (omega arith)

two_blocks-Holds : Holds heap (blocks two_blocks) (map some (1 ∷ 2 ∷ 3 ∷ 4 ∷ []))
unfolding slice_bytes peek
two_blocks-Holds =
    block (window 0 3) (window 3 4 ∷ []) (map some (1 ∷ 2 ∷ 3 ∷ [])) (map some (4 ∷ [])) refl
      (block (window 3 4) [] (map some (4 ∷ [])) [] refl no_block)

to_raw_buffer-clone_spanned_mem_example :
    (to_raw_buffer two_blocks heap ≡ some (map some (1 ∷ 2 ∷ 3 ∷ 4 ∷ [])))
    × (clone_spanned_mem two_blocks heap ≡ some (map some (1 ∷ 2 ∷ 3 ∷ 4 ∷ [])))
to_raw_buffer-clone_spanned_mem_example =
    to_raw_buffer-clone_spanned_mem two_blocks heap (map some (1 ∷ 2 ∷ 3 ∷ 4 ∷ [])) (omega arith)
      refl two_blocks-Holds

two_blocks-IsSpan : IsSpan two_blocks
two_blocks-IsSpan = record {
  sum = refl;
  four = refl;
  used = omega arith;
  unused = (refl, (refl, tt));
}

two_blocks-WellCounted : WellCounted heap (two_blocks.buffer_ ++ [])
two_blocks-WellCounted = record {
  counted = λ x. elim (Bool-cases (x == 0)) [ inl e ↦ rw e refl | inr e ↦ rw e refl ];
}

-- Three values, of two bytes, one and one: the third begins where the first block ends, and the blocks
-- are copied to the address 9.
layer-Gives_example : Gives (layer 2 (2 ∷ 1 ∷ 1 ∷ []) 9 two_blocks heap) 1 (map some (4 ∷ [])) []
unfolding full_size prefix_size nth_size
layer-Gives_example =
    layer-Gives 2 (2 ∷ 1 ∷ 1 ∷ []) 9 two_blocks heap (map some (1 ∷ 2 ∷ 3 ∷ 4 ∷ [])) []
      two_blocks-IsSpan (omega arith) two_blocks-Holds (omega arith) (omega arith) refl
      two_blocks-WellCounted

-- A value that begins where the second block begins is there as it is, and still it is copied.
third_layer : (layer 2 (2 ∷ 1 ∷ 1 ∷ []) 9 two_blocks heap >>= λ r. r.0) ≡ some (9, 3)
unfolding layer end_layer find_layer prefix_size nth_size full_size first_layer pointer_in
    destroy_slots to_single_block assign_move_span swap_each reset_from assign_move
    clone_spanned_mem copy_blocks slice_bytes peek make initialize add_ref_if add_ref release_if
    release destroy slot set_slot create poke Slice.reset
third_layer = refl

abbrev store : Store
unfolding empty_span
store = record { left = two_blocks; right = empty_span; pool = empty_slice ∷ []; heap = heap }

store-IsStore : IsStore store
unfolding store empty_span
store-IsStore = record {
  left_four = record { four = refl; used = omega arith };
  right_four = record { four = refl; used = omega arith };
  counted = record {
    counted = λ x. elim (Bool-cases (x == 0)) [ inl e ↦ rw e refl | inr e ↦ rw e refl ];
  };
}

-- A copy is made, assigned back, moved, and an empty slice is pushed.
acts-IsStore_example :
    (w' : Store) × (acts
        (copied ∷ assigned ∷ exchanged ∷ move_assigned ∷ pushed ∷ cleared ∷ [])
        store
      ≡ some w')
    × IsStore w'
acts-IsStore_example =
    acts-IsStore (copied ∷ assigned ∷ exchanged ∷ move_assigned ∷ pushed ∷ cleared ∷ []) store
      store-IsStore
