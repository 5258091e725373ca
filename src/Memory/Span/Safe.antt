-- ===== src/Memory/Span/Safe.antt =====
-- mem_slice_span.cpp: whatever two spans are told, in any order, the reference counts stay the numbers
-- of the slices, and no buffer is used after it was freed.
use turnserver_v.Base.{ℕ, ◌≡◌, refl, List, [], ◌∷◌, ◌++◌, Option, some, ◌>>=◌, arith}
use turnserver_v.Memory.Slice.{Heap, MemSlice}
use turnserver_v.Memory.Slice.Counts.{WellCounted, count}
use turnserver_v.Memory.Span.{Span, empty_slice, push_back, reset}
use turnserver_v.Memory.Span.Copies.{copy_span, assign_span, assign_move_span, destroy_slots}
use turnserver_v.Memory.Span.Counted.{count-append, recount, destroy_slots-Frees}
use turnserver_v.Memory.Span.Becomes.{
  IsFour, reset-Becomes, assign_span-Becomes, copy_span-Becomes, push_back_lem,
  assign_move_span_lem, swapped,
}

-- Two spans, and slices to be handed over.
pub record Store : Type 0 where
  pub left : Span
  pub right : Span
  pub pool : List MemSlice
  pub heap : Heap

pub data Action : Type 0 where
  -- left = right
  assigned : Action
  -- left = std::move(right)
  move_assigned : Action
  -- ~right, and MemSliceSpan(left) in its place
  copied : Action
  -- left.PushBack(slice) and left.Reset(slice), where there is a slice in the pool
  pushed : Action
  reset_with : Action
  -- left.Reset()
  cleared : Action
  -- the two change their names
  exchanged : Action

abbrev all_slices : Store → List MemSlice
all_slices w = w.left.buffer_ ++ (w.right.buffer_ ++ w.pool)

pub record IsStore (w : Store) : Type 0 where
  pub left_four : IsFour w.left
  pub right_four : IsFour w.right
  pub counted : WellCounted w.heap (all_slices w)

unfoldable pub act_push : List MemSlice → Store → Option Store
act_push [] w = some w
act_push (block ∷ pool) w = do
  (ok, sp, h) ← push_back block w.left w.heap
  some (record w { left = sp; pool = pool; heap = h })

unfoldable pub act_reset : List MemSlice → Store → Option Store
act_reset [] w = some w
act_reset (block ∷ pool) w = do
  (sp, h) ← reset block w.left w.heap
  some (record w { left = sp; pool = pool; heap = h })

unfoldable pub act : Action → Store → Option Store
act assigned w = do
  (sp, h) ← assign_span w.left w.right w.heap
  some (record w { left = sp; heap = h })
act move_assigned w = do
  (sp, a, h) ← assign_move_span w.left w.right w.heap
  some (record w { left = sp; right = a; heap = h })
act copied w = do
  h ← destroy_slots w.right.buffer_ w.heap
  (sp, h) ← copy_span w.left h
  some (record w { right = sp; heap = h })
act pushed w = act_push w.pool w
act reset_with w = act_reset w.pool w
act cleared w = do
  (sp, h) ← reset empty_slice w.left w.heap
  some (record w { left = sp; heap = h })
act exchanged w = some (record w { left = w.right; right = w.left })

to_front :
    (b : MemSlice) (ls rs ps : List MemSlice) (x : ℕ)
    → count x (ls ++ (rs ++ (b ∷ ps))) ≡ count x (b ∷ (ls ++ (rs ++ ps)))
to_front b ls rs ps x = omega (
  arith,
  count-append x ls (rs ++ (b ∷ ps)),
  count-append x rs (b ∷ ps),
  count-append x ls (rs ++ ps),
  count-append x rs ps,
)

act_push-IsStore :
    (ps : List MemSlice) (w : Store)
    → w.pool ≡ ps
    → IsStore w
    → (w' : Store) × (act_push ps w ≡ some w') × IsStore w'
unfolding act_push
act_push-IsStore [] w is h = (w, refl, h)
act_push-IsStore (b ∷ ps) w is h =
    let (ok, sp, g, done, f, counted) =
      push_back_lem b w.left w.heap (w.right.buffer_ ++ ps) h.left_four
        (recount w.heap _ _ (rw is at h.counted) (to_front b w.left.buffer_ w.right.buffer_ ps)) in
    (
      record w { left = sp; pool = ps; heap = g },
      rw done refl,
      record { left_four = f; right_four = h.right_four; counted = counted },
    )

act_reset-IsStore :
    (ps : List MemSlice) (w : Store)
    → w.pool ≡ ps
    → IsStore w
    → (w' : Store) × (act_reset ps w ≡ some w') × IsStore w'
unfolding act_reset
act_reset-IsStore [] w is h = (w, refl, h)
act_reset-IsStore (p ∷ ps) w is h =
    let b =
      reset-Becomes p w.left w.heap (w.right.buffer_ ++ ps) h.left_four
        (recount w.heap _ _ (rw is at h.counted) (to_front p w.left.buffer_ w.right.buffer_ ps)) in
    (
      record w { left = b.span; pool = ps; heap = b.heap },
      rw b.result refl,
      record { left_four = b.four; right_four = h.right_four; counted = b.counted },
    )

-- An action does not fail, and leaves such spans again.
act-IsStore : (x : Action) (w : Store) → IsStore w → (w' : Store) × (act x w ≡ some w') × IsStore w'
unfolding act act_push act_reset
act-IsStore assigned w h =
    let b = assign_span-Becomes w.left w.right w.heap w.pool h.left_four h.right_four h.counted in
    (
      record w { left = b.span; heap = b.heap },
      rw b.result refl,
      record { left_four = b.four; right_four = h.right_four; counted = b.counted },
    )
act-IsStore move_assigned w h =
    let (sp, a, g, done, f, k, counted) =
      assign_move_span_lem w.left w.right w.heap w.pool h.left_four h.right_four h.counted in
    (
      record w { left = sp; right = a; heap = g },
      rw done refl,
      record { left_four = f; right_four = k; counted = counted },
    )
act-IsStore copied w h =
    let freed =
      destroy_slots-Frees w.right.buffer_ w.heap (w.left.buffer_ ++ w.pool)
        (recount w.heap _ _ h.counted (λ x. swapped x w.left.buffer_ w.right.buffer_ w.pool)) in
    let b = copy_span-Becomes w.left freed.heap w.pool h.left_four freed.counted in
    (
      record w { right = b.span; heap = b.heap },
      rw (freed.result, b.result) refl,
      record {
        left_four = h.left_four;
        right_four = b.four;
        counted =
            recount b.heap _ _ b.counted (λ x. swapped x b.span.buffer_ w.left.buffer_ w.pool);
      },
    )
act-IsStore pushed w h = act_push-IsStore w.pool w refl h
act-IsStore reset_with w h = act_reset-IsStore w.pool w refl h
act-IsStore cleared w h =
    let b =
      reset-Becomes empty_slice w.left w.heap (w.right.buffer_ ++ w.pool) h.left_four
        (recount w.heap _ _ h.counted (λ x. omega arith)) in
    (
      record w { left = b.span; heap = b.heap },
      rw b.result refl,
      record { left_four = b.four; right_four = h.right_four; counted = b.counted },
    )
act-IsStore exchanged w h = (
  record w { left = w.right; right = w.left },
  refl,
  record {
    left_four = h.right_four;
    right_four = h.left_four;
    counted = recount w.heap _ _ h.counted (λ x. swapped x w.left.buffer_ w.right.buffer_ w.pool);
  },
)

unfoldable pub acts : List Action → Store → Option Store
acts [] w = some w
acts (x ∷ xs) w = do w ← act x w; acts xs w

-- Where the reference counts are the numbers of the slices, two spans of four slots each may be
-- assigned, moved, copied, pushed to and reset in any order: nothing fails, so that no buffer is used
-- or released after it was freed, and the reference counts are the numbers of the slices again.
pub acts-IsStore :
    (xs : List Action) (w : Store) → IsStore w → (w' : Store) × (acts xs w ≡ some w') × IsStore w'
unfolding acts
acts-IsStore [] w h = (w, refl, h)
acts-IsStore (x ∷ xs) w h =
    let (w1, one, h1) = act-IsStore x w h in
    let (w2, rest, h2) = acts-IsStore xs w1 h1 in (w2, rw one rest, h2)
