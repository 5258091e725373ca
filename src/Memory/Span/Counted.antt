-- ===== src/Memory/Span/Counted.antt =====
-- mem_slice_span.cpp: the reference counts where slots of a span are reset or destroyed.
use turnserver_v.Base.{
  ℕ, zero, suc, ◌+◌, ◌-◌, ◌≤◌, ◌<◌, ◌≡◌, refl, sym, ap, ◌∙◌, List, [], ◌∷◌, ◌++◌, Option, none,
  some, ◌==◌, ==_iff, if◌then◌else◌, Bool-cases, Option-cases, inl, inr, leb, length, arith,
}
use turnserver_v.Memory.Slice.{
  MemBuf, Heap, set, MemSlice, release, release_if, destroy, initialize, add_ref_if, capacity_if,
}
use turnserver_v.Memory.Slice as Slice
use turnserver_v.Memory.Slice.Counts.{WellCounted, count, points, destroy-WellCounted}
use turnserver_v.Memory.Span.{empty_slice, slot, set_slot}
use turnserver_v.Memory.Span.Copies.{reset_from, destroy_slots}

pub count-append : (x : ℕ) (ss ts : List MemSlice) → count x (ss ++ ts) ≡ count x ss + count x ts
count-append x [] ts = omega arith
count-append x (s ∷ ss) ts = omega (arith, count-append x ss ts)

-- The order of the slices does not matter.
pub recount :
    (h : Heap) (ss ts : List MemSlice)
    → WellCounted h ss
    → ((x : ℕ) → count x ss ≡ count x ts)
    → WellCounted h ts
recount h ss ts w same = record { counted = λ x. w.counted x ∙ same x }

pub count-set_slot :
    (i : ℕ) (t old : MemSlice) (ss : List MemSlice) (x : ℕ)
    → slot i ss ≡ some old
    → count x (set_slot i t ss) + points x old.buffer ≡ count x ss + points x t.buffer
unfolding slot set_slot
count-set_slot i t old [] x at = absurd (ground arith)
count-set_slot zero t old (s ∷ ss) x at =
    let same : s ≡ old = cc in omega (arith, ap (λ r. points x r.buffer) same)
count-set_slot (suc i) t old (s ∷ ss) x at = omega (arith, count-set_slot i t old ss x at)

-- A buffer that is still there has the bytes that it had.
pub record Keeps (h h' : Heap) : Type 0 where
  pub kept :
      (x : ℕ) (m : MemBuf) → h' x ≡ some m → (n : MemBuf) × (h x ≡ some n) × (n.bytes ≡ m.bytes)

pub Keeps-trans : (f g h : Heap) → Keeps f g → Keeps g h → Keeps f h
Keeps-trans f g h j k = record {
  kept = λ x m at.
      let (n, there, same) = k.kept x m at in
      let (l, here, too) = j.kept x n there in (l, here, too ∙ same);
}

Keeps-refl : (h : Heap) → Keeps h h
Keeps-refl h = record { kept = λ x m at. (m, at, refl) }

release_if-Keeps : (b : Option ℕ) (h h' : Heap) → release_if b h ≡ some h' → Keeps h h'
unfolding release_if release
release_if-Keeps none h h' done = record { kept = λ x n at. (n, ground arith, refl) }
release_if-Keeps (some a) h h' done = elim (Option-cases (h a)) [
  | inl gone ↦ absurd (ground arith)
  | inr (m, live) ↦
      let left : Option MemBuf =
        if leb m.ref_cnt 1 then none else some (record m { ref_cnt = m.ref_cnt - 1 }) in
      let made : some (set a left h) ≡ some h' = rw live at done in
      let is : (y : ℕ) → h' y ≡ set a left h y = λ y. cc in
      record {
        kept = λ x n at. elim (Bool-cases (x == a)) [
          | inr other ↦ (n, sym (is x ∙ rw other refl) ∙ at, refl)
          | inl same ↦ elim (Bool-cases (leb m.ref_cnt 1)) [
            | inl last ↦ absurd (ground (arith, is x))
            | inr more ↦ (m, ap h ((==_iff x a).0 same) ∙ live, ground (arith, is x))
          ]
        ];
      }
]

-- What an operation that destroys slices leaves: the counts are the numbers of the slices `ss`.
pub record Frees (o : Option Heap) (h : Heap) (ss : List MemSlice) : Type 0 where
  pub heap : Heap
  pub result : o ≡ some heap
  pub counted : WellCounted heap ss
  pub keeps : Keeps h heap

pub destroy-Frees :
    (s : MemSlice) (h : Heap) (ss : List MemSlice)
    → WellCounted h (s ∷ ss)
    → Frees (destroy s h) h ss
destroy-Frees s h ss w =
    let (h', done, w') = destroy-WellCounted s h ss w in
    record {
      heap = h';
      result = done;
      counted = w';
      keeps = release_if-Keeps s.buffer h h' (unfold destroy in done);
    }

pub destroy_slots-Frees :
    (ts : List MemSlice) (h : Heap) (ss : List MemSlice)
    → WellCounted h (ts ++ ss)
    → Frees (destroy_slots ts h) h ss
unfolding destroy_slots
destroy_slots-Frees [] h ss w = record {
  heap = h;
  result = refl;
  counted = w;
  keeps = Keeps-refl h;
}
destroy_slots-Frees (t ∷ ts) h ss w =
    let one = destroy-Frees t h (ts ++ ss) w in
    let rest = destroy_slots-Frees ts one.heap ss one.counted in
    record {
      heap = rest.heap;
      result = rw one.result rest.result;
      counted = rest.counted;
      keeps = Keeps-trans h one.heap rest.heap one.keeps rest.keeps;
    }

-- The slots of a span after a part of them was reset.
pub record Resets (first n : ℕ) (ts : List MemSlice) (h : Heap) (ss : List MemSlice) : Type 0 where
  pub slots : List MemSlice
  pub heap : Heap
  pub result : reset_from first n ts h ≡ some (slots, heap)
  pub counted : WellCounted heap (slots ++ ss)
  pub keeps : Keeps h heap
  pub before : (i : ℕ) → i < first → slot i slots ≡ slot i ts
  pub size : length slots ≡ length ts

pub slot_within :
    (i : ℕ) (ts : List MemSlice) → i < length ts → (t : MemSlice) × (slot i ts ≡ some t)
unfolding slot
slot_within i [] inside = absurd (omega (arith, inside))
slot_within zero (t ∷ ts) inside = (t, refl)
slot_within (suc i) (t ∷ ts) inside = slot_within i ts (omega (arith, inside))

pub length-set_slot :
    (i : ℕ) (t : MemSlice) (ts : List MemSlice) → length (set_slot i t ts) ≡ length ts
unfolding set_slot
length-set_slot i t [] = refl
length-set_slot zero t (s ∷ ts) = refl
length-set_slot (suc i) t (s ∷ ts) = omega (arith, length-set_slot i t ts)

slot-set_slot :
    (i j : ℕ) (t : MemSlice) (ts : List MemSlice) → i < j → slot i (set_slot j t ts) ≡ slot i ts
unfolding slot set_slot
slot-set_slot i j t [] below = refl
slot-set_slot i zero t (s ∷ ts) below = absurd (omega (arith, below))
slot-set_slot zero (suc j) t (s ∷ ts) below = refl
slot-set_slot (suc i) (suc j) t (s ∷ ts) below = slot-set_slot i j t ts (omega (arith, below))

-- After one slot was reset.
pub record SlotReset (i : ℕ) (ts : List MemSlice) (h : Heap) (ss : List MemSlice) : Type 0 where
  pub old : MemSlice
  pub at : slot i ts ≡ some old
  pub heap : Heap
  pub result : Slice.reset old none h ≡ some (empty_slice, heap)
  pub counted : WellCounted heap (set_slot i empty_slice ts ++ ss)
  pub keeps : Keeps h heap

pub slot-SlotReset :
    (i : ℕ) (ts : List MemSlice) (h : Heap) (ss : List MemSlice)
    → WellCounted h (ts ++ ss)
    → i < length ts
    → SlotReset i ts h ss
unfolding Slice.reset initialize add_ref_if destroy
slot-SlotReset i ts h ss w inside =
    let (old, at) = slot_within i ts inside in
    let ts' = set_slot i empty_slice ts in
    let moved : (x : ℕ) → count x (ts ++ ss) ≡ count x (old ∷ (ts' ++ ss)) = λ x. omega (
      arith,
      count-append x ts ss,
      count-append x ts' ss,
      count-set_slot i empty_slice old ts x at,
    ) in
    let one = destroy-Frees old h (ts' ++ ss) (recount h _ _ w moved) in
    let freed : release_if old.buffer h ≡ some one.heap = one.result in
    record {
      old = old;
      at = at;
      heap = one.heap;
      result = rw freed refl;
      counted = one.counted;
      keeps = one.keeps;
    }

pub reset_from-Resets :
    (first n : ℕ) (ts : List MemSlice) (h : Heap) (ss : List MemSlice)
    → WellCounted h (ts ++ ss)
    → first + n ≤ length ts
    → Resets first n ts h ss
unfolding reset_from
reset_from-Resets first zero ts h ss w inside = record {
  slots = ts;
  heap = h;
  result = refl;
  counted = w;
  keeps = Keeps-refl h;
  before = λ i below. refl;
  size = refl;
}
reset_from-Resets first (suc n) ts h ss w inside =
    let one = slot-SlotReset first ts h ss w (omega (arith, inside)) in
    let size = length-set_slot first empty_slice ts in
    let rest =
      reset_from-Resets (suc first) n (set_slot first empty_slice ts) one.heap ss one.counted
        (omega (arith, inside, size)) in
    record {
      slots = rest.slots;
      heap = rest.heap;
      result = rw (one.at, one.result) rest.result;
      counted = rest.counted;
      keeps = Keeps-trans h one.heap rest.heap one.keeps rest.keeps;
      before = λ i below.
          rest.before i (omega (arith, below)) ∙ slot-set_slot i first empty_slice ts below;
      size = rest.size ∙ size;
    }
