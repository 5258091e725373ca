-- ===== src/Wire/Packer/Pushes.antt =====
-- What each `Pushxxx` of base/packer.h appends to the bytes pushed so far.
use turnserver_v.Base.{
  ℕ, suc, ◌+◌, ◌-◌, ◌≤◌, ◌<◌, ◌≡◌, refl, ap, ◌∙◌, max, true, false, List, [], ◌∷◌, ◌++◌, append-nil,
  append_assoc, Option, none, some, ◌>>=◌, ltb, if◌then◌else◌, length, take, replicate,
  length-append, take_all, lt→ltb, le_bytes, arith, Bool-cases, inl, inr,
}
use turnserver_v.Wire.Packer.{
  Cell, Packer, max_packet_size, u32, check_size, advance, push_variable_uint32, store_variable,
  copy_in, variable_lower, variable_upper, push_string, push_binary, push_buffer, init, create,
}
use turnserver_v.Wire.Packer.Written.{
  Filled, Filled-less, Written, Fits, Appends, Ready, check_size-Ready, store-Filled,
}

-- The bytes of a variable-length uint32.
unfoldable pub variable_bytes : ℕ → List ℕ
variable_bytes value =
    if ltb value 0x8000
    then le_bytes 2 value
    else le_bytes 2 (variable_lower value) ++ le_bytes 1 (variable_upper value)

pub length-variable_bytes :
    (v : ℕ) → (2 ≤ length (variable_bytes v)) × (length (variable_bytes v) ≤ 3)
unfolding variable_bytes
length-variable_bytes v = ground arith

-- Moving on past bytes that have been stored.
advance-Written :
    {p : Packer} {bs : List ℕ} {room k : ℕ} {m : List Cell} (e : List ℕ)
    → Ready p bs room
    → Filled 4 m (bs ++ e) k
    → 4 + length bs + length e < max_packet_size
    → Written (advance (length e) (record p { mem = some m })) (bs ++ e)
unfolding advance
advance-Written {bs = bs} {m = m} e r f h = record {
  cells = m;
  held = refl;
  filled = Filled-less f;
  at = omega (arith, r.at, length-append bs e);
  quiet = r.quiet;
}

-- The bytes that `store_variable` stores in its two branches, in a buffer with room for three.
module _ (v : ℕ) (p : Packer) (bs : List ℕ) where
  abbrev Stored : List ℕ → Type 0
  Stored e = (p' : Packer) × (store_variable v p ≡ some (length e, p')) × Written p' (bs ++ e)

  store_short :
      Ready p bs 3
      → ltb v 0x8000 ≡ true
      → 4 + length bs + 2 < max_packet_size
      → Stored (le_bytes 2 v)
  unfolding store_variable
  store_short r short small =
      let e : List ℕ = le_bytes 2 v in
      let (m, stored, filled) = store-Filled e p p.position_ r.held r.filled (omega arith) r.at in
      (advance 2 (record p { mem = some m }), rw (short, stored), advance-Written e r filled small)

  store_long :
      Ready p bs 3
      → ltb v 0x8000 ≡ false
      → 4 + length bs + 3 < max_packet_size
      → Stored (le_bytes 2 (variable_lower v) ++ le_bytes 1 (variable_upper v))
  unfolding store_variable
  store_long r long small =
      let low : List ℕ = le_bytes 2 (variable_lower v) in
      let high : List ℕ = le_bytes 1 (variable_upper v) in
      let (m, stored, filled) = store-Filled low p p.position_ r.held r.filled (omega arith) r.at in
      let (m', stored', filled') =
        store-Filled high (record p { mem = some m }) (p.position_ + 2) refl filled (omega arith)
          (omega (arith, r.at, length-append bs low)) in
      (
        advance 3 (record p { mem = some m' }),
        rw (long, stored, stored'),
        advance-Written (low ++ high) r (rw append_assoc at filled') small,
      )

  store_variable_lem :
      Ready p bs 3
      → 4 + length bs + length (variable_bytes v) < max_packet_size
      → Stored (variable_bytes v)
  unfolding variable_bytes
  store_variable_lem r small = elim (Bool-cases (ltb v 0x8000)) [
    | inl short ↦ rw short (store_short r short (rw short at small))
    | inr long ↦ rw long (store_long r long (rw long at small))
  ]

-- PushVariableUint32 appends the variable-length form, and returns its length.
pub push_variable_uint32-Appends :
    (v : ℕ) (p : Packer) (bs : List ℕ)
    → Written p bs
    → Fits (bs ++ variable_bytes v)
    → (p' : Packer) × (push_variable_uint32 v p ≡ some (length (variable_bytes v), p'))
      × Written p' (bs ++ variable_bytes v)
unfolding push_variable_uint32
push_variable_uint32-Appends v p bs w fits =
    let (q, checked, r) = check_size-Ready 3 w (omega (arith, size, length-variable_bytes v)) in
    let (p', stored, w') =
      store_variable_lem v q bs r (omega (arith, size, length-variable_bytes v)) in
    (p', rw (checked, stored), w')
  where
    size : length (bs ++ variable_bytes v) ≡ length bs + length (variable_bytes v)
    size = length-append bs (variable_bytes v)

copy_in_lem :
    (val : List ℕ) (p : Packer) (bs : List ℕ)
    → Ready p bs (length val)
    → 4 + length bs + length val < max_packet_size
    → (p' : Packer) × (copy_in (length val) val p ≡ some p') × Written p' (bs ++ val)
unfolding copy_in
copy_in_lem [] p bs r small = (
  p,
  refl,
  record {
    cells = r.cells;
    held = r.held;
    filled = rw append-nil (Filled-less r.filled);
    at = rw append-nil r.at;
    quiet = r.quiet;
  },
)
copy_in_lem (b ∷ val) p bs r small =
    let (m, stored, filled) =
      store-Filled (b ∷ val) p p.position_ r.held r.filled (omega arith) r.at in
    (
      advance (suc (length val)) (record p { mem = some m }),
      rw (lt→ltb 0 (suc (length val)) (omega arith), stored),
      advance-Written (b ∷ val) r filled small,
    )

-- PushBinary appends the bytes.
pub push_binary-Appends : (val : List ℕ) → Appends (push_binary val) val
unfolding push_binary
push_binary-Appends val = record {
  run = λ p bs w fits.
      let small : u32 (length val) ≡ length val = omega (arith, length-append bs val) in
      let (q, checked, r) = check_size-Ready (length val) w (omega (arith, length-append bs val)) in
      let (p', copied, w') = copy_in_lem val q bs r (omega (arith, length-append bs val)) in
      (
        p',
        ap (λ k. check_size k p.position_ p >>= copy_in (length val) val) small
            ∙ rw (checked, copied),
        w',
      );
}

-- The bytes of a string or a byte vector: its length, and its contents.
unfoldable pub string_bytes : List ℕ → List ℕ
string_bytes val = variable_bytes (length val) ++ val

push_string-run :
    (val : List ℕ) (p : Packer) (bs : List ℕ)
    → Written p bs
    → Fits (bs ++ string_bytes val)
    → (p' : Packer) × (push_string val p ≡ some p') × Written p' (bs ++ string_bytes val)
unfolding push_string string_bytes
push_string-run val p bs w fits =
    let (q, counted, w1) =
      push_variable_uint32-Appends (length val) p bs w
        (omega (arith, total, length-append bs (variable_bytes (length val)))) in
    let (q', checked, r) =
      check_size-Ready (length val) w1
        (omega (arith, total, length-append bs (variable_bytes (length val)))) in
    let (p', copied, w2) =
      copy_in_lem val q' (bs ++ variable_bytes (length val)) r
        (omega (arith, total, length-append bs (variable_bytes (length val)))) in
    (p', rw (small, counted, checked, whole, copied), rw (← append_assoc) w2)
  where
    total :
        length (bs ++ (variable_bytes (length val) ++ val))
        ≡ length bs + (length (variable_bytes (length val)) + length val)
    total = rw (length-append, length-append)

    small : u32 (length val) ≡ length val
    small = omega (arith, total)

    whole : take (length val) val ≡ val
    whole = take_all _ val (omega arith)

-- PushString appends the length and the contents.
pub push_string-Appends : (val : List ℕ) → Appends (push_string val) (string_bytes val)
push_string-Appends val = record { run = push_string-run val }

pub push_buffer-Appends : (val : List ℕ) → Appends (push_buffer val) (string_bytes val)
unfolding push_buffer
push_buffer-Appends val = push_string-Appends val

-- Running one appending operation after another.
pub Appends-seq :
    {f g : Packer → Option Packer} {d e : List ℕ}
    → Appends f d
    → Appends g e
    → Appends (λ p. f p >>= g) (d ++ e)
Appends-seq {f} {g} {d} {e} hf hg = record {
  run = λ p bs w fits.
      let (q, first, w1) = hf.run p bs w (omega (arith, total bs, length-append bs d)) in
      let (p', second, w2) = hg.run q (bs ++ d) w1 (rw (← append_assoc) at fits) in
      (p', rw (first, second), rw (← append_assoc) w2);
}
  where
    total : (bs : List ℕ) → length (bs ++ (d ++ e)) ≡ length bs + (length d + length e)
    total bs = rw (length-append, length-append)

pub Appends-nil : Appends some []
Appends-nil = record { run = λ p bs w fits. (p, refl, rw append-nil w) }

-- The count that PushVariableUint32 returns is dropped.
unfoldable pub push_count : ℕ → Packer → Option Packer
unfolding push_variable_uint32
push_count v p = do (_, p) ← push_variable_uint32 v p; some p

pub push_count-Appends : (v : ℕ) → Appends (push_count v) (variable_bytes v)
unfolding push_count
push_count-Appends v = record {
  run = λ p bs w fits.
      let (p', pushed, w') = push_variable_uint32-Appends v p bs w fits in (p', rw pushed, w');
}

-- A fresh packer holds nothing yet.
pub init-Written : (buffer_sz : ℕ) → Written (init buffer_sz) []
unfolding init create
init-Written buffer_sz = record {
  cells = replicate (max 64 buffer_sz) none;
  held = refl;
  filled = record {
    front = replicate 4 none;
    rest = replicate (max 64 buffer_sz - 4) none;
    shape =
        ap (λ n. replicate {A = Cell} n none) {x = max 64 buffer_sz}
          {y = suc (suc (suc (suc (max 64 buffer_sz - 4))))} (omega arith);
    offset = refl;
    space = omega arith;
  };
  at = refl;
  quiet = refl;
}
