-- ===== src/Wire/Packer.antt =====
-- turnserver/base/packer.h: class Packer, an output buffer on the heap that grows on demand.
--
-- A byte of the buffer is `none` while it is what `malloc` left there, and `some b` once written.
-- An operation is `none` where the C++ has no defined meaning (a null `mem_`, a `memcpy` outside
-- the allocation) or an assertion fails. `warnings` counts the lines that go to std::cerr.
pub mod Written
pub mod Pushes
pub mod Frame
use turnserver_v.Base.{
  ℕ, zero, suc, ◌+◌, ◌-◌, ◌*◌, ◌/◌, ◌%◌, ◌^◌, ◌≡◌, min, max, Bool, true, false, List, [], ◌∷◌, ◌++◌,
  map, Option, none, some, ◌>>=◌, ◌>>◌, assert, ltb, leb, if◌then◌else◌, length, take, drop,
  replicate, le_bytes,
}

abbrev pub Cell : Type 0
Cell = Option ℕ

-- enum class PacketLimit
abbrev pub max_packet_size : ℕ
max_packet_size = 8 * 1024 * 1024 - 1024

abbrev pub default_size : ℕ
default_size = 1024

-- The value of a uint32_t expression.
abbrev pub u32 : ℕ → ℕ
u32 n = n % 2 ^ 32

pub record Packer : Type 0 where
  pub mem : Option (List Cell)
  pub length_ : ℕ
  pub position_ : ℕ
  pub warnings : ℕ

-- MemBuf::Create(size), and MemBuf::Create(buf, size, capacity), which copies the old bytes.
unfoldable pub create : ℕ → List Cell
create size = replicate size none

unfoldable pub create_from : List Cell → ℕ → ℕ → List Cell
create_from buf size capacity =
    let n = min size capacity in take n buf ++ replicate (capacity - n) none

-- memcpy(mem + at, bytes, n) for the bytes of an object of its own: all of it is in the allocation.
unfoldable pub poke : List Cell → ℕ → List Cell → Option (List Cell)
poke m at bs =
    if leb (at + length bs) (length m)
    then some (take at m ++ (bs ++ drop (at + length bs) m))
    else none

-- The `n` cells from `at` on.
unfoldable pub peek : List Cell → ℕ → ℕ → Option (List Cell)
peek m at n = if leb (at + n) (length m) then some (take n (drop at m)) else none

unfoldable pub init : ℕ → Packer
unfolding create
init buffer_sz = record {
  mem = some (create (max 64 buffer_sz));
  length_ = 0;
  position_ = 4;
  warnings = 0;
}

unfoldable pub reset : Packer → Packer
reset p = record p { length_ = 0; position_ = 4 }

-- The buffer after `CheckSize`: `more` and `position` are uint32_t, and so is their sum.
unfoldable pub grow : List Cell → ℕ → List Cell
unfolding create_from
grow m new_size =
    let old_cap = length m in
    if ltb old_cap new_size then create_from m old_cap (max new_size (u32 (2 * old_cap))) else m

unfoldable pub check_size : ℕ → ℕ → Packer → Option Packer
unfolding grow
check_size more position p = do
  m ← p.mem
  let new_size = u32 (position + more)
  some (record p {
    mem = some (grow m new_size);
    warnings = if leb max_packet_size new_size then p.warnings + 1 else p.warnings;
  })

-- memcpy(Begin() + at, &val, sizeof(val))
unfoldable pub store : ℕ → List ℕ → Packer → Option Packer
unfolding poke
store at bs p = do m ← p.mem; m' ← poke m at (map some bs); some (record p { mem = some m' })

unfoldable pub advance : ℕ → Packer → Packer
advance n p = record p { position_ = u32 (p.position_ + n) }

unfoldable pub write_uint16 : ℕ → ℕ → Packer → Option Packer
unfolding check_size store
write_uint16 val position p = do p ← check_size 2 position p; store position (le_bytes 2 val) p

unfoldable pub write_uint32 : ℕ → ℕ → Packer → Option Packer
unfolding check_size store
write_uint32 val position p = do p ← check_size 4 position p; store position (le_bytes 4 val) p

-- What the fixed-size `Pushxxx` functions share: `CheckSize`, `memcpy` at `position_`, `+=`.
unfoldable pub push_bytes : List ℕ → Packer → Option Packer
unfolding check_size store advance
push_bytes bs p = do
  p ← check_size (length bs) p.position_ p
  p ← store p.position_ bs p
  some (advance (length bs) p)

unfoldable pub push_uint8 : ℕ → Packer → Option Packer
unfolding push_bytes
push_uint8 val = push_bytes (le_bytes 1 val)

unfoldable pub push_uint16 : ℕ → Packer → Option Packer
unfolding push_bytes
push_uint16 val = push_bytes (le_bytes 2 val)

unfoldable pub push_uint32 : ℕ → Packer → Option Packer
unfolding push_bytes
push_uint32 val = push_bytes (le_bytes 4 val)

unfoldable pub push_uint64 : ℕ → Packer → Option Packer
unfolding push_bytes
push_uint64 val = push_bytes (le_bytes 8 val)

-- A double goes by its 64-bit pattern.
unfoldable pub push_double : ℕ → Packer → Option Packer
unfolding push_bytes
push_double bits = push_bytes (le_bytes 8 bits)

unfoldable pub push_boolean : Bool → Packer → Option Packer
unfolding push_uint8
push_boolean val = push_uint8 (if val then 1 else 0)

-- The uint16_t `(value & 0x7FFF) | 0x8000`, and the uint8_t `value >> 15`.
abbrev pub variable_lower : ℕ → ℕ
variable_lower value = value % 0x8000 + 0x8000

abbrev pub variable_upper : ℕ → ℕ
variable_upper value = value / 2 ^ 15 % 256

unfoldable pub variable_uint32_length : ℕ → ℕ
variable_uint32_length value = if ltb value 0x8000 then 2 else 3

-- Behind its `CheckSize`: what is stored, and the number of bytes.
unfoldable pub store_variable : ℕ → Packer → Option (ℕ × Packer)
unfolding store advance
store_variable value p =
    if ltb value 0x8000
    then (do p ← store p.position_ (le_bytes 2 value) p; some (2, advance 2 p))
    else (do
      p ← store p.position_ (le_bytes 2 (variable_lower value)) p
      p ← store (p.position_ + 2) (le_bytes 1 (variable_upper value)) p
      some (3, advance 3 p))

unfoldable pub push_variable_uint32 : ℕ → Packer → Option (ℕ × Packer)
unfolding check_size store_variable
push_variable_uint32 value p = do p ← check_size 3 p.position_ p; store_variable value p

-- `if (length > 0) { memcpy(End(), data, length); position_ += length; }`
unfoldable pub copy_in : ℕ → List ℕ → Packer → Option Packer
unfolding store advance
copy_in n bs p = if ltb 0 n then (do p ← store p.position_ bs p; some (advance n p)) else some p

-- PushBinary: a size_t length, narrowed by `CheckSize` and by the cast.
unfoldable pub push_binary : List ℕ → Packer → Option Packer
unfolding check_size copy_in
push_binary bs p = do p ← check_size (u32 (length bs)) p.position_ p; copy_in (length bs) bs p

-- PushString: the length goes through a uint32_t, and that many bytes are copied.
unfoldable pub push_string : List ℕ → Packer → Option Packer
unfolding push_variable_uint32 check_size copy_in
push_string val p = do
  let n = u32 (length val)
  (_, p) ← push_variable_uint32 n p
  p ← check_size n p.position_ p
  copy_in n (take n val) p

unfoldable pub push_buffer : List ℕ → Packer → Option Packer
unfolding push_string
push_buffer val = push_string val

-- Pack() puts the length of the whole packet, itself included, in front of the body.
unfoldable pub pack : Packer → Option Packer
unfolding push_variable_uint32
pack p = do
  assert (ltb p.position_ max_packet_size)
  if leb 0x8002 p.position_
      then (do
        (_, p) ←
            push_variable_uint32 (p.position_ - 1)
              (record p { length_ = p.position_ - 1; position_ = 1 })
        some (record p { position_ = 1 }))
      else (do
        (_, p) ←
            push_variable_uint32 (u32 (p.position_ + 2 ^ 32 - 2))
              (record p { length_ = u32 (p.position_ + 2 ^ 32 - 2); position_ = 2 })
        some (record p { position_ = 2 }))

-- Data() and Data2(), at Buffer().
unfoldable pub packed_data : Packer → Option (List Cell)
unfolding peek
packed_data p = do m ← p.mem; peek m p.position_ p.length_

unfoldable pub body_size : Packer → ℕ
body_size p = if leb 0x8000 p.length_ then p.length_ - 3 else u32 (p.length_ + 2 ^ 32 - 2)

-- Body() and Body2(), at BodyStart().
unfoldable pub body : Packer → Option (List Cell)
unfolding peek body_size
body p = do m ← p.mem; peek m 4 (body_size p)
