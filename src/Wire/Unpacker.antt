-- ===== src/Wire/Unpacker.antt =====
-- turnserver/base/unpacker.h and unpacker.cpp: class Unpacker, a cursor over received bytes.
--
-- `mem` is the memory that may be read at `buffer_`, as far as its allocation goes; `length_` is
-- what the caller said. CheckSize only prints to std::cerr (`warnings` counts the lines) and the
-- read goes on; a read outside `mem` has no defined meaning and is `none`.
pub mod Reads
use turnserver_v.Base.{
  ℕ, ◌+◌, ◌-◌, ◌*◌, ◌/◌, ◌%◌, ◌^◌, ◌≡◌, Bool, true, false, List, [], ◌∷◌, ◌++◌, Option, none, some,
  ◌>>=◌, ◌>>◌, assert, ltb, leb, ◌==◌, if◌then◌else◌, length, take, drop, from_le,
}
use turnserver_v.Wire.Packer.{u32}

pub record Unpacker : Type 0 where
  pub mem : List ℕ
  pub length_ : ℕ
  pub position_ : ℕ
  pub warnings : ℕ

unfoldable pub check_size : ℕ → ℕ → Unpacker → Unpacker
check_size more position u = record u {
  warnings = if ltb u.length_ (u32 (position + more)) then u.warnings + 1 else u.warnings;
}

-- The `n` bytes at `buffer_ + at`.
unfoldable pub read : ℕ → ℕ → Unpacker → Option (List ℕ)
read at n u = if leb (at + n) (length u.mem) then some (take n (drop at u.mem)) else none

unfoldable pub move : ℕ → Unpacker → Unpacker
move n u = record u { position_ = u32 (u.position_ + n) }

-- What the fixed-size `Popxxx` functions share.
unfoldable pub pop_bytes : ℕ → Unpacker → Option (List ℕ × Unpacker)
pop_bytes n u = do
  let u' = check_size n u.position_ u
  bs ← read u'.position_ n u'
  some (bs, move n u')

unfoldable pub pop_uint : ℕ → Unpacker → Option (ℕ × Unpacker)
pop_uint n u = do (bs, u) ← pop_bytes n u; some (from_le bs, u)

unfoldable pub pop_uint8 : Unpacker → Option (ℕ × Unpacker)
pop_uint8 = pop_uint 1

unfoldable pub pop_uint16 : Unpacker → Option (ℕ × Unpacker)
pop_uint16 = pop_uint 2

unfoldable pub pop_uint32 : Unpacker → Option (ℕ × Unpacker)
pop_uint32 = pop_uint 4

unfoldable pub pop_uint64 : Unpacker → Option (ℕ × Unpacker)
pop_uint64 = pop_uint 8

-- A double goes by its 64-bit pattern.
unfoldable pub pop_double : Unpacker → Option (ℕ × Unpacker)
pop_double = pop_uint 8

-- A byte other than 0 and 1 is no value of a bool.
unfoldable pub to_boolean : ℕ → Option Bool
to_boolean b = if b == 0 then some false else if b == 1 then some true else none

unfoldable pub pop_boolean : Unpacker → Option (Bool × Unpacker)
pop_boolean u = do (b, u) ← pop_uint 1 u; v ← to_boolean b; some (v, u)

-- The bit of the first uint16_t says whether a third byte follows.
unfoldable pub pop_variable_uint32 : Unpacker → Option (ℕ × Unpacker)
pop_variable_uint32 u = do
  let u' = check_size 2 u.position_ u
  low ← read u'.position_ 2 u'
  if ltb (from_le low) 0x8000 then some (from_le low, move 2 u') else (do
    let u'' = check_size 3 u'.position_ u'
    high ← read (u''.position_ + 2) 1 u''
    some (u32 (from_le high * 2 ^ 15 + from_le low % 0x8000), move 3 u''))

unfoldable pub pop_binary : ℕ → Unpacker → Option (List ℕ × Unpacker)
pop_binary n u = do
  let u' = check_size (u32 n) u.position_ u
  bs ← read u'.position_ n u'
  some (bs, move n u')

-- PopString, and PopBuffer below.
unfoldable pub pop_string : Unpacker → Option (List ℕ × Unpacker)
pop_string u = do (n, u) ← pop_variable_uint32 u; pop_bytes n u

unfoldable pub pop_buffer : Unpacker → Option (List ℕ × Unpacker)
pop_buffer = pop_string

unfoldable pub reset : Unpacker → Unpacker
reset u = record u { position_ = 0 }

-- Rewind() goes back to the first byte behind the length of the packet.
unfoldable pub rewind : Unpacker → Option Unpacker
rewind u = do (_, u) ← pop_variable_uint32 (record u { position_ = 0 }); some u

-- The constructor, with Initialize(): `copy` takes `len` bytes into an allocation of their own.
unfoldable pub init : List ℕ → ℕ → Bool → Option Unpacker
init buf len copy = do
  assert (if copy then leb len (length buf) else true)
  let mem = if copy then take len buf else buf
  (_, u) ← pop_variable_uint32 (record { mem = mem; length_ = len; position_ = 0; warnings = 0 })
  some u
