-- ===== src/Wire/Codec.antt =====
-- The interface between the two sides of the wire: for a type, `operator<<` of base/packer.h and
-- `operator>>` of base/unpacker.h, with the bytes that the one appends and the other reads.
use turnserver_v.Base.{
  ℕ, ◌^◌, ◌<◌, Bool, false, List, [], ◌++◌, Option, some, ◌>>=◌, if◌then◌else◌, length, le_bytes,
}
use turnserver_v.Wire.Packer.{
  Packer, push_uint8, push_uint16, push_uint32, push_uint64, push_double, push_boolean, push_string,
  push_buffer,
}
use turnserver_v.Wire.Packer.Written.{Appends, push_bytes-Appends}
use turnserver_v.Wire.Packer.Pushes.{
  string_bytes, push_string-Appends, push_buffer-Appends, Appends-seq,
}
use turnserver_v.Wire.Unpacker.{
  Unpacker, pop_uint8, pop_uint16, pop_uint32, pop_uint64, pop_double, pop_boolean, pop_string,
  pop_buffer,
}
use turnserver_v.Wire.Unpacker.Reads.{
  Reads, pop_uint-Reads, pop_boolean-Reads, pop_string-Reads, pop_buffer-Reads, Reads-bind,
  Reads-map,
}

-- `pop old u` is `u >> v` at a variable that holds `old`; `blank` is `T()`. `IsValid` says which
-- values the format can carry.
pub record Codec (A : Type 0) : Type 1 where
  pub blank : A
  pub push : A → Packer → Option Packer
  pub pop : A → Unpacker → Option (A × Unpacker)
  pub encode : A → List ℕ
  pub IsValid : A → Type 0
  pub push-Appends : (a : A) → IsValid a → Appends (push a) (encode a)
  pub pop-Reads : (a : A) → IsValid a → Reads (pop blank) (encode a) a

pub push_uint8-Appends : (v : ℕ) → v < 2 ^ 8 → Appends (push_uint8 v) (le_bytes 1 v)
unfolding push_uint8
push_uint8-Appends v h = push_bytes-Appends (le_bytes 1 v)

pub pop_uint8-Reads : (v : ℕ) → v < 2 ^ 8 → Reads pop_uint8 (le_bytes 1 v) v
unfolding pop_uint8
pop_uint8-Reads v h = pop_uint-Reads 1 v h

abbrev pub uint8 : Codec ℕ
uint8 = record {
  blank = 0;
  push = push_uint8;
  pop = λ _. pop_uint8;
  encode = le_bytes 1;
  IsValid = λ v. v < 2 ^ 8;
  push-Appends = push_uint8-Appends;
  pop-Reads = pop_uint8-Reads;
}

pub push_uint16-Appends : (v : ℕ) → v < 2 ^ 16 → Appends (push_uint16 v) (le_bytes 2 v)
unfolding push_uint16
push_uint16-Appends v h = push_bytes-Appends (le_bytes 2 v)

pub pop_uint16-Reads : (v : ℕ) → v < 2 ^ 16 → Reads pop_uint16 (le_bytes 2 v) v
unfolding pop_uint16
pop_uint16-Reads v h = pop_uint-Reads 2 v h

abbrev pub uint16 : Codec ℕ
uint16 = record {
  blank = 0;
  push = push_uint16;
  pop = λ _. pop_uint16;
  encode = le_bytes 2;
  IsValid = λ v. v < 2 ^ 16;
  push-Appends = push_uint16-Appends;
  pop-Reads = pop_uint16-Reads;
}

pub push_uint32-Appends : (v : ℕ) → v < 2 ^ 32 → Appends (push_uint32 v) (le_bytes 4 v)
unfolding push_uint32
push_uint32-Appends v h = push_bytes-Appends (le_bytes 4 v)

pub pop_uint32-Reads : (v : ℕ) → v < 2 ^ 32 → Reads pop_uint32 (le_bytes 4 v) v
unfolding pop_uint32
pop_uint32-Reads v h = pop_uint-Reads 4 v h

abbrev pub uint32 : Codec ℕ
uint32 = record {
  blank = 0;
  push = push_uint32;
  pop = λ _. pop_uint32;
  encode = le_bytes 4;
  IsValid = λ v. v < 2 ^ 32;
  push-Appends = push_uint32-Appends;
  pop-Reads = pop_uint32-Reads;
}

pub push_uint64-Appends : (v : ℕ) → v < 2 ^ 64 → Appends (push_uint64 v) (le_bytes 8 v)
unfolding push_uint64
push_uint64-Appends v h = push_bytes-Appends (le_bytes 8 v)

pub pop_uint64-Reads : (v : ℕ) → v < 2 ^ 64 → Reads pop_uint64 (le_bytes 8 v) v
unfolding pop_uint64
pop_uint64-Reads v h = pop_uint-Reads 8 v h

abbrev pub uint64 : Codec ℕ
uint64 = record {
  blank = 0;
  push = push_uint64;
  pop = λ _. pop_uint64;
  encode = le_bytes 8;
  IsValid = λ v. v < 2 ^ 64;
  push-Appends = push_uint64-Appends;
  pop-Reads = pop_uint64-Reads;
}

pub push_double-Appends : (v : ℕ) → v < 2 ^ 64 → Appends (push_double v) (le_bytes 8 v)
unfolding push_double
push_double-Appends v h = push_bytes-Appends (le_bytes 8 v)

pub pop_double-Reads : (v : ℕ) → v < 2 ^ 64 → Reads pop_double (le_bytes 8 v) v
unfolding pop_double
pop_double-Reads v h = pop_uint-Reads 8 v h

abbrev pub double : Codec ℕ
double = record {
  blank = 0;
  push = push_double;
  pop = λ _. pop_double;
  encode = le_bytes 8;
  IsValid = λ v. v < 2 ^ 64;
  push-Appends = push_double-Appends;
  pop-Reads = pop_double-Reads;
}

pub push_boolean-Appends : (b : Bool) → Appends (push_boolean b) (le_bytes 1 (if b then 1 else 0))
unfolding push_boolean push_uint8
push_boolean-Appends b = push_bytes-Appends (le_bytes 1 (if b then 1 else 0))

abbrev pub boolean : Codec Bool
boolean = record {
  blank = false;
  push = push_boolean;
  pop = λ _. pop_boolean;
  encode = λ b. le_bytes 1 (if b then 1 else 0);
  IsValid = λ _. Unit;
  push-Appends = λ b _. push_boolean-Appends b;
  pop-Reads = λ b _. pop_boolean-Reads b;
}

-- std::string, by its bytes.
abbrev pub string : Codec (List ℕ)
string = record {
  blank = [];
  push = push_string;
  pop = λ _. pop_string;
  encode = string_bytes;
  IsValid = λ s. length s < 2 ^ 23;
  push-Appends = λ s _. push_string-Appends s;
  pop-Reads = pop_string-Reads;
}

-- std::vector<uint8_t>
abbrev pub buffer : Codec (List ℕ)
buffer = record {
  blank = [];
  push = push_buffer;
  pop = λ _. pop_buffer;
  encode = string_bytes;
  IsValid = λ s. length s < 2 ^ 23;
  push-Appends = λ s _. push_buffer-Appends s;
  pop-Reads = pop_buffer-Reads;
}

-- std::pair
module _ {A B : Type 0} (a : Codec A) (b : Codec B) where
  unfoldable pub push_pair : A × B → Packer → Option Packer
  push_pair x p = do p ← a.push x.0 p; b.push x.1 p

  unfoldable pub pop_pair : A × B → Unpacker → Option ((A × B) × Unpacker)
  pop_pair old u = do (x, u) ← a.pop old.0 u; (y, u) ← b.pop old.1 u; some ((x, y), u)

  pub pop_pair-Reads :
      (x : A × B)
      → a.IsValid x.0 × b.IsValid x.1
      → Reads (pop_pair (a.blank, b.blank)) (a.encode x.0 ++ b.encode x.1) x
  unfolding pop_pair
  pop_pair-Reads x (h, k) =
      Reads-bind _ (a.pop-Reads x.0 h) (Reads-map (λ y. (x.0, y)) (b.pop-Reads x.1 k))

  pub push_pair-Appends :
      (x : A × B)
      → a.IsValid x.0 × b.IsValid x.1
      → Appends (push_pair x) (a.encode x.0 ++ b.encode x.1)
  unfolding push_pair
  push_pair-Appends x (h, k) = Appends-seq (a.push-Appends x.0 h) (b.push-Appends x.1 k)

  abbrev pub pair : Codec (A × B)
  pair = record {
    blank = (a.blank, b.blank);
    push = push_pair;
    pop = pop_pair;
    encode = λ x. a.encode x.0 ++ b.encode x.1;
    IsValid = λ x. a.IsValid x.0 × b.IsValid x.1;
    push-Appends = push_pair-Appends;
    pop-Reads = pop_pair-Reads;
  }
