-- ===== src/Wire/Signed.antt =====
-- base/packer.h and base/unpacker.h: operator<< and operator>> of the signed integers and of char,
-- which go through the unsigned integer of the same size.
use turnserver_v.Base.{
  ℕ, ◌+◌, ◌-◌, ◌*◌, ◌^◌, ◌<◌, ◌≡◌, subst, List, Option, some, ◌>>=◌, ltb, if◌then◌else◌, arith,
}
use turnserver_v.Wire.Packer.{Packer}
use turnserver_v.Wire.Packer.Written.{Appends}
use turnserver_v.Wire.Unpacker.{Unpacker}
use turnserver_v.Wire.Unpacker.Reads.{Reads, Reads-map}
use turnserver_v.Wire.Codec.{Codec, uint8, uint16, uint32, uint64}

pub data ℤ : Type 0 where
  pos : ℕ → ℤ
  negsuc : ℕ → ℤ

-- An integer of the type, which holds `half` numbers below zero and as many from zero on.
abbrev pub IsInt : ℕ → ℤ → Type 0
IsInt half (pos n) = n < half
IsInt half (negsuc n) = n < half

-- static_cast to the unsigned type, and back.
unfoldable pub to_unsigned : ℕ → ℤ → ℕ
to_unsigned half (pos n) = n
to_unsigned half (negsuc n) = 2 * half - (n + 1)

unfoldable pub to_signed : ℕ → ℕ → ℤ
to_signed half n = if ltb n half then pos n else negsuc (2 * half - (n + 1))

to_unsigned_bounded : (half : ℕ) (z : ℤ) → IsInt half z → to_unsigned half z < 2 * half
unfolding to_unsigned
to_unsigned_bounded half (pos n) h = omega (arith, h)
to_unsigned_bounded half (negsuc n) h = omega (arith, h)

to_signed-to_unsigned : (half : ℕ) (z : ℤ) → IsInt half z → to_signed half (to_unsigned half z) ≡ z
unfolding to_unsigned to_signed
to_signed-to_unsigned half (pos n) h = ground arith
to_signed-to_unsigned half (negsuc n) h = ground arith

module _ (half : ℕ) (c : Codec ℕ) (holds : (n : ℕ) → n < 2 * half → c.IsValid n) where
  unfoldable pub push_signed : ℤ → Packer → Option Packer
  push_signed z p = c.push (to_unsigned half z) p

  unfoldable pub pop_signed : ℤ → Unpacker → Option (ℤ × Unpacker)
  pop_signed old u = do (n, u) ← c.pop c.blank u; some (to_signed half n, u)

  abbrev pub encode_signed : ℤ → List ℕ
  encode_signed z = c.encode (to_unsigned half z)

  pub push_signed-Appends : (z : ℤ) → IsInt half z → Appends (push_signed z) (encode_signed z)
  unfolding push_signed
  push_signed-Appends z h =
      c.push-Appends (to_unsigned half z)
        (holds (to_unsigned half z) (to_unsigned_bounded half z h))

  pub pop_signed-Reads : (old z : ℤ) → IsInt half z → Reads (pop_signed old) (encode_signed z) z
  unfolding pop_signed
  pop_signed-Reads old z h =
      subst (Reads (pop_signed old) (encode_signed z)) (to_signed-to_unsigned half z h) (
        Reads-map (to_signed half) (
          c.pop-Reads (to_unsigned half z)
            (holds (to_unsigned half z) (to_unsigned_bounded half z h))))

  abbrev pub signed : Codec ℤ
  signed = record {
    blank = pos 0;
    push = push_signed;
    pop = pop_signed;
    encode = encode_signed;
    IsValid = IsInt half;
    push-Appends = push_signed-Appends;
    pop-Reads = pop_signed-Reads (pos 0);
  }

-- int8_t, and char where it is signed
abbrev int8 : Codec ℤ
int8 = signed (2 ^ 7) uint8 (λ n h. omega (arith, h))

abbrev int16 : Codec ℤ
int16 = signed (2 ^ 15) uint16 (λ n h. omega (arith, h))

abbrev int32 : Codec ℤ
int32 = signed (2 ^ 31) uint32 (λ n h. omega (arith, h))

abbrev int64 : Codec ℤ
int64 = signed (2 ^ 63) uint64 (λ n h. omega (arith, h))
