-- ===== src/Examples/Maps.antt =====
-- Unordered maps on the wire, at concrete values.
use turnserver_v.Base.{ℕ, ◌≡◌, refl, List, [], ◌∷◌, ◌++◌, some, length, arith}
use turnserver_v.Order.{number}
use turnserver_v.Wire.Packer.{Packer}
use turnserver_v.Wire.Packer
use turnserver_v.Wire.Packer.Written.{Written, Fits}
use turnserver_v.Wire.Packer.Pushes.{variable_bytes, init-Written}
use turnserver_v.Wire.Unpacker.{Unpacker, move}
use turnserver_v.Wire.Unpacker.Reads.{At}
use turnserver_v.Wire.Codec.{uint8, pair}
use turnserver_v.Wire.Containers.{push_container, encode_container, AllValid}
use turnserver_v.Wire.Unordered.{
  HashTable, find, or_else, pop_unordered_map, pop_unordered_map-push_container,
}

-- A table that puts new entries to the front.
abbrev front_table : HashTable number ℕ
front_table = record {
  place = λ k v m. (k, v) ∷ m;
  find-place = λ j k v m absent. unfold find in refl;
}

abbrev entries : List (ℕ × ℕ)
entries = (1, 10) ∷ (2, 20) ∷ (1, 30) ∷ []

abbrev there : List (ℕ × ℕ)
there = (2, 5) ∷ []

abbrev bytes : List ℕ
bytes = encode_container (pair uint8 uint8) entries

abbrev at_entries : Unpacker
at_entries = record { mem = bytes; length_ = length bytes; position_ = 0; warnings = 0 }

at_entries-At : At at_entries bytes
unfolding encode_container variable_bytes
at_entries-At = record {
  front = [];
  rest = [];
  mem_shape = refl;
  cursor = refl;
  inside = omega arith;
  small = omega arith;
}

entries-valid : AllValid (pair uint8 uint8) entries
entries-valid = (
  omega arith,
  ((omega arith, omega arith), ((omega arith, omega arith), ((omega arith, omega arith), tt))),
)

entries-Fits : Fits ([] ++ bytes)
unfolding encode_container variable_bytes
entries-Fits = omega arith

pop_unordered_map-push_container_example :
    (p : Packer) × (push_container (pair uint8 uint8) entries (Packer.init 64) ≡ some p)
    × Written p ([] ++ bytes)
    × (m : List (ℕ × ℕ)) × (pop_unordered_map number front_table uint8 uint8 there at_entries
        ≡ some (m, move (length bytes) at_entries))
    × (find number 1 m ≡ or_else (find number 1 there) (find number 1 entries))
pop_unordered_map-push_container_example =
    pop_unordered_map-push_container number front_table uint8 uint8 1 entries there (Packer.init 64)
      [] at_entries entries-valid (init-Written 64) entries-Fits at_entries-At
