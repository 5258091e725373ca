-- ===== src/Order/Lists.antt =====
-- The comparison of two sequences of the standard library, element by element: `std::string`, whose
-- sequence compare as unsigned bytes.
use turnserver_v.Order.{Ordered}
use turnserver_v.Base.{
  ℕ, Bool, true, false, ◌&&◌, ◌||◌, List, [], ◌∷◌, ◌≡◌, refl, ◌↔◌, ◌==◌, ltb, arith,
}

abbrev pub equal : List ℕ → List ℕ → Bool
equal [] [] = true
equal [] (y ∷ ys) = false
equal (x ∷ xs) [] = false
equal (x ∷ xs) (y ∷ ys) = (x == y) && equal xs ys

abbrev pub less : List ℕ → List ℕ → Bool
less [] [] = false
less [] (y ∷ ys) = true
less (x ∷ xs) [] = false
less (x ∷ xs) (y ∷ ys) = ltb x y || ((x == y) && less xs ys)

equal_refl : (a : List ℕ) → equal a a ≡ true
equal_refl [] = refl
equal_refl (x ∷ xs) = ground (arith, equal_refl xs)

eq_of_equal : (a b : List ℕ) → equal a b ≡ true → a ≡ b
eq_of_equal [] [] h = refl
eq_of_equal [] (y ∷ ys) h = cc
eq_of_equal (x ∷ xs) [] h = cc
eq_of_equal (x ∷ xs) (y ∷ ys) h = ground (arith, eq_of_equal xs ys)

pub equal_iff : (a b : List ℕ) → (equal a b ≡ true) ↔ (a ≡ b)
equal_iff a b = (eq_of_equal a b, λ e. rw e (equal_refl b))

pub less_irrefl : (a : List ℕ) → less a a ≡ false
less_irrefl [] = refl
less_irrefl (x ∷ xs) = ground (arith, less_irrefl xs)

pub less_trans : (a b c : List ℕ) → less a b ≡ true → less b c ≡ true → less a c ≡ true
less_trans [] [] c h k = cc
less_trans [] (y ∷ ys) [] h k = cc
less_trans [] (y ∷ ys) (z ∷ zs) h k = refl
less_trans (x ∷ xs) [] c h k = cc
less_trans (x ∷ xs) (y ∷ ys) [] h k = cc
less_trans (x ∷ xs) (y ∷ ys) (z ∷ zs) h k = ground (arith, less_trans xs ys zs)

pub less_total : (a b : List ℕ) → equal a b ≡ false → less a b ≡ false → less b a ≡ true
less_total [] [] h k = cc
less_total [] (y ∷ ys) h k = cc
less_total (x ∷ xs) [] h k = refl
less_total (x ∷ xs) (y ∷ ys) h k = ground (arith, less_total xs ys)

-- std::string by its bytes, and a vector of integers.
abbrev pub sequence : Ordered (List ℕ)
sequence = record {
  equal = equal;
  less = less;
  equal_iff = equal_iff;
  less_irrefl = less_irrefl;
  less_trans = less_trans;
  less_total = less_total;
}
