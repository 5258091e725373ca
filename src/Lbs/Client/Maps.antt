-- ===== src/Lbs/Client/Maps.antt =====
-- An unordered_map from numbers.
use turnserver_v.Base.{ℕ, ◌≡◌, refl, List, [], ◌∷◌, Option, none, some, ◌==◌, if◌then◌else◌, arith}

unfoldable pub find {ℓ} : {V : Type ℓ} → ℕ → List (ℕ × V) → Option V
find k [] = none
find k ((j, v) ∷ m) = if j == k then some v else find k m

-- m[k] = v
unfoldable pub put {ℓ} : {V : Type ℓ} → ℕ → V → List (ℕ × V) → List (ℕ × V)
put k v [] = (k, v) ∷ []
put k v ((j, w) ∷ m) = let rest = put k v m in if j == k then (j, v) ∷ m else (j, w) ∷ rest

-- What is found after a write.
pub find-put {ℓ} :
    {V : Type ℓ} (i k : ℕ) (v : V) (m : List (ℕ × V))
    → find i (put k v m) ≡ (if k == i then some v else find i m)
unfolding find put
find-put i k v [] = refl
find-put i k v ((j, w) ∷ m) = ground (arith, find-put i k v m)
