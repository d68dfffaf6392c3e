-- ===== src/Validators/Weighted.antt =====
-- Weighted sums of digits, which the check characters of identity cards and of credit codes stand on.
use maskit_rs.Base.{
  Bool, true, ◌&&◌, ◌==◌, ◌<◌, suc, zero, ℕ, ◌+◌, ◌*◌, ◌≡◌, List, map, [], ◌∷◌, ◌++◌, length,
  get_or, arith,
}

unfoldable pub weighted : List ℕ → List ℕ → ℕ
weighted [] vs = 0
weighted (w ∷ ws) [] = 0
weighted (w ∷ ws) (v ∷ vs) = w * v + weighted ws vs

-- One value changed moves the sum by its weight.
pub weighted-map :
    (f : ℕ → ℕ) (ws pre post : List ℕ) (a b : ℕ)
    → weighted ws (map f (pre ++ a ∷ post)) + get_or ws (length pre) 0 * f b
      ≡ weighted ws (map f (pre ++ b ∷ post)) + get_or ws (length pre) 0 * f a
unfolding weighted
weighted-map f [] pre post a b = omega arith
weighted-map f (w ∷ ws) [] post a b = omega arith
weighted-map f (w ∷ ws) (v ∷ pre) post a b = omega (arith, weighted-map f ws pre post a b)

-- Every character of a table stands at the place that `f` says, from the place `i` on.
unfoldable pub places : (ℕ → ℕ) → ℕ → List ℕ → Bool
places f i [] = true
places f i (c ∷ cs) = f c == i && places f (suc i) cs

pub place_of :
    (f : ℕ → ℕ) (cs : List ℕ) (k i : ℕ)
    → places f k cs ≡ true
    → i < length cs
    → f (get_or cs i 0) ≡ k + i
unfolding places
place_of f [] k i h l = absurd (omega arith)
place_of f (c ∷ cs) k zero h l = ground arith
place_of f (c ∷ cs) k (suc i) h l = ground (arith, place_of f cs (suc k) i)
