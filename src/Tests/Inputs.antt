-- ===== src/Tests/Inputs.antt =====
-- Values for the parameters of the model: the case tables, the random draws, the hash.
use maskit_rs.Base.{
  ℕ, suc, ◌+◌, ◌*◌, ◌%◌, ◌<◌, ◌≡◌, refl, List, [], ◌∷◌, map, length, replicate, arith,
  length-replicate,
}
use maskit_rs.Str.{Casing, to_ascii_uppercase, to_ascii_lowercase}
use maskit_rs.Placeholder.{Draws, Sha256}

abbrev pub casing : Casing
casing = record {
  to_uppercase = map to_ascii_uppercase;
  to_lowercase = map to_ascii_lowercase;
  upper_ascii = λ s h. refl;
  lower_ascii = λ s h. refl;
}

pub draw : ℕ → ℕ → ℕ → ℕ
draw n i j = (7 * i + 3 * j) % n

pub draw_lt : (n i j : ℕ) → draw (suc n) i j < suc n
unfolding draw
draw_lt n i j = grind arith

abbrev pub draws : Draws
draws = record { gen_range = λ n i j. draw n i j; gen_range_lt = draw_lt }

byte_sum : List ℕ → ℕ
byte_sum [] = 0
byte_sum (b ∷ bs) = b + byte_sum bs

unfoldable pub digest : List ℕ → List ℕ
unfolding byte_sum
digest bytes = replicate 32 (byte_sum bytes)

pub length-digest : (bytes : List ℕ) → length (digest bytes) ≡ 32
unfolding digest
length-digest bytes = length-replicate 32 (byte_sum bytes)

abbrev pub sha256 : Sha256
sha256 = record { digest = digest; length-digest = length-digest }
