-- ===== src/Regex.antt =====
-- The patterns of the source as data, and how the regex engine reads them: the ways in which a
-- pattern matches at the start of a text, in the engine's order of preference.
pub mod Laws
pub mod Match
use mathlib.Core.List.{flat_map, reverse}
use maskit_rs.Base.{
  ℕ, zero, suc, ◌+◌, ◌-◌, ◌≡◌, Bool, true, false, ◌&&◌, ◌||◌, Option, none, some, List, [], ◌∷◌,
  ◌++◌, map, Text, codes, ◌==◌, leb, within, if◌then◌else◌, length, take, any,
}
use maskit_rs.Str.{is_ascii_uppercase, is_ascii_lowercase, to_ascii_lowercase, to_ascii_uppercase}

pub data Rx : Type 0 where
  -- the empty pattern, and `$`
  eps : Rx
  eos : Rx
  -- `[class]{lo,hi}`, and `[class]*`
  rep : ℕ → ℕ → (ℕ → Bool) → Rx
  many : (ℕ → Bool) → Rx
  seq : Rx → Rx → Rx
  alt : Rx → Rx → Rx
  -- `(…)`
  group : Rx → Rx

-- `[class]`, a literal text, and `(?:r){1,3}`
abbrev pub one : (ℕ → Bool) → Rx
one p = rep 1 1 p

abbrev pub char : ℕ → Rx
char c = one (λ d. d == c)

abbrev pub opt_times : ℕ → Rx → Rx
opt_times zero r = eps
opt_times (suc n) r = alt (seq r (opt_times n r)) eps

abbrev pub times_1_3 : Rx → Rx
times_1_3 r = seq r (opt_times 2 r)

-- A class under `(?i)`: the simple case foldings, U+017F and U+212A among them.
unfoldable pub fold_case : (ℕ → Bool) → ℕ → Bool
unfolding to_ascii_lowercase to_ascii_uppercase
fold_case p c =
    p c
    || p (to_ascii_lowercase c)
    || p (to_ascii_uppercase c)
    || c == 0x17F && (p b's' || p b'S')
    || c == 0x212A && (p b'k' || p b'K')

-- The texts left behind a greedy repetition, the longest match first.
unfoldable pub rep_ends : ℕ → ℕ → (ℕ → Bool) → Text → List Text
rep_ends zero zero p s = s ∷ []
rep_ends (suc lo) zero p s = []
rep_ends zero (suc hi) p [] = [] ∷ []
rep_ends zero (suc hi) p (c ∷ s) =
    let more = rep_ends zero hi p s in if p c then more ++ (c ∷ s) ∷ [] else (c ∷ s) ∷ []
rep_ends (suc lo) (suc hi) p [] = []
rep_ends (suc lo) (suc hi) p (c ∷ s) = let more = rep_ends lo hi p s in if p c then more else []

unfoldable pub many_ends : (ℕ → Bool) → Text → List Text
many_ends p [] = [] ∷ []
many_ends p (c ∷ s) = let more = many_ends p s in if p c then more ++ (c ∷ s) ∷ [] else (c ∷ s) ∷ []

-- A match at the start of a text: what the groups hold, and the text behind the match.
abbrev pub Found : Type 0
Found = List Text × Text

-- Behind a first part that held `gs`.
abbrev pub join_groups : List Text → List Found → List Found
join_groups gs = map (λ f. (gs ++ f.0, f.1))

unfoldable pub ends : Rx → Text → List Found
unfolding rep_ends many_ends flat_map
ends eps s = ([], s) ∷ []
ends eos [] = ([], []) ∷ []
ends eos (c ∷ s) = []
ends (rep lo hi p) s = map (λ r. ([], r)) (rep_ends lo hi p s)
ends (many p) s = map (λ r. ([], r)) (many_ends p s)
ends (seq a b) s = flat_map (λ f. join_groups f.0 (ends b f.1)) (ends a s)
ends (alt a b) s = ends a s ++ ends b s
ends (group r) s = map (λ f. (take (length s - length f.1) s ∷ f.0, f.1)) (ends r s)

-- The preferred match at the start of a text, which is `captures` of a pattern that begins with `^`.
unfoldable pub match_here : Rx → Text → Option Found
unfolding ends
match_here r s = elim (ends r s) [ [] ↦ none | f ∷ _ ↦ some f ]

unfoldable pub matches_here : Rx → Text → Bool
unfolding match_here
matches_here r s = elim (match_here r s) [ none ↦ false | some _ ↦ true ]

-- `Regex::is_match`: at any place.
unfoldable pub is_match : Rx → Text → Bool
unfolding matches_here
is_match r [] = matches_here r []
is_match r (c ∷ s) = matches_here r (c ∷ s) || is_match r s

-- `Regex::find` and `Regex::captures`: the text before the first match, and the match.
unfoldable pub find : Rx → Text → Option (Text × Found)
unfolding match_here
find r [] = elim (match_here r []) [ none ↦ none | some f ↦ some ([], f) ]
find r (c ∷ s) =
    let later : Option (Text × Found) = elim (find r s) [
      | none ↦ none
      | some (before, f) ↦ some (c ∷ before, f)
    ] in
    elim (match_here r (c ∷ s)) [ none ↦ later | some f ↦ some ([], f) ]
