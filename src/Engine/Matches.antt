-- ===== src/Engine/Matches.antt =====
-- `captures_iter` of the regex crate over the patterns of src/mask/placeholder.rs, whose matches are
-- never empty.
use maskit_rs.Base.{ℕ, zero, suc, ◌-◌, none, some, Text, List, [], ◌∷◌, ◌++◌, length, take, drop}
use maskit_rs.Regex.{Rx, Found, find}

-- A match: the text behind the match before it, the match, its groups, and all that stands before it.
pub record Captures : Type 0 where
  pub before : Text
  pub whole : Text
  pub groups : List Text
  pub prefix : Text

unfoldable pub capture : Text → Text → Text × Found → Captures
capture prefix s (before, f) = record {
  before = before;
  whole = take (length s - length before - length f.1) (drop (length before) s);
  groups = f.0;
  prefix = prefix ++ before;
}

-- With fuel for the characters: the matches, and the text behind the last one.
unfoldable pub captures_from : ℕ → Rx → Text → Text → List Captures × Text
unfolding capture
captures_from zero rx prefix s = ([], s)
captures_from (suc fuel) rx prefix s = elim (find rx s) [
  | none ↦ ([], s)
  | some (before, f) ↦
      let c = capture prefix s (before, f) in
      let (cs, tail) = captures_from fuel rx (c.prefix ++ c.whole) f.1 in (c ∷ cs, tail)
]

unfoldable pub captures_iter : Rx → Text → List Captures × Text
unfolding captures_from
captures_iter rx text = captures_from (length text) rx [] text
