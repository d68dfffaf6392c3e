-- ===== src/Tree/Body/Splice.antt =====
-- src/mask/tree.rs, `splice_mask`: the table of replacements and the splicing of bytes.
use mathlib.Core.List.{flat_map}
use maskit_rs.Base.{
  ℕ, ◌-◌, ◌*◌, ◌^◌, Bool, true, false, ◌||◌, Text, List, [], ◌∷◌, ◌++◌, is_empty, length, take,
  drop, get_or, leb, if◌then◌else◌,
}
use maskit_rs.Base.Map.{text_eq}
use maskit_rs.Tree.Literal.{json_string_literal}

-- A match of `find_iter`: where it starts and ends, and which pattern matches.
pub record Hit : Type 0 where
  pub start : ℕ
  pub end : ℕ
  pub pattern_index : ℕ

abbrev pub splice_max : ℕ
splice_max = 8 * 2 ^ 20

abbrev pub splice_max_forms : ℕ
splice_max_forms = 128

-- The forms of one replacement, with and without ASCII escapes, where they differ.
unfoldable pub splice_form : Text → Text → Bool → List (List ℕ × List ℕ)
splice_form orig tok ascii_esc =
    let lit = json_string_literal orig ascii_esc in
    let repl = json_string_literal tok ascii_esc in
    if text_eq lit repl then [] else (lit, repl) ∷ []

unfoldable pub splice_forms : Text × Text → List (List ℕ × List ℕ)
unfolding splice_form
splice_forms (orig, tok) =
    if is_empty orig || is_empty tok || text_eq orig tok
    then []
    else splice_form orig tok false ++ splice_form orig tok true

-- `sort_by_key(Reverse(len))`, which is stable
unfoldable pub insert_form : List ℕ × List ℕ → List (List ℕ × List ℕ) → List (List ℕ × List ℕ)
insert_form e [] = e ∷ []
insert_form e (d ∷ ds) =
    let rest = insert_form e ds in if leb (length d.0) (length e.0) then e ∷ d ∷ ds else d ∷ rest

unfoldable pub sort_forms : List (List ℕ × List ℕ) → List (List ℕ × List ℕ)
unfolding insert_form
sort_forms [] = []
sort_forms (e ∷ es) = insert_form e (sort_forms es)

-- The loop over the matches; what is left of the bytes starts at `last`.
unfoldable pub splice_hits : List (List ℕ × List ℕ) → ℕ → List Hit → List ℕ → List ℕ
splice_hits table last [] raw = raw
splice_hits table last (m ∷ ms) raw =
    take (m.start - last) raw
    ++ (get_or table m.pattern_index ([], [])).1
    ++ splice_hits table m.end ms (drop (m.end - last) raw)

unfoldable pub splice_table : List (Text × Text) → List (List ℕ × List ℕ)
unfolding splice_forms flat_map
splice_table pairs = flat_map splice_forms pairs

abbrev pub key_of : List ℕ × List ℕ → List ℕ
key_of e = e.0

abbrev pub forms_keys : List (List ℕ × List ℕ) → List (List ℕ)
forms_keys [] = []
forms_keys (e ∷ es) = key_of e ∷ forms_keys es
