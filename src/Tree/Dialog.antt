-- ===== src/Tree/Dialog.antt =====
-- src/mask/tree.rs, `extract_model`, `collect_placeholder_tokens` and `extract_dialog_text`: what an
-- event keeps of a body.
pub mod Texts
use maskit_rs.Base.{
  ℕ, ◌+◌, Bool, true, false, ◌||◌, Option, none, some, Text, List, [], ◌∷◌, ◌++◌, codes, is_empty,
  length, take, ltb, leb, if◌then◌else◌, ◌>>=◌,
}
use maskit_rs.Base.Map.{text_eq}
use maskit_rs.Str.{trim}
use maskit_rs.Json.{
  Value, Values, Fields, null, bool, number, string, array, object, no_items, item, no_fields,
  field, as_str, get,
}
use maskit_rs.Placeholder.{placeholder_rx}
use maskit_rs.Engine.Matches.{Captures, captures_iter}

unfoldable pub extract_model : Value → Text
unfolding get
extract_model body = elim (do v ← get (codes "model") body; as_str v) [ none ↦ [] | some m ↦ m ]

abbrev pub wholes : List Captures → List Text
wholes [] = []
wholes (c ∷ cs) = c.whole ∷ wholes cs

unfoldable pub collect_placeholder_tokens : Text → List Text
unfolding captures_iter placeholder_rx
collect_placeholder_tokens text = let (cs, tail) = captures_iter placeholder_rx text in wholes cs

abbrev pub dialog_max_chars : ℕ
dialog_max_chars = 8000

unfoldable pub is_text_key : Text → Bool
unfolding text_eq
is_text_key k =
    text_eq k (codes "content")
    || text_eq k (codes "text")
    || text_eq k (codes "input")
    || text_eq k (codes "output_text")
    || text_eq k (codes "reasoning")
    || text_eq k (codes "thinking")

-- A string, on a line of its own.
unfoldable pub push_text : Text → Text → Text
unfolding trim
push_text out s = if is_empty (trim s) then out else if is_empty out then s else out ++ 0xA ∷ s

-- The walk has gone deep enough, or what it has is long enough; `limit` is `dialog_max_chars`.
unfoldable pub stops : ℕ → Text → ℕ → Bool
stops limit out depth = ltb 12 depth || leb limit (length out)

module _ (limit : ℕ) where
  unfoldable mutual
    unfolding stops push_text is_text_key

    pub collect : Value → Text → ℕ → Text
    collect null out depth = out
    collect (bool b) out depth = out
    collect (number n) out depth = out
    collect (string s) out depth = if stops limit out depth then out else push_text out s
    collect (array vs) out depth =
        let more = collect_items vs out (depth + 1) in if stops limit out depth then out else more
    collect (object fs) out depth =
        let more = collect_fields fs out (depth + 1) in if stops limit out depth then out else more

    pub collect_items : Values → Text → ℕ → Text
    collect_items no_items out depth = out
    collect_items (item v vs) out depth = collect_items vs (collect v out depth) depth

    -- the loop over an object, the same in `collect` and in `descend`
    pub collect_fields : Fields → Text → ℕ → Text
    collect_fields no_fields out depth = out
    collect_fields (field k v fs) out depth =
        let inside = collect v out depth in
        let below = descend v out depth in
        collect_fields fs (if is_text_key k then inside else below) depth

    pub descend : Value → Text → ℕ → Text
    descend null out depth = out
    descend (bool b) out depth = out
    descend (number n) out depth = out
    descend (string s) out depth = out
    descend (array vs) out depth =
        let more = descend_items vs out (depth + 1) in if stops limit out depth then out else more
    descend (object fs) out depth =
        let more = collect_fields fs out (depth + 1) in if stops limit out depth then out else more

    pub descend_items : Values → Text → ℕ → Text
    descend_items no_items out depth = out
    descend_items (item v vs) out depth = descend_items vs (descend v out depth) depth

abbrev pub cut_mark : Text
cut_mark = 0xA ∷ codes "…（已截断，原文更长）"

unfoldable pub cut_dialog : Text → Text
cut_dialog out =
    if ltb dialog_max_chars (length out) then take dialog_max_chars out ++ cut_mark else out

unfoldable pub extract_dialog_text : Value → Text
unfolding descend cut_dialog
extract_dialog_text v = cut_dialog (descend dialog_max_chars v [] 0)
