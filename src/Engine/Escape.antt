-- ===== src/Engine/Escape.antt =====
-- src/mask/engine.rs, `json_escape_str` and `apply_escape`.
use maskit_rs.Base.{ℕ, Bool, Text, [], ◌∷◌, ◌++◌, ltb, ◌==◌, if◌then◌else◌}
use maskit_rs.Tree.Literal.{u_escape}

unfoldable pub escape_char : ℕ → Text
unfolding u_escape
escape_char c =
    if c == b'"'
    then b'\\' ∷ b'"' ∷ []
    else if c == b'\\'
    then b'\\' ∷ b'\\' ∷ []
    else if c == 0xA
    then b'\\' ∷ b'n' ∷ []
    else if c == 0xD
    then b'\\' ∷ b'r' ∷ []
    else if c == 0x9
    then b'\\' ∷ b't' ∷ []
    else if ltb c 0x20
    then u_escape c
    else c ∷ []

unfoldable pub json_escape_str : Text → Text
unfolding escape_char
json_escape_str [] = []
json_escape_str (c ∷ s) = escape_char c ++ json_escape_str s

unfoldable pub apply_escape : Text → Bool → Text
unfolding json_escape_str
apply_escape orig escape = if escape then json_escape_str orig else orig
