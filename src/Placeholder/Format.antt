-- ===== src/Placeholder/Format.antt =====
-- src/mask/placeholder.rs, the form of a token and the readers of its label and suffix.
use maskit_rs.Base.{◌≡◌, true, ◌∷◌, ◌++◌, Text, some, length, all, arith, refl, all-append}
use maskit_rs.Str.{Casing, is_whitespace}
use maskit_rs.Str.Laws.{
  strip_prefix-append, strip_suffix-append, trim-all, rsplit_once-append, byte_len_ascii,
}
use maskit_rs.Placeholder.{
  is_token_char, format_token, token_body, token_label, token_suffix, suffix_indexable, open_braces,
  close_braces,
}
use maskit_rs.Placeholder.Label.{
  IsLabel, not_space, label-not_space, suffix-not_space, suffix-not_underscore, suffix-is_ascii,
  to_lowercase-suffix,
}

-- What the suffix of a token is.
pub record IsSuffix (sfx : Text) : Type 0 where
  pub six : length sfx ≡ 6
  pub chars : all is_token_char sfx ≡ true

underscore-not_space : not_space b'_' ≡ true
unfolding is_whitespace
underscore-not_space = refl

module _ (lab sfx : Text) (l : IsLabel lab) (x : IsSuffix sfx) where
  body-not_space : all not_space (lab ++ b'_' ∷ sfx) ≡ true
  body-not_space =
      rw (all-append not_space lab (b'_' ∷ sfx), label-not_space lab l.chars, underscore-not_space)
        (suffix-not_space sfx x.chars)

  pub token_body-format_token : token_body (format_token lab sfx) ≡ some (lab ++ b'_' ∷ sfx)
  unfolding token_body format_token
  token_body-format_token = rw (
    strip_prefix-append open_braces ((lab ++ b'_' ∷ sfx) ++ close_braces),
    strip_suffix-append close_braces (lab ++ b'_' ∷ sfx),
    trim-all (lab ++ b'_' ∷ sfx) body-not_space,
  )

  pub token_label-format_token : token_label (format_token lab sfx) ≡ lab
  unfolding token_label
  token_label-format_token = rw (
    token_body-format_token,
    token_label,
    rsplit_once-append b'_' lab sfx (suffix-not_underscore sfx x.chars),
  )

  pub token_suffix-format_token : (u : Casing) → token_suffix u (format_token lab sfx) ≡ sfx
  unfolding token_suffix
  token_suffix-format_token u =
      rw
        (
          token_body-format_token,
          token_suffix,
          rsplit_once-append b'_' lab sfx (suffix-not_underscore sfx x.chars),
        )
        (to_lowercase-suffix sfx x.chars u)

pub suffix_indexable-IsSuffix : (sfx : Text) → IsSuffix sfx → suffix_indexable sfx ≡ true
unfolding suffix_indexable
suffix_indexable-IsSuffix sfx x =
    ground (arith, byte_len_ascii sfx (suffix-is_ascii sfx x.chars), x.six, x.chars)
