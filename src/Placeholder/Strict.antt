-- ===== src/Placeholder/Strict.antt =====
-- src/mask/placeholder.rs, `placeholder_rx`: the strict pattern and the texts that hold a token.
use maskit_rs.Base.{
  ◌≡◌, ◌↔◌, sym, ap, ◌∙◌, true, [], ◌∷◌, ◌++◌, Text, ◌⊎◌, inl, inr, length, all, arith,
  append_assoc, append-nil, some,
}
use maskit_rs.Str.{Casing}
use maskit_rs.Regex.{is_match}
use maskit_rs.Regex.Laws.{Parse, both, left, right}
use maskit_rs.Regex.Match.{
  Reps-word, Parse-char, Parse-rep, seq_inv, alt_inv, rep_inv, char_inv, is_match-Parse,
  Parse-is_match,
}
use maskit_rs.Placeholder.{
  is_label_char, is_token_char, is_hex_char, suffix_pat, exact, format_token, placeholder_rx,
  parse_canonical,
}
use maskit_rs.Placeholder.Label.{IsLabel}
use maskit_rs.Placeholder.Format.{IsSuffix, token_label-format_token, token_suffix-format_token}

-- Six consonants, or six hexadecimal digits of the former form.
pub record IsStrictSuffix (sfx : Text) : Type 0 where
  pub six : length sfx ≡ 6
  pub chars : (all is_hex_char sfx ≡ true) ⊎ (all is_token_char sfx ≡ true)

-- A text with a token in it.
pub record HasToken (s : Text) : Type 0 where
  pub before : Text
  pub lab : Text
  pub sfx : Text
  pub after : Text
  pub spelled : s ≡ before ++ (format_token lab sfx ++ after)
  pub label : IsLabel lab
  pub suffix : IsStrictSuffix sfx

Parse-suffix : (sfx t : Text) → IsStrictSuffix sfx → Parse (suffix_pat exact) (sfx ++ t) t
Parse-suffix sfx t x = elim x.chars [
  | inl h ↦ left (Parse-rep is_hex_char 6 6 sfx t h (omega arith) (omega arith))
  | inr h ↦ right (Parse-rep is_token_char 6 6 sfx t h (omega arith) (omega arith))
]

suffix_inv :
    {s t : Text} → Parse (suffix_pat exact) s t → (sfx : Text) × (s ≡ sfx ++ t) × IsStrictSuffix sfx
suffix_inv x = elim (alt_inv x) [
  | inl y ↦
      let (w, q, h, k, m) = Reps-word is_hex_char (rep_inv y) in
      (w, q, record { six = omega arith; chars = inl h })
  | inr y ↦
      let (w, q, h, k, m) = Reps-word is_token_char (rep_inv y) in
      (w, q, record { six = omega arith; chars = inr h })
]

format_token-append :
    (lab sfx t : Text)
    → format_token lab sfx ++ t ≡ b'{' ∷ b'{' ∷ (lab ++ b'_' ∷ (sfx ++ b'}' ∷ b'}' ∷ t))
unfolding format_token
format_token-append lab sfx t = simp append_assoc

pub Parse-format_token :
    (lab sfx t : Text)
    → IsLabel lab
    → IsStrictSuffix sfx
    → Parse placeholder_rx (format_token lab sfx ++ t) t
unfolding placeholder_rx
Parse-format_token lab sfx t l x = rw (format_token-append lab sfx t) (
    both (Parse-char b'{' _) (
      both (Parse-char b'{' _) (
        both (Parse-rep is_label_char 1 12 lab _ l.chars l.nonempty l.bounded) (
          both (Parse-char b'_' _)
            (both (Parse-suffix sfx _ x) (both (Parse-char b'}' _) (Parse-char b'}' t)))))))

format_token-Parse :
    {b t : Text}
    → Parse placeholder_rx b t
    → (lab sfx : Text) × (b ≡ format_token lab sfx ++ t) × IsLabel lab × IsStrictSuffix sfx
unfolding placeholder_rx
format_token-Parse {b} {t} x =
    let (s1, x1, y1) = seq_inv x in
    let (s2, x2, y2) = seq_inv y1 in
    let (s3, x3, y3) = seq_inv y2 in
    let (s4, x4, y4) = seq_inv y3 in
    let (s5, x5, y5) = seq_inv y4 in
    let (s6, x6, y6) = seq_inv y5 in
    let (lab, q, h, k, m) = Reps-word is_label_char (rep_inv x3) in
    let (sfx, e, ok) = suffix_inv x5 in
    (
      lab,
      sfx,
      char_inv b'{' x1
          ∙ (ap (◌∷◌ b'{') (
                char_inv b'{' x2
                ∙ ap (◌∷◌ b'{') (
                    q
                    ∙ ap (◌++◌ lab) (
                        char_inv b'_' x4
                        ∙ ap (◌∷◌ b'_') (
                            e
                            ∙ ap (◌++◌ sfx)
                                (char_inv b'}' x6 ∙ ap (◌∷◌ b'}') (char_inv b'}' y6))))))
              ∙ sym (format_token-append lab sfx t)),
      record { nonempty = k; bounded = m; chars = h },
      ok,
    )

-- `placeholder_rx().is_match(s)` holds exactly when `s` holds, anywhere, a token: two braces, a
-- label, an underscore, a suffix of six hexadecimal digits or six consonants, two braces.
pub placeholder_rx-HasToken : (s : Text) → (is_match placeholder_rx s ≡ true) ↔ HasToken s
placeholder_rx-HasToken s = (to, from)
  where
    to : is_match placeholder_rx s ≡ true → HasToken s
    to h =
        let (p, b, t, q, x) = Parse-is_match placeholder_rx s h in
        let (lab, sfx, e, l, k) = format_token-Parse x in
        record {
          before = p;
          lab = lab;
          sfx = sfx;
          after = t;
          spelled = q ∙ ap (◌++◌ p) e;
          label = l;
          suffix = k;
        }

    from : HasToken s → is_match placeholder_rx s ≡ true
    from k =
        rw k.spelled
          (is_match-Parse k.before (Parse-format_token k.lab k.sfx k.after k.label k.suffix))

pub IsSuffix-IsStrictSuffix : {sfx : Text} → IsSuffix sfx → IsStrictSuffix sfx
IsSuffix-IsStrictSuffix x = record { six = x.six; chars = inr x.chars }

-- A token made from a label and six consonants is parsed into exactly these two.
pub parse_canonical-format_token :
    (u : Casing) (lab sfx : Text)
    → IsLabel lab
    → IsSuffix sfx
    → parse_canonical u (format_token lab sfx) ≡ some (lab, sfx)
unfolding parse_canonical
parse_canonical-format_token u lab sfx l x =
    rw (found, token_label-format_token lab sfx l x, token_suffix-format_token lab sfx l x u)
  where
    found : is_match placeholder_rx (format_token lab sfx) ≡ true
    found = (placeholder_rx-HasToken (format_token lab sfx)).1 (record {
      before = [];
      lab = lab;
      sfx = sfx;
      after = [];
      spelled = sym (append-nil (format_token lab sfx));
      label = l;
      suffix = IsSuffix-IsStrictSuffix x;
    })
