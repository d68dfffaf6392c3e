-- ===== src/Validators/Email.antt =====
-- src/mask/validators.rs, `email_ok`: mail addresses.
use maskit_rs.Base.{
  ◌-◌, Bool, true, false, not, ◌&&◌, ◌||◌, List, [], ◌∷◌, map, Text, codes, contains, ltb, ◌==◌,
  if◌then◌else◌, length, take, all, any, is_empty, get_or,
}
use maskit_rs.Str.{
  is_ascii_digit, to_ascii_lowercase, trim, byte_len, starts_with, ends_with, contains_str, split,
}

unfoldable pub email_file_exts : List Text
email_file_exts = map codes (
    "patch" ∷ "diff" ∷ "tgz" ∷ "whl" ∷ "lock" ∷ "tar" ∷ "gz" ∷ "bz2" ∷ "xz" ∷ "zst" ∷ "rar" ∷ "7z"
    ∷ "rpm" ∷ "deb" ∷ "msi" ∷ "exe" ∷ "dll" ∷ "dylib" ∷ "jar" ∷ "war" ∷ "class" ∷ "rb" ∷ "js" ∷ "ts"
    ∷ "jsx" ∷ "tsx" ∷ "css" ∷ "scss" ∷ "less" ∷ "html" ∷ "htm" ∷ "xml" ∷ "json" ∷ "yml" ∷ "yaml"
    ∷ "toml" ∷ "ini" ∷ "cfg" ∷ "conf" ∷ "txt" ∷ "csv" ∷ "log" ∷ "sql" ∷ "png" ∷ "jpg" ∷ "jpeg"
    ∷ "gif" ∷ "bmp" ∷ "webp" ∷ "svg" ∷ "ico" ∷ "pdf" ∷ "woff" ∷ "woff2" ∷ "ttf" ∷ "otf" ∷ "eot"
    ∷ "mp3" ∷ "mp4" ∷ "avi" ∷ "mkv" ∷ "wav" ∷ "flac" ∷ "swp" ∷ "tmp" ∷ "bak" ∷ "orig" ∷ "rej"
    ∷ "min" ∷ [])

unfoldable pub version_like_domain : Text → Bool
unfolding split
version_like_domain domain =
    let labels = split b'.' domain in
    if ltb (length labels) 3
    then false
    else all (λ l. not (is_empty l) && all is_ascii_digit l) (take (length labels - 1) labels)

-- `domain.rsplit('.').next()`: the last part
unfoldable pub tld_of : Text → Text
unfolding split
tld_of domain = let labels = split b'.' domain in get_or labels (length labels - 1) []

unfoldable pub address_ok : Text → Text → Bool
unfolding version_like_domain tld_of
address_ok local domain =
    if is_empty local || ltb (byte_len domain) 3 || not (any (λ c. c == b'.') domain)
    then false
    else if starts_with (codes ".") local
        || ends_with (codes ".") local
        || contains_str (codes "..") local
        || contains_str (codes "..") domain
    then false
    else if ltb (byte_len (tld_of domain)) 2
    then false
    else if version_like_domain domain
    then false
    else if contains email_file_exts (map to_ascii_lowercase (tld_of domain))
    then false
    else true

unfoldable pub email_ok : Text → Bool
unfolding address_ok split
email_ok email_str =
    let s = trim email_str in
    if not (any (λ c. c == b'@') s) || starts_with (codes "@") s || ends_with (codes "@") s
    then false
    else elim (split b'@' s) [ local ∷ domain ∷ [] ↦ address_ok local domain | _ ↦ false ]
