-- ===== src/Stream/Sse.antt =====
-- src/stream/sse.rs: bytes become text across chunks, and a text that may end within a token waits
-- for the next event of its channel.
pub mod Bytes
pub mod Chunks
pub mod Hold
use mathlib.Core.List.{reverse}
use maskit_rs.Base.{
  ◌≡◌, ℕ, zero, suc, ◌+◌, ◌-◌, ◌*◌, ◌/◌, ◌%◌, Bool, true, false, not, ◌&&◌, Option, none, some,
  List, [], ◌∷◌, ◌++◌, Text, is_empty, leb, ltb, within, ◌||◌, ◌==◌, if◌then◌else◌, all, length,
  take, drop, replicate,
}
use Prim.Native.Nat.{min}
use maskit_rs.Base.Map.{lookup, insert, remove}
use maskit_rs.Str.{as_bytes, utf8, byte_len}
use maskit_rs.Regex.{find, Found}
use maskit_rs.Placeholder.{partial_rx, partial_max}

-- `String::from_utf8_lossy`, of which only the reading of valid UTF-8 is used.
-- The code points of a `char`: no surrogate, below the limit of Unicode.
abbrev pub is_char : ℕ → Bool
is_char c = not (within 0xD800 0xDFFF c || leb 0x110000 c)

pub record Lossy : Type 0 where
  pub from_utf8_lossy : List ℕ → Text
  pub valid : (s : Text) → all is_char s ≡ true → from_utf8_lossy (as_bytes s) ≡ s

-- The length of a sequence by its first byte; none for a continuation byte.
unfoldable pub need : ℕ → Option ℕ
need b =
    if b / 32 == 0b110
    then some 2
    else if b / 16 == 0b1110
    then some 3
    else if b / 8 == 0b11110
    then some 4
    else none

-- The loop of `decode_chunk` from the last byte back: how many bytes wait for the next chunk.
unfoldable pub held_bytes : ℕ → ℕ → List ℕ → ℕ
held_bytes zero back bytes = 0
held_bytes (suc more) back [] = 0
held_bytes (suc more) back (b ∷ bytes) =
    let further = held_bytes more (back + 1) bytes in
    if b / 128 % 2 == 0
    then 0
    else elim (need b) [ none ↦ further | some n ↦ if ltb back n then back else 0 ]

-- `cut`
unfoldable pub cut : List ℕ → ℕ
cut bytes = length bytes - held_bytes (min 3 (length bytes)) 1 (reverse bytes)

-- The text of a chunk, and the bytes that wait.
unfoldable pub decode_chunk : Lossy → List ℕ → List ℕ → Text × List ℕ
decode_chunk l utf8_tail chunk =
    let bytes = utf8_tail ++ chunk in
    (l.from_utf8_lossy (take (cut bytes) bytes), drop (cut bytes) bytes)

-- The held texts of the channels.
abbrev pub Pending : Type 0
Pending = List (Text × Text)

-- `pending.get(channel).cloned().unwrap_or_default()`
unfoldable pub pending_text : Text → Pending → Text
pending_text channel pending = elim (lookup channel pending) [ none ↦ [] | some t ↦ t ]

-- The text that is confirmed, and the end of it, if any, that may be the beginning of a token.
unfoldable pub split_partial : Text → Text × Option Text
split_partial buf = elim (find partial_rx buf) [
  | none ↦ (buf, none)
  | some (before, f) ↦
      let keep = drop (length before) buf in
      if is_empty f.1 && leb (byte_len keep) partial_max then (before, some keep) else (buf, none)
]

unfoldable pub hold : Text → Option Text → Pending → Pending
hold channel none pending = remove channel pending
hold channel (some keep) pending = insert channel keep pending

-- The first half of `restore_channel`: what goes to the restorer, and what is held.
unfoldable pub confirm : Text → Bool → Text → Pending → Text × Pending
confirm channel final_channel text pending =
    let buf = pending_text channel pending ++ text in
    if final_channel
    then (buf, remove channel pending)
    else let (confirmed, keep) = split_partial buf in (confirmed, hold channel keep pending)
