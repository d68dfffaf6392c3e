-- ===== src/Engine.antt =====
-- src/mask/engine.rs: the restoring of a text, in three passes over the forms of a token.
pub mod Escape
pub mod Embedded
pub mod Matches
pub mod Token
pub mod Find
pub mod Pass
pub mod Restored
pub mod Gate
use maskit_rs.Base.{
  ℕ, ◌+◌, Bool, true, false, not, ◌&&◌, ◌||◌, Option, none, some, Text, List, [], ◌∷◌, ◌++◌, codes,
  contains, is_empty, length, any, get_or, ltb, ◌==◌, if◌then◌else◌,
}
use maskit_rs.Base.Map.{text_eq, lookup}
use maskit_rs.Str.{Casing, trim, trim_start_matches, trim_end_matches, starts_with, ends_with}
use maskit_rs.Regex.{Rx, is_match}
use maskit_rs.Placeholder.{
  canonicalize, placeholder_rx, braced_placeholder_rx, escaped_placeholder_rx, loose_placeholder_rx,
}
use maskit_rs.Store.{SessionStore, suffix_real_token}
use maskit_rs.Store.Recall.{remember_rev}
use maskit_rs.Store.Resolve.{lookup_token}
use Escape.{apply_escape}
use Matches.{Captures, captures_iter}

pub record RestoreStats : Type 0 where
  pub restored : ℕ
  pub unresolved : ℕ
  pub degraded : ℕ
  pub samples : List Text

-- The statistics, beside the store.
pub record Restoring (S : Type 0) : Type 0 where
  pub stats : RestoreStats
  pub store : S

-- A token is replaced, from a form of its own or not.
unfoldable pub count_restored : Bool → RestoreStats → RestoreStats
count_restored degraded s = record s {
  restored = s.restored + 1;
  degraded = if degraded then s.degraded + 1 else s.degraded;
}

-- A token is not known: at most five samples, none twice.
unfoldable pub count_missing : Text → RestoreStats → RestoreStats
count_missing whole s = record s {
  unresolved = s.unresolved + 1;
  samples =
      if ltb (length s.samples) 5 && not (contains s.samples whole)
      then s.samples ++ whole ∷ []
      else s.samples;
}

-- In the second pass a sample may come twice, and a form without a backslash does not count.
unfoldable pub count_escaped : Text → RestoreStats → RestoreStats
count_escaped whole s =
    if any (λ c. c == b'\\') whole
    then record s {
      unresolved = s.unresolved + 1;
      samples = if ltb (length s.samples) 5 then s.samples ++ whole ∷ [] else s.samples;
    }
    else s

-- What a request restores with: its session, the time, the database behind the hook, the case tables
-- and the test of src/mask/blob.rs.
pub record RestoreEnv : Type 0 where
  pub sid : Text
  pub now : ℕ
  pub rev_db_lookup : Text → Option (Text × Text)
  pub casing : Casing
  pub is_skippable_str : Text → Bool

abbrev is_brace : ℕ → Bool
is_brace c = c == b'{' || c == b'}'

-- The form under which the database knows a token.
unfoldable pub db_token : Text → Option Text
db_token token =
    if is_match placeholder_rx token
    then some token
    else (let inner = trim (trim_end_matches is_brace (trim_start_matches is_brace token)) in
        if is_empty inner then none else some (codes "{{" ++ inner ++ codes "}}"))

module _ (env : RestoreEnv) where
  -- A token that the memory does not know comes from the database and is remembered.
  unfoldable pub from_db : Option Text → SessionStore → Option Text × SessionStore
  from_db none st = (none, st)
  from_db (some canon) st = elim (env.rev_db_lookup canon) [
    | none ↦ (none, st)
    | some (orig, label) ↦ (some orig, remember_rev env.casing canon orig label env.now st)
  ]

  unfoldable pub lookup_with_db : Text → SessionStore → Option Text × SessionStore
  unfolding from_db db_token
  lookup_with_db token st =
      let (hit, st') = lookup_token env.sid env.now token st in
      elim hit [ some o ↦ (some o, st') | none ↦ from_db (db_token token) st' ]

  unfoldable pub canon_of : Captures → Text
  canon_of c = canonicalize env.casing (get_or c.groups 0 []) (get_or c.groups 1 [])

  -- What stands in the place of a match, by what the look-up gives.
  unfoldable pub replace :
      Bool
      → Bool
      → (Text → RestoreStats → RestoreStats)
      → Captures
      → Option Text × SessionStore
      → RestoreStats
      → Text × Restoring SessionStore
  unfolding apply_escape count_restored
  replace escape degraded missing c (some o, st) s =
      (apply_escape o escape, record { stats = count_restored degraded s; store = st })
  replace escape degraded missing c (none, st) s =
      (c.whole, record { stats = missing c.whole s; store = st })

  -- The first pass, and the second.
  unfoldable pub replace_braced :
      Bool → Captures → Restoring SessionStore → Text × Restoring SessionStore
  unfolding replace canon_of
  replace_braced escape c r =
      replace escape (not (text_eq c.whole (canon_of c))) count_missing c
        (lookup_with_db (canon_of c) r.store) r.stats

  unfoldable pub replace_escaped :
      Bool → Captures → Restoring SessionStore → Text × Restoring SessionStore
  unfolding replace canon_of
  replace_escaped escape c r =
      replace escape true count_escaped c (lookup_with_db (canon_of c) r.store) r.stats

  -- The text between the matches stays.
  unfoldable pub replace_all :
      (Captures → Restoring SessionStore → Text × Restoring SessionStore)
      → List Captures
      → Text
      → Restoring SessionStore
      → Text × Restoring SessionStore
  replace_all f [] tail r = (tail, r)
  replace_all f (c ∷ cs) tail r =
      let (piece, r') = f c r in
      let (out, r'') = replace_all f cs tail r' in (c.before ++ (piece ++ out), r'')

  unfoldable pub restore_pass : Text → Bool → Restoring SessionStore → Text × Restoring SessionStore
  unfolding replace_all captures_iter
  restore_pass text escape r =
      let (cs, tail) = captures_iter braced_placeholder_rx text in
      replace_all (replace_braced escape) cs tail r

  unfoldable pub restore_pass_escaped :
      Text → Bool → Restoring SessionStore → Text × Restoring SessionStore
  unfolding replace_all captures_iter
  restore_pass_escaped text escape r =
      let (cs, tail) = captures_iter escaped_placeholder_rx text in
      replace_all (replace_escaped escape) cs tail r

  -- The third pass: what is braced is done with.
  unfoldable pub is_whole : Text → Bool
  is_whole whole = starts_with (codes "{{") whole && ends_with (codes "}}") whole

  -- A token that begins with a brace may stand for the one token of its suffix.
  unfoldable pub lookup_loose : Text → Text → SessionStore → Option Text × SessionStore
  unfolding lookup_with_db
  lookup_loose whole canon st =
      let (hit, st') = lookup_with_db canon st in
      elim hit [
        | some o ↦ (some o, st')
        | none ↦
            if starts_with (codes "{") whole
            then (elim (suffix_real_token env.casing canon st') [
              | none ↦ (none, st')
              | some real ↦ lookup_with_db real st'
            ])
            else (none, st')
      ]

  -- Behind a backslash, a piece of an escaped block does not count.
  unfoldable pub count_loose : Bool → Text → RestoreStats → RestoreStats
  unfolding count_missing
  count_loose prev_backslash whole s = if prev_backslash then s else count_missing whole s

  unfoldable pub replace_loose :
      Bool → Captures → Restoring SessionStore → Text × Restoring SessionStore
  unfolding replace lookup_loose count_loose is_whole
  replace_loose escape c r =
      let canon = codes "{{" ++ trim (get_or c.groups 0 []) ++ codes "}}" in
      if is_whole c.whole
      then (c.whole, r)
      else replace escape true (count_loose (ends_with (codes "\\") c.prefix)) c
          (lookup_loose c.whole canon r.store) r.stats

  unfoldable pub restore_pass_loose :
      Text → Bool → Restoring SessionStore → Text × Restoring SessionStore
  unfolding replace_all captures_iter
  restore_pass_loose text escape r =
      let (cs, tail) = captures_iter loose_placeholder_rx text in
      replace_all (replace_loose escape) cs tail r

  unfoldable pub count_orphans : List Captures → RestoreStats → RestoreStats
  unfolding count_missing
  count_orphans [] s = s
  count_orphans (c ∷ cs) s = count_orphans cs (count_missing c.whole s)

  abbrev pub has : ℕ → Text → Bool
  has d text = any (λ c. c == d) text

  -- The three passes, of which the later ones run where their forms can be there.
  unfoldable pub restore_passes :
      Text → Bool → Restoring SessionStore → Text × Restoring SessionStore
  unfolding restore_pass restore_pass_escaped restore_pass_loose
  restore_passes text escape r =
      let (out, r1) = restore_pass text escape r in
      let (out', r2) = (if has b'\\' out then restore_pass_escaped out escape r1 else (out, r1)) in
      if has b'_' out' then restore_pass_loose out' escape r2 else (out', r2)

  unfoldable pub restore_final :
      Text → Bool → Restoring SessionStore → Text × Restoring SessionStore
  unfolding restore_passes count_orphans
  restore_final text escape r =
      if env.is_skippable_str text
      then (text, r)
      else if not (has b'_' text) && not (has b'{' text)
      then (text, r)
      else elim (lookup env.sid r.store.sessions) [
        | none ↦ (
          text,
          record r { stats = count_orphans (captures_iter braced_placeholder_rx text).0 r.stats },
        )
        | some _ ↦ restore_passes text escape r
      ]
