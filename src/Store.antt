-- ===== src/Store.antt =====
-- src/mask/session.rs: the table of sessions, the reuse tables between values and tokens, and the
-- index of suffixes. A hash map is an association list; the clock's reading, in whole ticks, is the
-- argument `now`, and `now - ts <= ttl` holds also where the clock has gone back, as on ℕ.
pub mod Index
pub mod Sessions
pub mod Prune
pub mod Recall
pub mod Resolve
pub mod Seed
use maskit_rs.Base.{
  ℕ, zero, suc, ◌+◌, ◌-◌, ◌*◌, ◌/◌, Bool, true, false, not, ◌&&◌, ◌||◌, Option, none, some, List,
  [], ◌∷◌, ◌++◌, map, Text, contains, is_empty, leb, ltb, if◌then◌else◌, length, take, filter,
  ◌>>=◌,
}
use Prim.Native.Nat.{max}
use maskit_rs.Base.Map.{text_eq, lookup, insert, remove, update, has_key}
use maskit_rs.Str.{Casing}
use maskit_rs.Regex.{is_match, match_here}
use maskit_rs.Placeholder.{
  Draws, new_token, safe_label, token_suffix, token_label, suffix_indexable, placeholder_rx,
  any_braced_suffix_rx,
}

-- The fields of a session that the operations below read or write.
pub record Session : Type 0 where
  pub fwd : List (Text × Text)
  pub rev : List (Text × Text)
  pub labels : List (Text × Text)
  pub pending_persist : List Text
  pub ts : ℕ
  pub inflight : Bool

pub record RecentEntry : Type 0 where
  pub token : Text
  pub label : Text
  pub ts : ℕ

pub data SuffixIndexValue : Type 0 where
  token : Text → SuffixIndexValue
  ambiguous : SuffixIndexValue

pub record SessionStore : Type 0 where
  pub sessions : List (Text × Session)
  pub recent_fwd : List (Text × RecentEntry)
  pub recent_rev : List (Text × RecentEntry)
  pub recent_suffix : List (Text × SuffixIndexValue)
  pub custom_fwd : List (Text × Text)
  pub custom_rev : List (Text × RecentEntry)
  pub ttl_secs : ℕ
  pub lookup_hook : Option (Text → Option (Text × Text))
  -- A call waits for a lock that it holds itself: it never returns, and what the model does behind
  -- that point does not happen.
  pub halted : Bool

abbrev pub recent_max : ℕ
recent_max = 10000

abbrev pub prune_slack : ℕ
prune_slack = recent_max / 8

abbrev pub recent_ttl : ℕ
recent_ttl = 24 * 3600

abbrev pub empty_session : ℕ → Session
empty_session now = record {
  fwd = [];
  rev = [];
  labels = [];
  pending_persist = [];
  ts = now;
  inflight = false;
}

abbrev pub new_store : SessionStore
new_store = record {
  sessions = [];
  recent_fwd = [];
  recent_rev = [];
  recent_suffix = [];
  custom_fwd = [];
  custom_rev = [];
  ttl_secs = recent_ttl;
  lookup_hook = none;
  halted = false;
}

unfoldable pub set_lookup_hook : (Text → Option (Text × Text)) → SessionStore → SessionStore
set_lookup_hook hook st = record st { lookup_hook = some hook }

unfoldable pub db_lookup : Text → SessionStore → Option (Text × Text)
db_lookup orig st = do hook ← st.lookup_hook; hook orig

unfoldable pub set_ttl : ℕ → SessionStore → SessionStore
set_ttl session_ttl_secs st = record st { ttl_secs = max recent_ttl session_ttl_secs }

unfoldable pub new_session : Text → ℕ → SessionStore → SessionStore
new_session sid now st = record st { sessions = insert sid (empty_session now) st.sessions }

unfoldable pub touch : Text → ℕ → SessionStore → SessionStore
touch sid now st = record st { sessions = update sid (λ s. record s { ts = now }) st.sessions }

unfoldable pub drop_session : Text → SessionStore → SessionStore
drop_session sid st = record st { sessions = remove sid st.sessions }

-- `!s.inflight && (now - s.ts) > ttl_secs`
abbrev pub expired : ℕ → ℕ → Session → Bool
expired ttl_secs now s = not s.inflight && ltb ttl_secs (now - s.ts)

-- The keys of the expired sessions are collected, then each of them is removed.
unfoldable pub expired_keys : ℕ → ℕ → List (Text × Session) → List Text
expired_keys ttl_secs now [] = []
expired_keys ttl_secs now ((sid, s) ∷ rest) =
    let others = expired_keys ttl_secs now rest in
    if expired ttl_secs now s then sid ∷ others else others

unfoldable pub remove_all {ℓ} : {V : Type ℓ} → List Text → List (Text × V) → List (Text × V)
remove_all [] m = m
remove_all (k ∷ ks) m = remove_all ks (remove k m)

unfoldable pub sweep : ℕ → ℕ → SessionStore → SessionStore
sweep ttl_secs now st = record st {
  sessions = remove_all (expired_keys ttl_secs now st.sessions) st.sessions;
}

unfoldable pub is_custom_word_orig : Text → SessionStore → Bool
is_custom_word_orig orig st = elim (lookup orig st.custom_fwd) [
  | none ↦ false
  | some tok ↦ has_key tok st.custom_rev
]

unfoldable pub is_custom_word_token : Text → SessionStore → Bool
is_custom_word_token tok st = has_key tok st.custom_rev

abbrev pub refresh : ℕ → RecentEntry → RecentEntry
refresh now e = record e { ts = now }

unfoldable pub touch_recent : Text → Text → ℕ → SessionStore → SessionStore
touch_recent tok orig now st = record st {
  recent_rev = update tok (refresh now) st.recent_rev;
  recent_fwd = update orig (refresh now) st.recent_fwd;
}

-- `cur != SuffixIndexValue::Token(token)`
unfoldable pub points_to : Text → SuffixIndexValue → Bool
points_to tok (token t) = text_eq t tok
points_to tok ambiguous = false

-- Whether a token or its suffix is in use.
unfoldable pub token_taken : SessionStore → Text → Text → Bool
token_taken st tok suffix =
    has_key tok st.recent_rev || has_key tok st.custom_rev || has_key suffix st.recent_suffix

-- A token is live where its reading is not older than the window.
abbrev pub fresh : ℕ → SessionStore → RecentEntry → Bool
fresh now st e = leb (now - e.ts) st.ttl_secs

module _ (u : Casing) where
  -- Where the index has another token, the guard that `get` has given is still alive, hidden by the
  -- clone of the same name, when `insert` asks for the lock of its shard.
  unfoldable pub suffix_index_add : Text → SessionStore → SessionStore
  suffix_index_add tok st =
      let sfx = token_suffix u tok in
      if suffix_indexable sfx
      then elim (lookup sfx st.recent_suffix) [
        | none ↦ record st { recent_suffix = insert sfx (token tok) st.recent_suffix }
        | some cur ↦ if points_to tok cur then st else record st { halted = true }
      ]
      else st

  unfoldable pub suffix_index_del : Text → SessionStore → SessionStore
  suffix_index_del tok st =
      let sfx = token_suffix u tok in
      if is_empty sfx then st else elim (lookup sfx st.recent_suffix) [
        | none ↦ st
        | some v ↦
            if points_to tok v
            then record st { recent_suffix = remove sfx st.recent_suffix }
            else st
      ]

  -- The label and the suffix that the braced pattern captures.
  unfoldable pub suffix_captures : Text → Option (Text × Text)
  suffix_captures tok = elim (match_here any_braced_suffix_rx tok) [
    | some (label_raw ∷ sfx ∷ _, _) ↦ some (label_raw, u.to_lowercase sfx)
    | _ ↦ none
  ]

  unfoldable pub suffix_real_token : Text → SessionStore → Option Text
  suffix_real_token tok st = elim (suffix_captures tok) [
    | none ↦ none
    | some (label_raw, sfx) ↦ elim (lookup sfx st.recent_suffix) [
      | some (token real) ↦
          if text_eq real tok
          then none
          else if text_eq (safe_label u label_raw) (safe_label u (token_label real))
          then some real
          else none
      | _ ↦ none
    ]
  ]
