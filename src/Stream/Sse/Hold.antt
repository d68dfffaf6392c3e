-- ===== src/Stream/Sse/Hold.antt =====
-- src/stream/sse.rs, `restore_channel`: the texts that wait, over the events of a stream.
use maskit_rs.Base.{
  ◌≡◌, ◌≤◌, refl, sym, ◌∙◌, ap, inl, inr, Bool, true, false, ◌&&◌, Option, none, some, Option-cases,
  Bool-cases, List, [], ◌∷◌, ◌++◌, append_assoc, append-nil, Text, is_empty, leb, if◌then◌else◌,
  length, drop, arith,
}
use maskit_rs.Base.Map.{text_eq, text_eq_refl, text_eq_iff, remove, lookup-insert, lookup-remove}
use maskit_rs.Str.{byte_len}
use maskit_rs.Regex.{find}
use maskit_rs.Regex.Match.{find-Parse}
use maskit_rs.Placeholder.{partial_rx, partial_max}
use maskit_rs.Stream.Sse.{Pending, pending_text, split_partial, hold, confirm}

drop_whole {ℓ} : {A : Type ℓ} (xs ys : List A) → drop (length xs) (xs ++ ys) ≡ ys
drop_whole [] ys = refl
drop_whole (x ∷ xs) ys = drop_whole xs ys

abbrev or_empty : Option Text → Text
or_empty none = []
or_empty (some t) = t

split_partial_whole : (buf : Text) → (split_partial buf).0 ++ or_empty (split_partial buf).1 ≡ buf
unfolding split_partial
split_partial_whole buf = elim (Option-cases (find partial_rx buf)) [
  | inl e ↦ rw (e, split_partial) (append-nil buf)
  | inr ((before, f), e) ↦
      let (b, whole, _) = find-Parse partial_rx buf {before = before} {f = f} e in
      let joined : before ++ drop (length before) buf ≡ buf =
        ap (λ x. before ++ drop (length before) x) whole
        ∙ ap (λ x. before ++ x) (drop_whole before b)
        ∙ sym whole in
      (elim (Bool-cases (is_empty f.1 && leb (byte_len (drop (length before) buf)) partial_max)) [
        | inl c ↦ rw (e, c, split_partial) joined
        | inr c ↦ rw (e, c, split_partial) (append-nil buf)
      ])
]

-- The events of a stream: the channel, whether it ends, and its text.
abbrev pub Event : Type 0
Event = Text × Bool × Text

unfoldable pub confirm_all : List Event → Pending → List (Text × Text) × Pending
confirm_all [] pending = ([], pending)
confirm_all ((channel, final_channel, text) ∷ events) pending =
    let (confirmed, pending') = confirm channel final_channel text pending in
    let (rest, pending'') = confirm_all events pending' in ((channel, confirmed) ∷ rest, pending'')

-- The texts of one channel, one after the other.
unfoldable pub event_text : Text → List Event → Text
event_text channel [] = []
event_text channel ((c, _, text) ∷ events) =
    let rest = event_text channel events in if text_eq c channel then text ++ rest else rest

unfoldable pub confirmed_text : Text → List (Text × Text) → Text
confirmed_text channel [] = []
confirmed_text channel ((c, text) ∷ out) =
    let rest = confirmed_text channel out in if text_eq c channel then text ++ rest else rest

pending-remove :
    (c d : Text) (p : Pending)
    → pending_text d (remove c p) ≡ (if text_eq c d then [] else pending_text d p)
unfolding pending_text
pending-remove c d p = ground (arith, lookup-remove c d p)

pending-hold :
    (c d : Text) (k : Option Text) (p : Pending)
    → pending_text d (hold c k p) ≡ (if text_eq c d then or_empty k else pending_text d p)
unfolding pending_text hold
pending-hold c d none p = ground (arith, lookup-remove c d p)
pending-hold c d (some k) p = ground (arith, lookup-insert c d k p)

confirm_self :
    (c : Text) (fin : Bool) (t : Text) (p : Pending)
    → (confirm c fin t p).0 ++ pending_text c (confirm c fin t p).1 ≡ pending_text c p ++ t
unfolding confirm
confirm_self c true t p = rw (pending-remove c c p, text_eq_refl c) (append-nil _)
confirm_self c false t p =
    rw (pending-hold c c (split_partial (pending_text c p ++ t)).1 p, text_eq_refl c)
      (split_partial_whole (pending_text c p ++ t))

confirm_own :
    (c d : Text) (fin : Bool) (t : Text) (p : Pending)
    → text_eq c d ≡ true
    → (confirm c fin t p).0 ++ pending_text d (confirm c fin t p).1 ≡ pending_text d p ++ t
confirm_own c d fin t p h =
    let same = (text_eq_iff c d).0 h in
    ap (λ x. (confirm c fin t p).0 ++ pending_text x (confirm c fin t p).1) (sym same)
    ∙ confirm_self c fin t p
    ∙ ap (λ x. pending_text x p ++ t) same

confirm_other :
    (c d : Text) (fin : Bool) (t : Text) (p : Pending)
    → text_eq c d ≡ false
    → pending_text d (confirm c fin t p).1 ≡ pending_text d p
unfolding confirm
confirm_other c d true t p h = ground (arith, pending-remove c d p)
confirm_other c d false t p h =
    ground (arith, pending-hold c d (split_partial (pending_text c p ++ t)).1 p)

splice : (a b r n p t e : Text) → r ++ n ≡ b ++ e → a ++ b ≡ p ++ t → (a ++ r) ++ n ≡ p ++ (t ++ e)
splice a b r n p t e h g =
    append_assoc a r n
    ∙ ap (λ x. a ++ x) h
    ∙ sym (append_assoc a b e)
    ∙ ap (λ x. x ++ e) g
    ∙ append_assoc p t e

-- However the channels' events are mixed: the texts confirmed for a channel, followed by what it still holds, are what it held_bytes before followed by its own texts.
pub confirm_all_lem :
    (channel : Text) (events : List Event) (pending : Pending)
    → confirmed_text channel (confirm_all events pending).0
        ++ pending_text channel (confirm_all events pending).1
      ≡ pending_text channel pending ++ event_text channel events
unfolding confirm_all event_text confirmed_text
confirm_all_lem channel [] pending = sym (append-nil _)
confirm_all_lem channel ((c, fin, t) ∷ events) pending = elim (Bool-cases (text_eq c channel)) [
  | inl e ↦ rw e (
      splice (confirm c fin t pending).0 (pending_text channel (confirm c fin t pending).1)
        (confirmed_text channel (confirm_all events (confirm c fin t pending).1).0)
        (pending_text channel (confirm_all events (confirm c fin t pending).1).1)
        (pending_text channel pending) t (event_text channel events)
        (confirm_all_lem channel events (confirm c fin t pending).1)
        (confirm_own c channel fin t pending e))
  | inr e ↦ rw e (
      confirm_all_lem channel events (confirm c fin t pending).1
      ∙ ap (λ x. x ++ event_text channel events) (confirm_other c channel fin t pending e))
]

-- No channel holds more bytes than the limit.
unfoldable pub IsBounded : Pending → Type 0
IsBounded pending = (channel : Text) → byte_len (pending_text channel pending) ≤ partial_max

split_partial-bound : (buf : Text) → byte_len (or_empty (split_partial buf).1) ≤ partial_max
unfolding split_partial byte_len
split_partial-bound buf = ground arith

-- Every event leaves at most the limit of bytes in each channel, and nothing in a channel that ends.
pub confirm-IsBounded :
    (channel : Text) (final_channel : Bool) (text : Text) (pending : Pending)
    → IsBounded pending
    → IsBounded (confirm channel final_channel text pending).1
      × (final_channel ≡ true
          → pending_text channel (confirm channel final_channel text pending).1 ≡ [])
unfolding IsBounded confirm byte_len
confirm-IsBounded channel true text pending h = (
  λ d. ground (arith, pending-remove channel d pending, h d),
  λ _. ground (arith, pending-remove channel channel pending, text_eq_refl channel),
)
confirm-IsBounded channel false text pending h = (
  λ d. ground (
    arith,
    pending-hold channel d (split_partial (pending_text channel pending ++ text)).1 pending,
    h d,
    split_partial-bound (pending_text channel pending ++ text),
  ),
  λ e. cc,
)
