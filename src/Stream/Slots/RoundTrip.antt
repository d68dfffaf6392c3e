-- ===== src/Stream/Slots/RoundTrip.antt =====
-- src/stream/slots.rs: `set_slot` behind `text_slots`, for the events of Anthropic's protocol.
use maskit_rs.Base.{
  ℕ, zero, suc, ◌+◌, ◌/◌, ◌%◌, ◌≡◌, ◌⊎◌, refl, sym, ◌∙◌, ap, inl, inr, Bool, true, false, Option,
  none, some, List, [], ◌∷◌, ◌++◌, Text, codes, contains, if◌then◌else◌, all, arith, Bool-cases,
}
use maskit_rs.Base.Map.{text_eq, text_eq_refl, text_eq_iff}
use maskit_rs.Str.{show_nat, show_from, split_once, strip_prefix, is_ascii_digit}
use maskit_rs.Json.{
  Value, Fields, null, bool, number, string, array, object, no_fields, field, get_key, put, modify,
}
use maskit_rs.Stream.Slots.{
  Slot, generic_channel_prefix, text_slot, generic_slots, anthropic_slots, anthropic_channel,
  anthropic_known_delta_fields, is_generic_field,
}
use maskit_rs.Stream.Slots.Write.{set_slot, set_anthropic, anthropic_key}

-- The digits of a number hold no dot.
show_from-digits :
    (fuel n : ℕ) (out : Text)
    → all is_ascii_digit out ≡ true
    → all is_ascii_digit (show_from fuel n out) ≡ true
unfolding show_from
show_from-digits zero n out h = ground arith
show_from-digits (suc fuel) n out h =
    ground (arith, show_from-digits fuel (n / 10) ((b'0' + n % 10) ∷ out))

show_nat-digits : (n : ℕ) → all is_ascii_digit (show_nat n) ≡ true
unfolding show_nat
show_nat-digits n = show_from-digits n n [] refl

split_once-digits :
    (pre post : Text)
    → all is_ascii_digit pre ≡ true
    → split_once b'.' ((pre ++ b'.' ∷ []) ++ post) ≡ some (pre, post)
unfolding split_once
split_once-digits [] post h = refl
split_once-digits (c ∷ pre) post h = ground (arith, split_once-digits pre post)

-- A slot is among others.
unfoldable pub HasSlot : Slot → List Slot → Type 0
HasSlot slot [] = ⊥
HasSlot slot (other ∷ slots) = (other ≡ slot) ⊎ HasSlot slot slots

HasSlot-append :
    (slot : Slot) (xs ys : List Slot) → HasSlot slot (xs ++ ys) → HasSlot slot xs ⊎ HasSlot slot ys
unfolding HasSlot
HasSlot-append slot [] ys h = inr h
HasSlot-append slot (x ∷ xs) ys (inl e) = inl (inl e)
HasSlot-append slot (x ∷ xs) ys (inr h) = elim (HasSlot-append slot xs ys h) [
  | inl m ↦ inl (inr m)
  | inr m ↦ inr m
]

-- What a slot of one value says.
HasSlot-text_slot :
    (channel : Text) (escaped : Bool) (v : Option Value) (ch s : Text) (e : Bool)
    → HasSlot (ch, s, e) (text_slot channel escaped v)
    → (ch ≡ channel) × (v ≡ some (string s))
unfolding HasSlot text_slot
HasSlot-text_slot channel escaped none ch s e h = absurd h
HasSlot-text_slot channel escaped (some null) ch s e h = absurd h
HasSlot-text_slot channel escaped (some (bool _)) ch s e h = absurd h
HasSlot-text_slot channel escaped (some (number _)) ch s e h = absurd h
HasSlot-text_slot channel escaped (some (array _)) ch s e h = absurd h
HasSlot-text_slot channel escaped (some (object _)) ch s e h = absurd h
HasSlot-text_slot channel escaped (some (string t)) ch s e (inl h) = (cc, cc)
HasSlot-text_slot channel escaped (some (string t)) ch s e (inr h) = absurd h

-- The keys of an object are distinct.
unfoldable pub DistinctKeys : Fields → Type 0
DistinctKeys no_fields = Unit
DistinctKeys (field k v fs) = (get_key k fs ≡ none) × DistinctKeys fs

HasSlot-if :
    (slot : Slot) (b : Bool) (xs ys : List Slot)
    → HasSlot slot (if b then xs else ys)
    → HasSlot slot xs ⊎ HasSlot slot ys
HasSlot-if slot true xs ys h = inl h
HasSlot-if slot false xs ys h = inr h

get_key-later :
    (k j : Text) (v w : Value) (fs : Fields)
    → get_key k fs ≡ none
    → get_key j fs ≡ some w
    → get_key j (field k v fs) ≡ some w
unfolding get_key
get_key-later k j v w fs free found = elim (Bool-cases (text_eq k j)) [
  | inl e ↦ absurd (none-some (sym free ∙ ap (λ x. get_key x fs) ((text_eq_iff k j).0 e) ∙ found))
  | inr e ↦ rw e found
]
  where
    none-some : ◌≡◌ {A = Option Value} none (some w) → ⊥
    none-some h = cc

get_key_self : (k : Text) (v : Value) (fs : Fields) → get_key k (field k v fs) ≡ some v
unfolding get_key
get_key_self k v fs = rw (text_eq_refl k) refl

HasSlot-generic_slots :
    (channel : Text) (known : List Text) (fs : Fields) (ch s : Text) (e : Bool)
    → DistinctKeys fs
    → HasSlot (ch, s, e) (generic_slots channel known fs)
    → (k : Text) × (ch ≡ channel ++ generic_channel_prefix ∷ k) × (get_key k fs ≡ some (string s))
unfolding HasSlot generic_slots DistinctKeys
HasSlot-generic_slots channel known no_fields ch s e d h = absurd h
HasSlot-generic_slots channel known (field k v fs) ch s e (free, d) h =
    let own = text_slot (channel ++ generic_channel_prefix ∷ k) false (some v) in
    let rest = generic_slots channel known fs in
    let Found =
      (j : Text) × (ch ≡ channel ++ generic_channel_prefix ∷ j)
      × (get_key j (field k v fs) ≡ some (string s)) in
    let later : HasSlot (ch, s, e) rest → Found = λ m.
      (let (j, ej, found) = HasSlot-generic_slots channel known fs ch s e d m in
        (j, ej, get_key-later k j v (string s) fs free found)) in
    elim (HasSlot-if (ch, s, e) (contains known k) rest (own ++ rest) h) [
      | inl m ↦ later m
      | inr m ↦ elim (HasSlot-append (ch, s, e) own rest m) [
        | inr m' ↦ later m'
        | inl m' ↦
            let (ec, ev) =
              HasSlot-text_slot (channel ++ generic_channel_prefix ∷ k) false (some v) ch s e m' in
            (k, ec, get_key_self k v fs ∙ ev)
      ]
    ]

set_anthropic-channel :
    (blk : ℕ) (name text : Text) (event : Value)
    → set_slot event (anthropic_channel blk ++ name) text
      ≡ modify (codes "delta") (put (anthropic_key name) text) event
unfolding set_slot anthropic_channel strip_prefix set_anthropic
set_anthropic-channel blk name text event =
    rw (split_once-digits (show_nat blk) name (show_nat-digits blk), set_anthropic) refl

generic_key : (k : Text) → anthropic_key (generic_channel_prefix ∷ k) ≡ k
unfolding anthropic_key is_generic_field strip_prefix
generic_key k = refl

text_key : anthropic_key (codes "text") ≡ codes "text"
unfolding anthropic_key is_generic_field strip_prefix text_eq
text_key = refl

think_key : anthropic_key (codes "think") ≡ codes "thinking"
unfolding anthropic_key is_generic_field strip_prefix text_eq
think_key = refl

pj_key : anthropic_key (codes "pj") ≡ codes "partial_json"
unfolding anthropic_key is_generic_field strip_prefix text_eq
pj_key = refl

written :
    (blk : ℕ) (name key ch text : Text) (event : Value)
    → ch ≡ anthropic_channel blk ++ name
    → anthropic_key name ≡ key
    → set_slot event ch text ≡ modify (codes "delta") (put key text) event
written blk name key ch text event ec ek =
    ap (λ x. set_slot event x text) ec
    ∙ set_anthropic-channel blk name text event
    ∙ ap (λ x. modify (codes "delta") (put x text) event) ek

-- A text of an Anthropic delta is written back to the field that it was read from, and the rest of
-- the event stays.
pub set_slot-anthropic_slots :
    (blk : ℕ) (d : Fields) (ch s text : Text) (e : Bool) (event : Value)
    → DistinctKeys d
    → HasSlot (ch, s, e) (anthropic_slots blk d)
    → (key : Text) × (get_key key d ≡ some (string s))
      × (set_slot event ch text ≡ modify (codes "delta") (put key text) event)
unfolding anthropic_slots
set_slot-anthropic_slots blk d ch s text e event distinct h =
    let slot : Slot = (ch, s, e) in
    let channel = anthropic_channel blk in
    let texts = text_slot (channel ++ codes "text") false (get_key (codes "text") d) in
    let thinks = text_slot (channel ++ codes "think") false (get_key (codes "thinking") d) in
    let parts = text_slot (channel ++ codes "pj") true (get_key (codes "partial_json") d) in
    let others = generic_slots channel anthropic_known_delta_fields d in
    elim (HasSlot-append slot ((texts ++ thinks) ++ parts) others h) [
      | inr m ↦
          let (k, ec, found) =
            HasSlot-generic_slots channel anthropic_known_delta_fields d ch s e distinct m in
          (k, found, written blk (generic_channel_prefix ∷ k) k ch text event ec (generic_key k))
      | inl m ↦ elim (HasSlot-append slot (texts ++ thinks) parts m) [
        | inr m' ↦
            let (ec, found) = HasSlot-text_slot _ _ _ ch s e m' in
            (codes "partial_json", found, written blk (codes "pj") _ ch text event ec pj_key)
        | inl m' ↦ elim (HasSlot-append slot texts thinks m') [
          | inl m'' ↦
              let (ec, found) = HasSlot-text_slot _ _ _ ch s e m'' in
              (codes "text", found, written blk (codes "text") _ ch text event ec text_key)
          | inr m'' ↦
              let (ec, found) = HasSlot-text_slot _ _ _ ch s e m'' in
              (codes "thinking", found, written blk (codes "think") _ ch text event ec think_key)
        ]
      ]
    ]
