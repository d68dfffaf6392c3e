-- ===== src/Regex/Laws.antt =====
-- What it means that a pattern matches, as a relation, and that the matcher decides it.
use mathlib.Core.List.{flat_map}
use maskit_rs.Base.{
  ℕ, zero, suc, ◌≡◌, refl, Bool, true, [], ◌∷◌, ◌++◌, List, Text, ◌⊎◌, inl, inr, map, Bool-cases,
}
use maskit_rs.Regex.{
  Rx, eps, eos, rep, many, seq, alt, group, Found, rep_ends, many_ends, ends, join_groups,
}

-- `Reps p lo hi s t`: between `lo` and `hi` characters of the class lead from `s` to `t`.
pub data Reps (p : ℕ → Bool) : ℕ → ℕ → Text → Text → Type 0 where
  stop : {hi : ℕ} {s : Text} → Reps p zero hi s s
  further :
      {hi c : ℕ} {s t : Text} → p c ≡ true → Reps p zero hi s t → Reps p zero (suc hi) (c ∷ s) t
  next :
      {lo hi c : ℕ} {s t : Text}
      → p c ≡ true
      → Reps p lo hi s t
      → Reps p (suc lo) (suc hi) (c ∷ s) t

pub data Manys (p : ℕ → Bool) : Text → Text → Type 0 where
  done : {s : Text} → Manys p s s
  again : {c : ℕ} {s t : Text} → p c ≡ true → Manys p s t → Manys p (c ∷ s) t

-- `Parse r s t`: the pattern matches a beginning of `s`, and `t` is left.
pub data Parse : Rx → Text → Text → Type 0 where
  empty : {s : Text} → Parse eps s s
  at_end : Parse eos [] []
  reps : {lo hi : ℕ} {p : ℕ → Bool} {s t : Text} → Reps p lo hi s t → Parse (rep lo hi p) s t
  manys : {p : ℕ → Bool} {s t : Text} → Manys p s t → Parse (many p) s t
  both : {a b : Rx} {s t v : Text} → Parse a s t → Parse b t v → Parse (seq a b) s v
  left : {a b : Rx} {s t : Text} → Parse a s t → Parse (alt a b) s t
  right : {a b : Rx} {s t : Text} → Parse b s t → Parse (alt a b) s t
  held : {r : Rx} {s t : Text} → Parse r s t → Parse (group r) s t

abbrev pub HasEnd : Text → List Found → Type 0
HasEnd t [] = ⊥
HasEnd t (f ∷ fs) = (f.1 ≡ t) ⊎ HasEnd t fs

abbrev HasRest : Text → List Text → Type 0
HasRest t [] = ⊥
HasRest t (s ∷ ss) = (s ≡ t) ⊎ HasRest t ss

HasEnd-append_left : (t : Text) (fs gs : List Found) → HasEnd t fs → HasEnd t (fs ++ gs)
HasEnd-append_left t [] gs h = absurd h
HasEnd-append_left t (f ∷ fs) gs (inl e) = inl e
HasEnd-append_left t (f ∷ fs) gs (inr h) = inr (HasEnd-append_left t fs gs h)

HasEnd-append_right : (t : Text) (fs gs : List Found) → HasEnd t gs → HasEnd t (fs ++ gs)
HasEnd-append_right t [] gs h = h
HasEnd-append_right t (f ∷ fs) gs h = inr (HasEnd-append_right t fs gs h)

HasRest-append_left : (t : Text) (fs gs : List Text) → HasRest t fs → HasRest t (fs ++ gs)
HasRest-append_left t [] gs h = absurd h
HasRest-append_left t (f ∷ fs) gs (inl e) = inl e
HasRest-append_left t (f ∷ fs) gs (inr h) = inr (HasRest-append_left t fs gs h)

HasRest-append_last : (t : Text) (fs : List Text) → HasRest t (fs ++ t ∷ [])
HasRest-append_last t [] = inl refl
HasRest-append_last t (f ∷ fs) = inr (HasRest-append_last t fs)

HasEnd-rests : (t : Text) (ss : List Text) → HasRest t ss → HasEnd t (map (λ r. ([], r)) ss)
HasEnd-rests t [] h = absurd h
HasEnd-rests t (s ∷ ss) (inl e) = inl e
HasEnd-rests t (s ∷ ss) (inr h) = inr (HasEnd-rests t ss h)

HasEnd-groups :
    (t : Text) (k : Found → List Text) (fs : List Found)
    → HasEnd t fs
    → HasEnd t (map (λ f. (k f, f.1)) fs)
HasEnd-groups t k [] h = absurd h
HasEnd-groups t k (f ∷ fs) (inl e) = inl e
HasEnd-groups t k (f ∷ fs) (inr h) = inr (HasEnd-groups t k fs h)

HasEnd-seq :
    (b : Rx) (t v : Text) (fs : List Found)
    → HasEnd t fs
    → HasEnd v (ends b t)
    → HasEnd v (flat_map (λ f. join_groups f.0 (ends b f.1)) fs)
unfolding flat_map
HasEnd-seq b t v [] h k = absurd h
HasEnd-seq b t v (f ∷ fs) (inl e) k =
    HasEnd-append_left v (join_groups f.0 (ends b f.1)) _
      (HasEnd-groups v (λ g. f.0 ++ g.0) (ends b f.1) (rw e k))
HasEnd-seq b t v (f ∷ fs) (inr h) k =
    HasEnd-append_right v (join_groups f.0 (ends b f.1)) _ (HasEnd-seq b t v fs h k)

Reps-HasRest :
    (p : ℕ → Bool) {lo hi : ℕ} {s t : Text} → Reps p lo hi s t → HasRest t (rep_ends lo hi p s)
unfolding rep_ends
Reps-HasRest p (stop {hi = zero}) = inl refl
Reps-HasRest p (stop {hi = suc hi} {s = []}) = inl refl
Reps-HasRest p (stop {hi = suc hi} {s = c ∷ s}) = elim (Bool-cases (p c)) [
  | inl e ↦ rw e (HasRest-append_last (c ∷ s) (rep_ends zero hi p s))
  | inr e ↦ rw e (inl refl)
]
Reps-HasRest p (further {t = t} e r) = rw e (HasRest-append_left t _ _ (Reps-HasRest p r))
Reps-HasRest p (next e r) = rw e (Reps-HasRest p r)

Manys-HasRest : (p : ℕ → Bool) {s t : Text} → Manys p s t → HasRest t (many_ends p s)
unfolding many_ends
Manys-HasRest p (done {s = []}) = inl refl
Manys-HasRest p (done {s = c ∷ s}) = elim (Bool-cases (p c)) [
  | inl e ↦ rw e (HasRest-append_last (c ∷ s) (many_ends p s))
  | inr e ↦ rw e (inl refl)
]
Manys-HasRest p (again {t = t} e r) = rw e (HasRest-append_left t _ _ (Manys-HasRest p r))

-- The matcher misses no match.
pub Parse-HasEnd : {r : Rx} {s t : Text} → Parse r s t → HasEnd t (ends r s)
unfolding ends
Parse-HasEnd empty = inl refl
Parse-HasEnd at_end = inl refl
Parse-HasEnd (reps {lo = lo} {hi = hi} {p = p} {s = s} {t = t} r) =
    HasEnd-rests t (rep_ends lo hi p s) (Reps-HasRest p r)
Parse-HasEnd (manys {p = p} {s = s} {t = t} r) = HasEnd-rests t (many_ends p s) (Manys-HasRest p r)
Parse-HasEnd (both {a = a} {b = b} {s = s} {t = t} {v = v} x y) =
    HasEnd-seq b t v (ends a s) (Parse-HasEnd x) (Parse-HasEnd y)
Parse-HasEnd (left {a = a} {b = b} {s = s} {t = t} x) =
    HasEnd-append_left t (ends a s) (ends b s) (Parse-HasEnd x)
Parse-HasEnd (right {a = a} {b = b} {s = s} {t = t} x) =
    HasEnd-append_right t (ends a s) (ends b s) (Parse-HasEnd x)
Parse-HasEnd (held {r = r} {s = s} {t = t} x) = HasEnd-groups t _ (ends r s) (Parse-HasEnd x)

-- Each match that the matcher lists is one.
HasEnd-split : (t : Text) (fs gs : List Found) → HasEnd t (fs ++ gs) → HasEnd t fs ⊎ HasEnd t gs
HasEnd-split t [] gs h = inr h
HasEnd-split t (f ∷ fs) gs (inl e) = inl (inl e)
HasEnd-split t (f ∷ fs) gs (inr h) = elim (HasEnd-split t fs gs h) [
  | inl x ↦ inl (inr x)
  | inr y ↦ inr y
]

HasRest-split : (t : Text) (fs gs : List Text) → HasRest t (fs ++ gs) → HasRest t fs ⊎ HasRest t gs
HasRest-split t [] gs h = inr h
HasRest-split t (f ∷ fs) gs (inl e) = inl (inl e)
HasRest-split t (f ∷ fs) gs (inr h) = elim (HasRest-split t fs gs h) [
  | inl x ↦ inl (inr x)
  | inr y ↦ inr y
]

rests-HasEnd : (t : Text) (ss : List Text) → HasEnd t (map (λ r. ([], r)) ss) → HasRest t ss
rests-HasEnd t [] h = absurd h
rests-HasEnd t (s ∷ ss) (inl e) = inl e
rests-HasEnd t (s ∷ ss) (inr h) = inr (rests-HasEnd t ss h)

groups-HasEnd :
    (t : Text) (k : Found → List Text) (fs : List Found)
    → HasEnd t (map (λ f. (k f, f.1)) fs)
    → HasEnd t fs
groups-HasEnd t k [] h = absurd h
groups-HasEnd t k (f ∷ fs) (inl e) = inl e
groups-HasEnd t k (f ∷ fs) (inr h) = inr (groups-HasEnd t k fs h)

seq-HasEnd :
    (b : Rx) (v : Text) (fs : List Found)
    → HasEnd v (flat_map (λ f. join_groups f.0 (ends b f.1)) fs)
    → (t : Text) × HasEnd t fs × HasEnd v (ends b t)
unfolding flat_map
seq-HasEnd b v [] h = absurd h
seq-HasEnd b v (f ∷ fs) h =
    elim (HasEnd-split v (join_groups f.0 (ends b f.1))
      (flat_map (λ f. join_groups f.0 (ends b f.1)) fs) h) [
        | inl x ↦ (f.1, inl refl, groups-HasEnd v (λ g. f.0 ++ g.0) (ends b f.1) x)
        | inr y ↦ let (t, m, k) = seq-HasEnd b v fs y in (t, inr m, k)
      ]

HasRest-Reps :
    (lo hi : ℕ) (p : ℕ → Bool) (s t : Text) → HasRest t (rep_ends lo hi p s) → Reps p lo hi s t
unfolding rep_ends
HasRest-Reps zero zero p s t (inl e) = rw (← e) stop
HasRest-Reps zero zero p s t (inr h) = absurd h
HasRest-Reps (suc lo) zero p s t h = absurd h
HasRest-Reps zero (suc hi) p [] t (inl e) = rw (← e) stop
HasRest-Reps zero (suc hi) p [] t (inr h) = absurd h
HasRest-Reps zero (suc hi) p (c ∷ s) t h = elim (Bool-cases (p c)) [
  | inl e ↦ elim (HasRest-split t (rep_ends zero hi p s) ((c ∷ s) ∷ []) (rw e at h)) [
    | inl x ↦ further e (HasRest-Reps zero hi p s t x)
    | inr (inl q) ↦ rw (← q) stop
    | inr (inr q) ↦ absurd q
  ]
  | inr e ↦
      let k : HasRest t ((c ∷ s) ∷ []) = rw e at h in
      elim k [ inl q ↦ rw (← q) stop | inr q ↦ absurd q ]
]
HasRest-Reps (suc lo) (suc hi) p [] t h = absurd h
HasRest-Reps (suc lo) (suc hi) p (c ∷ s) t h = elim (Bool-cases (p c)) [
  | inl e ↦ next e (HasRest-Reps lo hi p s t (rw e at h))
  | inr e ↦ let k : ⊥ = rw e at h in absurd k
]

HasRest-Manys : (p : ℕ → Bool) (s t : Text) → HasRest t (many_ends p s) → Manys p s t
unfolding many_ends
HasRest-Manys p [] t (inl e) = rw (← e) done
HasRest-Manys p [] t (inr h) = absurd h
HasRest-Manys p (c ∷ s) t h = elim (Bool-cases (p c)) [
  | inl e ↦ elim (HasRest-split t (many_ends p s) ((c ∷ s) ∷ []) (rw e at h)) [
    | inl x ↦ again e (HasRest-Manys p s t x)
    | inr (inl q) ↦ rw (← q) done
    | inr (inr q) ↦ absurd q
  ]
  | inr e ↦
      let k : HasRest t ((c ∷ s) ∷ []) = rw e at h in
      elim k [ inl q ↦ rw (← q) done | inr q ↦ absurd q ]
]

pub HasEnd-Parse : (r : Rx) (s t : Text) → HasEnd t (ends r s) → Parse r s t
unfolding ends
HasEnd-Parse eps s t (inl e) = rw (← e) empty
HasEnd-Parse eps s t (inr h) = absurd h
HasEnd-Parse eos [] t (inl e) = rw (← e) at_end
HasEnd-Parse eos [] t (inr h) = absurd h
HasEnd-Parse eos (c ∷ s) t h = absurd h
HasEnd-Parse (rep lo hi p) s t h =
    reps (HasRest-Reps lo hi p s t (rests-HasEnd t (rep_ends lo hi p s) h))
HasEnd-Parse (many p) s t h = manys (HasRest-Manys p s t (rests-HasEnd t (many_ends p s) h))
HasEnd-Parse (seq a b) s t h =
    let (v, m, k) = seq-HasEnd b t (ends a s) h in
    both (HasEnd-Parse a s v m) (HasEnd-Parse b v t k)
HasEnd-Parse (alt a b) s t h = elim (HasEnd-split t (ends a s) (ends b s) h) [
  | inl x ↦ left (HasEnd-Parse a s t x)
  | inr y ↦ right (HasEnd-Parse b s t y)
]
HasEnd-Parse (group r) s t h = held (HasEnd-Parse r s t (groups-HasEnd t _ (ends r s) h))
