-- ===== src/Base/Results.antt =====
-- Errors as values: `Result` with a message, and runs that thread a state.
use mathlib.Core.Bool.{Bool, true, false, ◌||◌}
use mathlib.Core.Path.{◌≡◌, subst}
use native.Mathlib.Omega.{arith}
use maskit_rs.Base.Map.{Text}

pub data Result {ℓ} (A : Type ℓ) : Type ℓ where
  ok : A → Result A
  err : Text → Result A

-- A function that reads and writes the state `S` and may fail.
abbrev pub Run : Type 0 → Type 0 → Type 0
Run S A = S → Result A × S

abbrev pub pure : {S A : Type 0} → A → Run S A
pure a s = (ok a, s)

abbrev pub fail : {S A : Type 0} → Text → Run S A
fail e s = (err e, s)

abbrev pub then_run : {S A B : Type 0} → (A → Run S B) → Result A → S → Result B × S
then_run f (ok a) s = f a s
then_run f (err e) s = (err e, s)

-- `?`
infixl 5 ◌>>=◌ ◌>>◌
abbrev pub ◌>>=◌ : {S A B : Type 0} → Run S A → (A → Run S B) → Run S B
◌>>=◌ m f s = let (r, s') = m s in then_run f r s'

abbrev pub ◌>>◌ : {S B : Type 0} → Run S (Unit {0}) → Run S B → Run S B
m >> k = m >>= λ _. k

-- What holds of the value and the state after a run, where it does not fail.
unfoldable pub After {ℓ} : {S A : Type 0} → (A → S → Type ℓ) → Result A × S → Type ℓ
After Q (ok a, s) = Q a s
After Q (err e, s) = Unit

unfoldable pub fails : {S A : Type 0} → Result A × S → Bool
fails (ok a, s) = false
fails (err e, s) = true

pub After-weaken {ℓ} :
    {S A : Type 0} (P Q : A → S → Type ℓ) (x : Result A × S)
    → After P x
    → ((a : A) (s : S) → P a s → Q a s)
    → After Q x
unfolding After
After-weaken P Q (ok a, s) h k = k a s h
After-weaken P Q (err e, s) h k = tt

pub After-ok {ℓ} :
    {S A : Type 0} (P : A → S → Type ℓ) {x : Result A × S} {a : A} {s : S}
    → x ≡ (ok a, s)
    → After P x
    → P a s
unfolding After
After-ok P e h = subst (After P) e h

pair_eq : {S A : Type 0} (x : Result A × S) {r : Result A} → x.0 ≡ r → x ≡ (r, x.1)
pair_eq x e = cc

pub After-value {ℓ} :
    {S A : Type 0} (Q : A → Type ℓ) (x : Result A × S) {a : A}
    → x.0 ≡ ok a
    → After (λ b s. Q b) x
    → Q a
After-value Q x e h = After-ok (λ b s. Q b) {x = x} {s = x.1} (pair_eq x e) h

module _ {S A B : Type 0} (f : A → Run S B) where
  After-then_run {ℓ} :
      (P : A → S → Type ℓ) (Q : B → S → Type ℓ) (x : Result A × S)
      → After P x
      → ((a : A) (s : S) → P a s → After Q (f a s))
      → After Q (then_run f x.0 x.1)
  unfolding After
  After-then_run P Q (ok a, s) h k = k a s h
  After-then_run P Q (err e, s) h k = tt

  fails-then_run :
      (x : Result A × S) (b c : Bool)
      → fails x ≡ b
      → ((a : A) (s : S) → fails (f a s) ≡ c)
      → fails (then_run f x.0 x.1) ≡ (b || c)
  unfolding fails
  fails-then_run (ok a, s) b c h k = ground (arith, k a s)
  fails-then_run (err e, s) b c h k = ground arith

module _ {S A B : Type 0} (m : Run S A) (f : A → Run S B) (s : S) where
  pub After->>= {ℓ} :
      (P : A → S → Type ℓ) (Q : B → S → Type ℓ)
      → After P (m s)
      → ((a : A) (s' : S) → P a s' → After Q (f a s'))
      → After Q ((m >>= f) s)
  After->>= P Q h k = After-then_run f P Q (m s) h k

  pub fails->>= :
      (b c : Bool)
      → fails (m s) ≡ b
      → ((a : A) (s' : S) → fails (f a s') ≡ c)
      → fails ((m >>= f) s) ≡ (b || c)
  fails->>= b c h k = fails-then_run f (m s) b c h k
