-- ===== src/Validators/Luhn/Errors.antt =====
-- src/mask/validators.rs, `luhn_ok`: a wrong digit, and neighbours exchanged.
use mathlib.Core.List.{reverse, reverse-append}
use maskit_rs.Base.{
  ◌≡◌, ◌≢◌, ◌≤◌, ◌<◌, ℕ, ◌+◌, ◌-◌, ◌%◌, refl, ap, ◌∙◌, Bool, true, false, not, List, [], ◌∷◌, ◌++◌,
  Text, length, arith, append_assoc,
}
use maskit_rs.Str.{is_ascii_digit}
use maskit_rs.Validators.Luhn.{digits, weigh, luhn_loop, luhn_ok}

-- The weighted sum, and the state of the alternation behind some digits.
total : Bool → List ℕ → ℕ
total dbl [] = 0
total dbl (d ∷ ds) = weigh dbl d + total (not dbl) ds

turn : Bool → List ℕ → Bool
turn dbl [] = dbl
turn dbl (d ∷ ds) = turn (not dbl) ds

luhn_loop-total : (ds : List ℕ) (sum : ℕ) (dbl : Bool) → luhn_loop ds sum dbl ≡ sum + total dbl ds
unfolding luhn_loop total
luhn_loop-total [] sum dbl = omega arith
luhn_loop-total (d ∷ ds) sum dbl = omega (arith, luhn_loop-total ds (sum + weigh dbl d) (not dbl))

total-append :
    (dbl : Bool) (us vs : List ℕ) → total dbl (us ++ vs) ≡ total dbl us + total (turn dbl us) vs
unfolding total turn
total-append dbl [] vs = omega arith
total-append dbl (d ∷ us) vs = omega (arith, total-append (not dbl) us vs)

digits-append : (p q : Text) → digits (p ++ q) ≡ digits p ++ digits q
unfolding digits
digits-append [] q = refl
digits-append (c ∷ p) q = ground (arith, digits-append p q)

digits_digit : (c : ℕ) (q : Text) → is_ascii_digit c ≡ true → digits (c ∷ q) ≡ (c - b'0') ∷ digits q
unfolding digits
digits_digit c q h = ground arith

luhn_sum : (ds : List ℕ) → luhn_loop (reverse ds) 0 false ≡ total false (reverse ds)
luhn_sum ds = omega (arith, luhn_loop-total (reverse ds) 0 false)

luhn_ok-total :
    (num : Text)
    → luhn_ok num ≡ true
    → (12 ≤ length (digits num)) × (total false (reverse (digits num)) % 10 ≡ 0)
unfolding luhn_ok
luhn_ok-total num h = ground (arith, luhn_sum (digits num))

total-luhn_ok : (num : Text) → total false (reverse (digits num)) % 10 ≢ 0 → luhn_ok num ≡ false
unfolding luhn_ok
total-luhn_ok num h = ground (arith, luhn_sum (digits num))

reverse-middle : (xs ys : List ℕ) (a : ℕ) → reverse (xs ++ a ∷ ys) ≡ reverse ys ++ a ∷ reverse xs
reverse-middle xs ys a =
    reverse-append xs (a ∷ ys)
    ∙ (ap (λ zs. zs ++ reverse xs) (reverse-append (a ∷ []) ys)
        ∙ append_assoc (reverse ys) (a ∷ []) (reverse xs))

total_middle :
    (xs ys : List ℕ) (a : ℕ)
    → total false (reverse (xs ++ a ∷ ys))
      ≡ total false (reverse ys)
        + weigh (turn false (reverse ys)) a
        + total (not (turn false (reverse ys))) (reverse xs)
unfolding total
total_middle xs ys a =
    ap (total false) (reverse-middle xs ys a)
    ∙ omega (arith, total-append false (reverse ys) (a ∷ reverse xs))

weigh_differs :
    (dbl : Bool) (a b : ℕ)
    → a < 10
    → b < 10
    → a ≢ b
    → (weigh dbl a < 10) × (weigh dbl b < 10) × (weigh dbl a ≢ weigh dbl b)
unfolding weigh
weigh_differs true a b h k ne = (ground arith, ground arith, ground arith)
weigh_differs false a b h k ne = (ground arith, ground arith, ground arith)

shifted : (t w x r : ℕ) → w < 10 → x < 10 → w ≢ x → (t + w + r) % 10 ≡ 0 → (t + x + r) % 10 ≢ 0
shifted t w x r h k ne e = omega arith

-- Put another digit in the place of any one digit of an accepted number, whatever separators the
-- text holds: the result is refused.
pub luhn_ok-substitute :
    (p q : Text) (c c' : ℕ)
    → is_ascii_digit c ≡ true
    → is_ascii_digit c' ≡ true
    → c ≢ c'
    → luhn_ok (p ++ c ∷ q) ≡ true
    → luhn_ok (p ++ c' ∷ q) ≡ false
luhn_ok-substitute p q c c' h h' ne ok =
    let spell : (x : ℕ)
        → is_ascii_digit x ≡ true
        → digits (p ++ x ∷ q) ≡ digits p ++ (x - b'0') ∷ digits q =
      λ x e. digits-append p (x ∷ q) ∙ ap (◌++◌ (digits p)) (digits_digit x q e) in
    let xs = digits p in
    let ys = digits q in
    let dbl = turn false (reverse ys) in
    let (w, w', differ) =
      weigh_differs dbl (c - b'0') (c' - b'0') (ground arith) (ground arith) (ground arith) in
    let (_, zero_sum) = luhn_ok-total (p ++ c ∷ q) ok in
    total-luhn_ok (p ++ c' ∷ q) (
      rw (spell c' h', total_middle xs ys (c' - b'0'))
        (shifted (total false (reverse ys)) (weigh dbl (c - b'0')) (weigh dbl (c' - b'0'))
          (total (not dbl) (reverse xs)) w w' differ
          (rw (spell c h, total_middle xs ys (c - b'0')) at zero_sum)))

turn-append : (dbl : Bool) (us vs : List ℕ) → turn dbl (us ++ vs) ≡ turn (turn dbl us) vs
unfolding turn
turn-append dbl [] vs = refl
turn-append dbl (d ∷ us) vs = turn-append (not dbl) us vs

total_pair :
    (xs ys : List ℕ) (a b : ℕ)
    → total false (reverse (xs ++ a ∷ b ∷ ys))
      ≡ total false (reverse ys)
        + weigh (turn false (reverse ys)) b
        + weigh (not (turn false (reverse ys))) a
        + total (not (not (turn false (reverse ys)))) (reverse xs)
unfolding total turn
total_pair xs ys a b =
    let front = reverse-append (b ∷ []) ys in
    total_middle xs (b ∷ ys) a
    ∙ rw (front, turn-append false (reverse ys) (b ∷ []))
        (omega (arith, total-append false (reverse ys) (b ∷ [])))

exchange_differs :
    (dbl : Bool) (t a b r : ℕ)
    → a < 10
    → b < 10
    → a ≢ b
    → (a + b ≡ 9 → (a ≢ 0) × (b ≢ 0))
    → (t + weigh dbl b + weigh (not dbl) a + r) % 10 ≡ 0
    → (t + weigh dbl a + weigh (not dbl) b + r) % 10 ≢ 0
unfolding weigh
exchange_differs true t a b r h k ne edge e = ground arith
exchange_differs false t a b r h k ne edge e = ground arith

-- Exchange two different neighbouring digits of an accepted number: the result is refused, unless
-- the two are 0 and 9, the one pair that the check is known to miss.
pub luhn_ok-exchange :
    (p q : Text) (c c' : ℕ)
    → is_ascii_digit c ≡ true
    → is_ascii_digit c' ≡ true
    → c ≢ c'
    → (c + c' ≡ b'0' + b'9' → (c ≢ b'0') × (c' ≢ b'0'))
    → luhn_ok (p ++ c ∷ c' ∷ q) ≡ true
    → luhn_ok (p ++ c' ∷ c ∷ q) ≡ false
luhn_ok-exchange p q c c' h h' ne edge ok =
    let spell : (x y : ℕ)
        → is_ascii_digit x ≡ true
        → is_ascii_digit y ≡ true
        → digits (p ++ x ∷ y ∷ q) ≡ digits p ++ (x - b'0') ∷ (y - b'0') ∷ digits q =
      λ x y e f.
        digits-append p (x ∷ y ∷ q)
        ∙ ap (◌++◌ (digits p))
            (digits_digit x (y ∷ q) e ∙ ap (◌∷◌ (x - b'0')) (digits_digit y q f)) in
    let xs = digits p in
    let ys = digits q in
    let dbl = turn false (reverse ys) in
    let (_, zero_sum) = luhn_ok-total (p ++ c ∷ c' ∷ q) ok in
    total-luhn_ok (p ++ c' ∷ c ∷ q) (
      rw (spell c' c h' h, total_pair xs ys (c' - b'0') (c - b'0'))
        (exchange_differs dbl (total false (reverse ys)) (c - b'0') (c' - b'0')
          (total (not (not dbl)) (reverse xs)) (ground arith) (ground arith) (ground arith)
          (ground arith)
          (rw (spell c c' h h', total_pair xs ys (c - b'0') (c' - b'0')) at zero_sum)))
