-- ===== src/Validators/Ip/Blocks.antt =====
-- src/mask/validators.rs, `ip_public_ok`: the reserved blocks by their prefixes.
use maskit_rs.Base.{
  Text, sym, ◌∙◌, some, Option-cases, inl, inr, ℕ, ◌+◌, ◌*◌, ◌<◌, ◌≤◌, suc, ◌≡◌, Bool, true, false,
  List, [], ◌∷◌, any, ◌==◌, ◌&&◌, arith, within, leb, ltb,
}
use maskit_rs.Str.{split}
use maskit_rs.Validators.Ip.{is_private, ipv4_part, ipv4_parts, four_parts, ip_public_ok}

-- The 32 bits of an address.
unfoldable pub address : ℕ → ℕ → ℕ → ℕ → ℕ
address a b c d = ((a * 256 + b) * 256 + c) * 256 + d

-- A block of addresses, `size` of them from a multiple of the size on.
pub record Block : Type 0 where
  pub start : ℕ
  pub size : ℕ

unfoldable pub in_block : ℕ → Block → Bool
in_block x k = leb k.start x && ltb x (k.start + k.size)

abbrev block : ℕ → ℕ → ℕ → ℕ → Block
block a b c size = record { start = ((a * 256 + b) * 256 + c) * 256; size = size }

-- The special-purpose blocks in the notation of their registries.
unfoldable pub reserved : List Block
reserved =
    block 10 0 0 0x1000000  -- 10.0.0.0/8
    ∷ block 172 16 0 0x100000  -- /12
    ∷ block 192 168 0 0x10000  -- /16
    ∷ block 169 254 0 0x10000  -- /16
    ∷ block 100 64 0 0x400000  -- /10
    ∷ block 127 0 0 0x1000000  -- /8
    ∷ block 0 0 0 0x1000000  -- /8
    ∷ block 192 0 0 0x100  -- /24
    ∷ block 192 0 2 0x100  -- /24
    ∷ block 198 51 100 0x100  -- /24
    ∷ block 203 0 113 0x100  -- /24
    ∷ block 192 88 99 0x100  -- /24
    ∷ block 198 18 0 0x20000  -- /15
    ∷ block 224 0 0 0x20000000  -- 224.0.0.0/3
    ∷ []

module _ {a b c d : ℕ} (ha : a < 256) (hb : b < 256) (hc : c < 256) (hd : d < 256) where
  first_block : (A : ℕ) → in_block (address a b c d) (block A 0 0 0x1000000) ≡ (a == A)
  unfolding in_block address
  first_block A = ground arith

  upper_block : in_block (address a b c d) (block 224 0 0 0x20000000) ≡ leb 224 a
  unfolding in_block address
  upper_block = ground arith

  second_block :
      (A B n : ℕ)
      → B + suc n ≤ 256
      → in_block (address a b c d) (block A B 0 (suc n * 0x10000)) ≡ (a == A && within B (B + n) b)
  unfolding in_block address
  second_block A B n h = ground arith

  sixteen_block :
      (A B : ℕ) → B < 256 → in_block (address a b c d) (block A B 0 0x10000) ≡ (a == A && b == B)
  unfolding in_block address
  sixteen_block A B h = ground arith

  third_block :
      (A B C : ℕ)
      → B < 256
      → C < 256
      → in_block (address a b c d) (block A B C 0x100) ≡ (a == A && (b == B && c == C))
  unfolding in_block address
  third_block A B C hB hC = ground arith

  -- The tests of the source say that an address lies in a reserved block.
  pub is_private_lem : is_private a b c ≡ any (in_block (address a b c d)) reserved
  unfolding is_private reserved
  is_private_lem =
      rw
        (
          first_block 10,
          second_block 172 16 15 (omega arith),
          sixteen_block 192 168 (omega arith),
          sixteen_block 169 254 (omega arith),
          second_block 100 64 63 (omega arith),
          first_block 127,
          first_block 0,
          third_block 192 0 0 (omega arith) (omega arith),
          third_block 192 0 2 (omega arith) (omega arith),
          third_block 198 51 100 (omega arith) (omega arith),
          third_block 203 0 113 (omega arith) (omega arith),
          third_block 192 88 99 (omega arith) (omega arith),
          second_block 198 18 1 (omega arith),
          upper_block,
        )
        (ground arith)

ipv4_part-bound : (p : Text) (v : ℕ) → ipv4_part p ≡ some v → v < 256
unfolding ipv4_part
ipv4_part-bound p v h = ground arith

IsBytes : ℕ × ℕ × ℕ × ℕ → Type 0
IsBytes (a, b, c, d) = (a < 256) × (b < 256) × (c < 256) × (d < 256)

four_parts-IsBytes : (ps : List Text) (q : ℕ × ℕ × ℕ × ℕ) → four_parts ps ≡ some q → IsBytes q
unfolding four_parts IsBytes
four_parts-IsBytes [] (a, b, c, d) h = absurd cc
four_parts-IsBytes (p ∷ []) (a, b, c, d) h = absurd cc
four_parts-IsBytes (p ∷ q ∷ []) (a, b, c, d) h = absurd cc
four_parts-IsBytes (p ∷ q ∷ r ∷ []) (a, b, c, d) h = absurd cc
four_parts-IsBytes (p ∷ q ∷ r ∷ s ∷ []) (a, b, c, d) h =
    ground
      (arith, ipv4_part-bound p a, ipv4_part-bound q b, ipv4_part-bound r c, ipv4_part-bound s d)
four_parts-IsBytes (p ∷ q ∷ r ∷ s ∷ t ∷ ps) (a, b, c, d) h = absurd cc

parts_bound :
    {a b c d : ℕ} (orig : Text)
    → ipv4_parts orig ≡ some (a, b, c, d)
    → (a < 256) × (b < 256) × (c < 256) × (d < 256)
unfolding ipv4_parts IsBytes
parts_bound orig e = four_parts-IsBytes (split b'.' orig) _ e

-- An address that is taken for a public one lies in no reserved block.
pub ip_public_ok-reserved :
    (orig : Text)
    → ip_public_ok orig ≡ true
    → (a : ℕ) × (b : ℕ) × (c : ℕ) × (d : ℕ) × (ipv4_parts orig ≡ some (a, b, c, d))
      × (any (in_block (address a b c d)) reserved ≡ false)
unfolding ip_public_ok
ip_public_ok-reserved orig h = elim (Option-cases (ipv4_parts orig)) [
  | inl e ↦ absurd (ground arith)
  | inr ((a, b, c, d), e) ↦
      let (ha, hb, hc, hd) = parts_bound orig e in
      (a, b, c, d, e, sym (is_private_lem ha hb hc hd) ∙ ground arith)
]
