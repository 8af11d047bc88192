-- ===== src/Rabin/Reduction.antt =====
-- rabinkarp64/rabinkarp64.go: reduction by a polynomial, and the checksum as a linear function.
use rollinghash.Prelude.{
  ℕ, zero, suc, ◌+◌, ◌-◌, ◌*◌, ◌^◌, ◌≤◌, ◌<◌, ◌≡◌, refl, sym, ap, ap₂, ◌∙◌, arith, List, [], ◌∷◌,
  foldl, length, IsBytes, bit_xor, bit_or,
}
use rollinghash.Prelude.Bits.{two-pow-add, xor_fields, or_fields, xor-zero, xor-lt}
use native.Mathlib.Nat.{mod-eq_of_lt, one-le-pow, suc-mul}
use rollinghash.Rabin.{shift_in, slide}

-- What the documentation promises of `Mod` by a polynomial of degree `k`: it is the remainder, so
-- it has a lower degree, is the polynomial itself when that has, and of a sum is the sum.
pub record IsReduction (reduce : ℕ → ℕ → ℕ) (pol k : ℕ) : Type 0 where
  pub below : (x : ℕ) → x < 2 ^ 64 → reduce x pol < 2 ^ k
  pub reduced : (x : ℕ) → x < 2 ^ k → reduce x pol ≡ x
  pub sum :
      (x y : ℕ)
      → x < 2 ^ 64
      → y < 2 ^ 64
      → reduce (bit_xor x y) pol ≡ bit_xor (reduce x pol) (reduce y pol)

mul-le : (a b : ℕ) → 1 ≤ b → a ≤ b * a
mul-le a zero h = absurd (omega arith)
mul-le a (suc b) h = let e : suc b * a ≡ b * a + a = suc-mul b a in omega (arith, e)

pub fits_word : (k v : ℕ) → k ≤ 56 → v < 2 ^ k → v * 2 ^ 8 + 256 ≤ 2 ^ 64
fits_word k v h l =
    let split : 56 ≡ k + (56 - k) = omega arith in
    let power : 2 ^ 56 ≡ 2 ^ (56 - k) * 2 ^ k = ap (λ n. 2 ^ n) split ∙ two-pow-add k (56 - k) in
    let le : 2 ^ k ≤ 2 ^ (56 - k) * 2 ^ k =
      mul-le (2 ^ k) (2 ^ (56 - k)) (one-le-pow (56 - k) 2 (omega arith)) in
    omega (arith, power, le)

pub shift_in_lem : (k v c : ℕ) → k ≤ 56 → v < 2 ^ k → c < 256 → shift_in v c ≡ v * 2 ^ 8 + c
shift_in_lem k v c h l b =
    let fits = fits_word k v h l in
    ap (λ t. bit_or t c) (mod-eq_of_lt (omega arith)) ∙ or_fields 8 v c b

module _ (reduce : ℕ → ℕ → ℕ) (pol k : ℕ) (r : IsReduction reduce pol k) (small : k ≤ 56) where
  abbrev A : ℕ → ℕ → ℕ
  A v c = reduce (shift_in v c) pol

  pub absorb-lt : (v c : ℕ) → v < 2 ^ k → c < 256 → A v c < 2 ^ k
  absorb-lt v c l b =
      let e = shift_in_lem k v c small l b in
      let fits = fits_word k v small l in r.below (shift_in v c) (omega arith)

  absorb-xor :
      (v u c : ℕ) → v < 2 ^ k → u < 2 ^ k → c < 256 → A (bit_xor v u) c ≡ bit_xor (A v c) (A u 0)
  absorb-xor v u c l m b =
      let zero_byte : 0 < 256 = omega arith in
      let e = shift_in_lem k v c small l b in
      let f = shift_in_lem k u 0 small m zero_byte in
      let g = shift_in_lem k (bit_xor v u) c small (xor-lt k v u l m) b in
      let fits = fits_word k v small l in
      let fits' = fits_word k u small m in
      let fields : bit_xor (v * 2 ^ 8 + c) (u * 2 ^ 8 + 0) ≡ bit_xor v u * 2 ^ 8 + bit_xor c 0 =
        (xor_fields 8 v c u 0 b zero_byte).0 in
      ap (λ t. reduce t pol)
        (g
          ∙ ap (λ t. bit_xor v u * 2 ^ 8 + t) (sym (xor-zero c))
          ∙ sym fields
          ∙ ap₂ bit_xor (sym e) (sym f))
      ∙ r.sum (shift_in v c) (shift_in u 0) (omega arith) (omega arith)

  pub lane-lt : (v : ℕ) (p : List ℕ) → v < 2 ^ k → IsBytes p → foldl A v p < 2 ^ k
  lane-lt v [] l b = l
  lane-lt v (c ∷ p) l b = lane-lt (A v c) p (absorb-lt v c l b.0) b.1

  -- The checksum of a sum, where the second part is followed by zeros.
  pub lane-xor :
      (v u : ℕ) (p : List ℕ)
      → v < 2 ^ k
      → u < 2 ^ k
      → IsBytes p
      → foldl A (bit_xor v u) p ≡ bit_xor (foldl A v p) (slide reduce pol (length p) u)
  lane-xor v u [] l m b = refl
  lane-xor v u (c ∷ p) l m b =
      ap (λ t. foldl A t p) (absorb-xor v u c l m b.0)
      ∙ lane-xor (A v c) (A u 0) p (absorb-lt v c l b.0) (absorb-lt u 0 m (omega arith)) b.1
