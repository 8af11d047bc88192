-- ===== src/Bozo/Horner.antt =====
-- bozo32/bozo32.go: the checksum as a polynomial in the multiplier.
use rollinghash.Prelude.{
  ℕ, zero, suc, ◌+◌, ◌-◌, ◌*◌, ◌%◌, ◌^◌, ◌<◌, ◌≡◌, refl, sym, ap, ap₂, ◌∙◌, arith, List, [], ◌∷◌,
  ◌++◌, foldl, length,
}
use rollinghash.Prelude.Modular.{mod_sub_cancel, mul-mod_left, mul-mod_right}
use native.Mathlib.Nat.{mod-add-mod, mod-mod, one-le-pow, pow-suc, pow-zero, zero-mod}
use rollinghash.Kernel.{lane, IsRolling}
use rollinghash.Bozo.{absorb, power, kernel}

-- The polynomial, without the wrap.
abbrev pub horner : ℕ → ℕ → ℕ → ℕ
horner a v c = v * a + c

zero-mul-add : (a c : ℕ) → 0 * a + c ≡ c
zero-mul-add a c = omega arith

pub horner-shift :
    (a v : ℕ) (p : List ℕ) → foldl (horner a) v p ≡ v * a ^ length p + foldl (horner a) 0 p
horner-shift a v [] = omega (arith, ap (λ (t : ℕ). v * t) (pow-zero a))
horner-shift a v (c ∷ p) = omega (
  arith,
  horner-shift a (v * a + c) p,
  horner-shift a (0 * a + c) p,
  ap (λ (t : ℕ). t * a ^ length p) (zero-mul-add a c),
  pow-suc a (length p),
  ap (λ (t : ℕ). v * t) (pow-suc a (length p)),
)

module _ (bits a : ℕ) where
  word_pos : 0 < 2 ^ bits
  word_pos = one-le-pow bits 2 (omega arith)

  absorb-mod : (v c : ℕ) → absorb bits a (v % 2 ^ bits) c ≡ horner a v c % 2 ^ bits
  absorb-mod v c = rw (mul-mod_left v a (2 ^ bits)) (mod-add-mod (v * a) (2 ^ bits) c)

  lane-horner :
      (v : ℕ) (p : List ℕ)
      → foldl (absorb bits a) (v % 2 ^ bits) p ≡ foldl (horner a) v p % 2 ^ bits
  lane-horner v [] = refl
  lane-horner v (c ∷ p) =
      ap (λ t. foldl (absorb bits a) t p) (absorb-mod v c) ∙ lane-horner (v * a + c) p

  power-pow : (n : ℕ) → power bits a n % 2 ^ bits ≡ a ^ n % 2 ^ bits
  unfolding power
  power-pow zero = ap (λ t. t % 2 ^ bits) (sym (pow-zero a))
  power-pow (suc n) =
      mod-mod (power bits a n * a) (2 ^ bits)
      ∙ sym (mul-mod_left (power bits a n) a (2 ^ bits))
      ∙ ap (λ t. t * a % 2 ^ bits) (power-pow n)
      ∙ mul-mod_left (a ^ n) a (2 ^ bits)
      ∙ ap (λ t. t % 2 ^ bits) (sym (pow-suc a n))

  -- The checksum of a window is the polynomial in the multiplier with the bytes as coefficients,
  -- modulo the word.
  pub lane-eq-horner : (p : List ℕ) → lane (kernel bits a) p ≡ foldl (horner a) 0 p % 2 ^ bits
  lane-eq-horner p =
      ap (λ t. foldl (absorb bits a) t p) (sym (zero-mod (2 ^ bits))) ∙ lane-horner 0 p

  leaving_weight : (x n : ℕ) → x * power bits a n % 2 ^ bits ≡ x * a ^ n % 2 ^ bits
  leaving_weight x n =
      sym (mul-mod_right x (power bits a n) (2 ^ bits))
      ∙ ap (λ t. x * t % 2 ^ bits) (power-pow n)
      ∙ mul-mod_right x (a ^ n) (2 ^ bits)

  pub snoc-horner :
      (v y : ℕ) (p : List ℕ)
      → foldl (horner a) v (p ++ (y ∷ [])) ≡ horner a (foldl (horner a) v p) y
  snoc-horner v y [] = refl
  snoc-horner v y (c ∷ p) = snoc-horner (horner a v c) y p

  -- What the window without its oldest byte hashes to is the difference of two polynomials.
  moved :
      (x y : ℕ) (p : List ℕ)
      → horner a (foldl (horner a) 0 (x ∷ p)) y
        ≡ x * a ^ suc (length p) + foldl (horner a) 0 (p ++ (y ∷ []))
  moved x y p = omega (
    arith,
    snoc-horner 0 y p,
    ap (λ (t : ℕ). t * a) (horner-shift a (0 * a + x) p),
    ap (λ (t : ℕ). t * a ^ length p * a) (zero-mul-add a x),
    ap (λ (t : ℕ). x * t) (pow-suc a (length p)),
  )

  pub kernel-IsRolling_bozo : IsRolling (kernel bits a)
  kernel-IsRolling_bozo x y p hl hx hp hy =
      ap₂ (λ v u. (absorb bits a v y + 2 ^ bits - u) % 2 ^ bits) (lane-eq-horner (x ∷ p))
        (leaving_weight x (suc (length p)))
      ∙ ap (λ t. (t + 2 ^ bits - x * a ^ suc (length p) % 2 ^ bits) % 2 ^ bits)
          (absorb-mod (foldl (horner a) 0 (x ∷ p)) y ∙ ap (λ t. t % 2 ^ bits) (moved x y p))
      ∙ mod_sub_cancel (2 ^ bits) (x * a ^ suc (length p)) (foldl (horner a) 0 (p ++ (y ∷ [])))
          word_pos
      ∙ sym (lane-eq-horner (p ++ (y ∷ [])))
