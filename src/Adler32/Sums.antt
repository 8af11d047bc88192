-- ===== src/Adler32/Sums.antt =====
-- The two sums of Adler-32, without the wrap, and the lanes that compute them modulo 65521.
use rollinghash.Prelude.{
  ℕ, suc, ◌+◌, ◌-◌, ◌*◌, ◌%◌, ◌^◌, ◌≤◌, ◌<◌, ◌≡◌, refl, sym, ap, ap₂, ◌∙◌, arith, List, [], ◌∷◌,
  ◌++◌, foldl, length, IsBytes, All-append,
}
use rollinghash.Prelude.Modular.{mul-mod_left}
use native.Mathlib.Nat.{mul_comm, add_comm, mul-le-mul, mod-eq_of_lt}
use rollinghash.Kernel.{lane, IsRolling}
use rollinghash.Adler32.{Accumulators, absorb, step, roll_a, roll_b, kernel, mod_adler}

-- 1 and the sum of all bytes, and the sum of those sums.
unfoldable pub sum_a : ℕ → List ℕ → ℕ
sum_a a [] = a
sum_a a (c ∷ p) = sum_a (a + c) p

unfoldable pub sum_b : ℕ → ℕ → List ℕ → ℕ
sum_b a b [] = b
sum_b a b (c ∷ p) = sum_b (a + c) (b + (a + c)) p

sum_a-shift : (x a : ℕ) (p : List ℕ) → sum_a (x + a) p ≡ x + sum_a a p
unfolding sum_a
sum_a-shift x a [] = refl
sum_a-shift x a (c ∷ p) = ap (λ t. sum_a t p) (omega arith) ∙ sum_a-shift x (a + c) p

sum_b-shift : (x y a b : ℕ) (p : List ℕ) → sum_b (x + a) (y + b) p ≡ x * length p + y + sum_b a b p
unfolding sum_b
sum_b-shift x y a b [] = omega arith
sum_b-shift x y a b (c ∷ p) =
    ap₂ (λ s t. sum_b s t p) (omega arith) (omega arith)
    ∙ sum_b-shift x (x + y) (a + c) (b + (a + c)) p
    ∙ omega (arith)

sum_a-snoc : (a y : ℕ) (p : List ℕ) → sum_a a (p ++ (y ∷ [])) ≡ sum_a a p + y
unfolding sum_a
sum_a-snoc a y [] = refl
sum_a-snoc a y (c ∷ p) = sum_a-snoc (a + c) y p

sum_b-snoc :
    (a b y : ℕ) (p : List ℕ) → sum_b a b (p ++ (y ∷ [])) ≡ sum_b a b p + sum_a a (p ++ (y ∷ []))
unfolding sum_b sum_a
sum_b-snoc a b y [] = refl
sum_b-snoc a b y (c ∷ p) = sum_b-snoc (a + c) (b + (a + c)) y p

abbrev reduced : ℕ → ℕ → Accumulators
reduced a b = record { a = a % mod_adler; b = b % mod_adler }

absorb-reduced : (a b c : ℕ) → c < 256 → absorb (reduced a b) c ≡ reduced (a + c) (b + (a + c))
unfolding absorb
absorb-reduced a b c h = ground arith

lane-reduced :
    (a b : ℕ) (p : List ℕ)
    → IsBytes p
    → foldl absorb (reduced a b) p ≡ reduced (sum_a a p) (sum_b a b p)
unfolding sum_a sum_b
lane-reduced a b [] h = refl
lane-reduced a b (c ∷ p) h =
    ap (λ t. foldl absorb t p) (absorb-reduced a b c h.0) ∙ lane-reduced (a + c) (b + (a + c)) p h.1

-- The lane after a window of bytes holds the two sums of Adler-32 modulo 65521.
pub lane-eq-sums :
    (p : List ℕ)
    → IsBytes p
    → lane kernel p ≡ record { a = sum_a 1 p % 65521; b = sum_b 1 0 p % 65521 }
lane-eq-sums p h = lane-reduced 1 0 p h

-- What rolling from `x ∷ p` to `p ++ (y ∷ [])` does to the sums.
sum_a-moved : (x y : ℕ) (p : List ℕ) → sum_a 1 (x ∷ p) + y ≡ x + sum_a 1 (p ++ (y ∷ []))
unfolding sum_a
sum_a-moved x y p =
    omega (arith, ap (λ t. sum_a t p) (add_comm 1 x), sum_a-shift x 1 p, sum_a-snoc 1 y p)

sum_b-moved :
    (x y : ℕ) (p : List ℕ)
    → sum_b 1 0 (x ∷ p) + sum_a 1 (p ++ (y ∷ []))
      ≡ x * suc (length p) + 1 + sum_b 1 0 (p ++ (y ∷ []))
unfolding sum_b
sum_b-moved x y p = omega (
  arith,
  ap₂ (λ s t. sum_b s t p) (add_comm 1 x) (start x),
  sum_b-shift x (x + 1) 1 0 p,
  sum_b-snoc 1 0 y p,
)
  where
    start : (x : ℕ) → 0 + (1 + x) ≡ x + 1 + 0
    start x = omega arith

roll_a-mod :
    (a s x y : ℕ) → x < 256 → y < 256 → a + y ≡ x + s → roll_a (a % mod_adler) x y ≡ s % mod_adler
unfolding roll_a
roll_a-mod a s x y hx hy e = omega arith

product_fits : (q x : ℕ) → q ≤ 65520 → x ≤ 255 → q * x % 2 ^ 32 ≡ q * x
product_fits q x hq hx =
    let bound : q * x ≤ 65520 * 255 = mul-le-mul hq hx in mod-eq_of_lt (omega arith)

-- `uint32(window) % Mod` times the leaving byte fits a uint32.
leaving_product :
    (x n : ℕ)
    → x < 256
    → n < 2 ^ 32
    → n % 2 ^ 32 % mod_adler * x % 2 ^ 32 % mod_adler ≡ x * n % mod_adler
leaving_product x n hx hn =
    ap (λ t. t % mod_adler * x % 2 ^ 32 % mod_adler) (mod-eq_of_lt hn)
    ∙ ap (λ t. t % mod_adler) (product_fits (n % mod_adler) x (omega arith) (omega arith))
    ∙ mul-mod_left n x mod_adler
    ∙ ap (λ t. t % mod_adler) (mul_comm n x)

roll_b-mod :
    (b s t x n : ℕ)
    → x < 256
    → n < 2 ^ 32
    → b + s ≡ x * n + 1 + t
    → roll_b (n % 2 ^ 32 % mod_adler) (b % mod_adler) (s % mod_adler) x ≡ t % mod_adler
unfolding roll_b
roll_b-mod b s t x n hx hn e = rw (leaving_product x n hx hn) (settle (x * n) e)
  where
    settle :
        (u : ℕ)
        → b + s ≡ u + 1 + t
        → ((((b % 65521 + s % 65521) % 2 ^ 32 + 65521) % 2 ^ 32 + 2 ^ 32 - 1) % 2 ^ 32
              + 2 ^ 32
              - u % 65521)
            % 2 ^ 32
            % 65521
          ≡ t % 65521
    settle u q = omega arith

pub kernel-IsRolling_adler : IsRolling kernel
unfolding step
kernel-IsRolling_adler x y p short hx hp hy =
    ap (λ v. step (suc (length p) % 2 ^ 32 % mod_adler) v x y) (lane-eq-sums (x ∷ p) (hx, hp))
    ∙ moved
    ∙ sym (lane-eq-sums (p ++ (y ∷ [])) (All-append (λ b. b < 256) p (y ∷ []) hp (hy, tt)))
  where
    sums : List ℕ → Accumulators
    sums q = reduced (sum_a 1 q) (sum_b 1 0 q)

    new_a : roll_a (sum_a 1 (x ∷ p) % mod_adler) x y ≡ sum_a 1 (p ++ (y ∷ [])) % mod_adler
    new_a = roll_a-mod (sum_a 1 (x ∷ p)) (sum_a 1 (p ++ (y ∷ []))) x y hx hy (sum_a-moved x y p)

    moved : step (suc (length p) % 2 ^ 32 % mod_adler) (sums (x ∷ p)) x y ≡ sums (p ++ (y ∷ []))
    moved = rw new_a (
        ap (λ b. record { a = sum_a 1 (p ++ (y ∷ [])) % mod_adler; b = b })
          (roll_b-mod (sum_b 1 0 (x ∷ p)) (sum_a 1 (p ++ (y ∷ []))) (sum_b 1 0 (p ++ (y ∷ []))) x
            (suc (length p)) hx short (sum_b-moved x y p)))
