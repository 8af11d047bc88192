-- ===== src/Rabin/Rolling.antt =====
-- rabinkarp64/rabinkarp64.go: the two tables make the rolling step agree with hashing the window.
use rollinghash.Prelude.{
  ℕ, suc, ◌+◌, ◌-◌, ◌*◌, ◌/◌, ◌%◌, ◌^◌, ◌≤◌, ◌<◌, ◌≡◌, refl, sym, ap, ap₂, ◌∙◌, arith, List, [],
  ◌∷◌, ◌++◌, foldl, length, IsBytes, bit_xor, bit_or,
}
use rollinghash.Prelude.Bits.{
  two-pow-add, xor_fields, or_fields, or_comm, xor_comm, xor-zero, zero-xor, xor_cancel, xor_self,
}
use native.Mathlib.Nat.{
  mod-eq_of_lt, one-le-pow, div-add-mod', div-lt_iff_lt-mul, mod-lt, mul_assoc,
}
use rollinghash.Kernel.{IsRolling}
use rollinghash.Rabin.{shift_in, slide, build_tables, shift_of, kernel}
use rollinghash.Rabin.Reduction.{IsReduction, fits_word, shift_in_lem, absorb-lt, lane-lt, lane-xor}

foldl-snoc : (f : ℕ → ℕ → ℕ) (v c : ℕ) (p : List ℕ) → foldl f v (p ++ (c ∷ [])) ≡ f (foldl f v p) c
foldl-snoc f v c [] = refl
foldl-snoc f v c (x ∷ p) = foldl-snoc f (f v x) c p

module _ (reduce : ℕ → ℕ → ℕ) (degree : ℕ → ℕ) (pol : ℕ) (r : IsReduction reduce pol (degree pol))
    (large : 8 ≤ degree pol) (small : degree pol ≤ 56) where
  abbrev A : ℕ → ℕ → ℕ
  A v c = reduce (shift_in v c) pol

  -- The table of leaving bytes takes the byte out.
  slide_out :
      (x : ℕ) (p : List ℕ)
      → x < 256
      → IsBytes p
      → bit_xor (foldl A 0 (x ∷ p)) ((build_tables reduce degree pol (suc (length p))).out x)
        ≡ foldl A 0 p
  slide_out x p b bytes =
      let zero_lt : 0 < 2 ^ degree pol = one-le-pow (degree pol) 2 (omega arith) in
      let first : A 0 x < 2 ^ degree pol =
        absorb-lt reduce pol (degree pol) r small 0 x zero_lt b in
      let count : suc (length p) - 1 ≡ length p = omega arith in
      let parts : foldl A (A 0 x) p ≡ bit_xor (foldl A 0 p) (slide reduce pol (length p) (A 0 x)) =
        ap (λ v. foldl A v p) (sym (zero-xor (A 0 x)))
        ∙ lane-xor reduce pol (degree pol) r small 0 (A 0 x) p zero_lt first bytes in
      ap₂ (λ v n. bit_xor v (slide reduce pol n (A 0 x))) parts count
      ∙ xor_cancel (foldl A 0 p) (slide reduce pol (length p) (A 0 x))

  -- The digits of a value, from the 8 highest on.
  high_digits :
      (v y : ℕ)
      → v < 2 ^ degree pol
      → y < 256
      → (v / 2 ^ (degree pol - 8) < 2 ^ 8)
        × (v * 2 ^ 8 + y
            ≡ v / 2 ^ (degree pol - 8) * 2 ^ degree pol + (v % 2 ^ (degree pol - 8) * 2 ^ 8 + y))
        × (v % 2 ^ (degree pol - 8) * 2 ^ 8 + y < 2 ^ degree pol)
  high_digits v y l b =
      let j : ℕ = degree pol - 8 in
      let k : degree pol ≡ 8 + j = omega arith in
      let power : 2 ^ degree pol ≡ 2 ^ j * 2 ^ 8 = ap (λ n. 2 ^ n) k ∙ two-pow-add 8 j in
      let q : ℕ = v / 2 ^ j in
      let whole : q * 2 ^ j + v % 2 ^ j ≡ v = div-add-mod' v (2 ^ j) in
      let low : v % 2 ^ j < 2 ^ j = mod-lt v (one-le-pow j 2 (omega arith)) in
      let shifted : q * 2 ^ degree pol ≡ q * 2 ^ j * 2 ^ 8 =
        ap (λ t. q * t) power ∙ sym (mul_assoc q (2 ^ j) (2 ^ 8)) in
      (
        (div-lt_iff_lt-mul (one-le-pow j 2 (omega arith))).1 (omega (arith, power)),
        omega (arith, whole, shifted),
        omega (arith, low, power),
      )

  -- The table of reductions takes the 8 highest digits out and puts their remainder in.
  reduce_step :
      (v y : ℕ)
      → v < 2 ^ degree pol
      → y < 256
      → bit_xor
          (shift_in v y)
          ((build_tables reduce degree pol 0).mod_ (v / 2 ^ (shift_of degree pol % 64) % 2 ^ 8))
        ≡ A v y
  reduce_step v y l b =
      let k : ℕ = degree pol in
      let q : ℕ = v / 2 ^ (k - 8) in
      let low : ℕ = v % 2 ^ (k - 8) * 2 ^ 8 + y in
      let (q_lt, split, low_lt) = high_digits v y l b in
      let fits = fits_word k v small l in
      let whole = shift_in_lem k v y small l b in
      let shift : shift_of degree pol % 64 ≡ k - 8 = omega arith in
      let index : v / 2 ^ (shift_of degree pol % 64) % 2 ^ 8 ≡ q =
        ap (λ n. v / 2 ^ n % 2 ^ 8) shift ∙ mod-eq_of_lt q_lt in
      let top_lt : q * 2 ^ k < 2 ^ 64 = omega arith in
      let low_word : low < 2 ^ 64 = omega arith in
      let m : ℕ = reduce (q * 2 ^ k) pol in
      let m_lt : m < 2 ^ k = r.below (q * 2 ^ k) top_lt in
      let zero_lt : 0 < 2 ^ k = one-le-pow k 2 (omega arith) in
      let entry : bit_or (reduce (q * 2 ^ k % 2 ^ 64) pol) (q * 2 ^ k % 2 ^ 64) ≡ q * 2 ^ k + m =
        ap (λ t. bit_or (reduce t pol) t) (mod-eq_of_lt top_lt)
        ∙ or_comm m (q * 2 ^ k)
        ∙ or_fields k q m m_lt in
      let gone : bit_xor (q * 2 ^ k + low) (q * 2 ^ k + m) ≡ bit_xor low m =
        (xor_fields k q low q m low_lt m_lt).0
        ∙ ap (λ t. t * 2 ^ k + bit_xor low m) (xor_self q)
        ∙ omega arith in
      let apart : bit_xor (q * 2 ^ k) low ≡ q * 2 ^ k + low =
        ap₂ bit_xor (omega arith) (omega arith)
        ∙ (xor_fields k q 0 0 low zero_lt low_lt).0
        ∙ ap₂ (λ a c. a * 2 ^ k + c) (xor-zero q) (zero-xor low) in
      ap₂ bit_xor (whole ∙ split)
        (ap (λ i. bit_or (reduce (i * 2 ^ k % 2 ^ 64) pol) (i * 2 ^ k % 2 ^ 64)) index ∙ entry)
      ∙ gone
      ∙ xor_comm low m
      ∙ ap (bit_xor m) (sym (r.reduced low low_lt))
      ∙ sym (r.sum (q * 2 ^ k) low top_lt low_word)
      ∙ ap (λ t. reduce t pol) (apart ∙ sym (whole ∙ split))

  -- The rolling step with the tables of the window's length is the checksum of the moved window.
  pub kernel-IsRolling_rabin : IsRolling (kernel reduce degree pol (shift_of degree pol))
  kernel-IsRolling_rabin x y p hl hx hp hy =
      let zero_lt : 0 < 2 ^ degree pol = one-le-pow (degree pol) 2 (omega arith) in
      let out = slide_out x p hx hp in
      ap
        (λ v.
          bit_xor (shift_in v y)
            ((build_tables reduce degree pol 0).mod_ (v / 2 ^ (shift_of degree pol % 64) % 2 ^ 8)))
        out
      ∙ reduce_step (foldl A 0 p) y (lane-lt reduce pol (degree pol) r small 0 p zero_lt hp) hy
      ∙ sym (foldl-snoc A 0 y p)
