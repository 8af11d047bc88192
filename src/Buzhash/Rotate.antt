-- ===== src/Buzhash/Rotate.antt =====
-- Rotations of a word: one step after another, and their commuting with `^`.
use rollinghash.Prelude.{
  ℕ, zero, suc, ◌+◌, ◌-◌, ◌*◌, ◌/◌, ◌%◌, ◌^◌, ◌<◌, ◌≡◌, refl, sym, ap, ap₂, ◌∙◌, arith, bit_xor,
}
use rollinghash.Prelude.Bits.{xor_fields, two-pow-add}
use native.Mathlib.Nat.{
  mul_comm, pow-suc, mod-one, div-one, div-eq_of_lt, zero-mod, zero-div, suc-mod, mod_self,
  one-le-pow, mod-lt, div-add-mod', mod-eq_of_lt, div-lt_iff_lt-mul, mul-add-mod_self_right,
}
use native.Mathlib.Decide.{dec_lt}
use rollinghash.Buzhash.{rotate_left}

-- A number is known by its quotient and remainder.
div_mod_unique : (q r d : ℕ) → r < d → ((q * d + r) / d ≡ q) × ((q * d + r) % d ≡ r)
div_mod_unique q r d h = (grind arith, mul-add-mod_self_right q d r ∙ mod-eq_of_lt h)

-- `x` cut into its highest digits `h`, the next digit `b`, and the rest `l`, where `q` is the weight
-- of `b` and `k` the number that the highest digits are below.
regroup :
    (q k h b l : ℕ)
    → h < k
    → b < 2
    → l < q
    → ((l * k + h < q * k))
      × (b * (q * k) + (l * k + h) ≡ (b * q + l) * k + h)
      × ((l * k + h) * 2 + b ≡ l * (2 * k) + (2 * h + b))
regroup q k h b l hh hb hl = (grind arith, omega arith, omega arith)

rotate_parts :
    (q k h b l : ℕ)
    → h < k
    → b < 2
    → l < q
    → ((b * q + l) * k + h) % (q * k) * 2 + ((b * q + l) * k + h) / (q * k)
      ≡ ((2 * h + b) * q + l) % q * (2 * k) + ((2 * h + b) * q + l) / q
rotate_parts q k h b l hh hb hl =
    let (small, cut, joined) = regroup q k h b l hh hb hl in
    let (div_y, mod_y) = div_mod_unique b (l * k + h) (q * k) small in
    let (div_x, mod_x) = div_mod_unique (2 * h + b) l q hl in
    rw (← cut, div_y, mod_y, div_x, mod_x) joined

-- One more step of a rotation that has moved the digits by the weight `k`.
rotate_more :
    (x q k : ℕ)
    → 0 < q
    → x < 2 * q * k
    → (x % (2 * q) * k + x / (2 * q)) % (q * k) * 2 + (x % (2 * q) * k + x / (2 * q)) / (q * k)
      ≡ x % q * (2 * k) + x / q
rotate_more x q k hq hx =
    ap (λ u. (u * k + h) % (q * k) * 2 + (u * k + h) / (q * k)) (sym low_whole)
    ∙ rotate_parts q k h b l h_lt b_lt (mod-lt low hq)
    ∙ ap (λ t. t % q * (2 * k) + t / q) whole
  where
    h : ℕ
    h = x / (2 * q)

    low : ℕ
    low = x % (2 * q)

    b : ℕ
    b = low / q

    l : ℕ
    l = low % q

    low_whole : b * q + l ≡ low
    low_whole = div-add-mod' low q

    twice_pos : 0 < 2 * q
    twice_pos = omega arith

    b_lt : b < 2
    b_lt = (div-lt_iff_lt-mul hq).1 (mod-lt x twice_pos)

    h_lt : h < k
    h_lt = (div-lt_iff_lt-mul {k = 2 * q} {x = x} {y = k} twice_pos).1 (omega arith)

    whole : (2 * h + b) * q + l ≡ x
    whole = omega (arith, div-add-mod' x (2 * q), low_whole)

module _ (bits : ℕ) where
  -- Rotating by `k` and then by one is rotating by `k + 1`.
  rotate_left-suc :
      (x k : ℕ)
      → k < bits
      → x < 2 ^ bits
      → rotate_left bits (rotate_left bits x k) 1 ≡ rotate_left bits x (suc k)
  unfolding rotate_left
  rotate_left-suc x k h hx =
      let q : ℕ = 2 ^ (bits - suc k) in
      let next : bits - k ≡ suc (bits - suc k) = omega arith in
      let twice : 2 ^ (bits - k) ≡ 2 * q =
        ap (λ j. 2 ^ j) next ∙ omega (arith, pow-suc 2 (bits - suc k)) in
      let last : bits - 1 ≡ bits - suc k + k = omega arith in
      let top : 2 ^ (bits - 1) ≡ q * 2 ^ k =
        ap (λ j. 2 ^ j) last ∙ two-pow-add (bits - suc k) k ∙ mul_comm (2 ^ k) q in
      let all : bits ≡ bits - k + k = omega arith in
      let bound : 2 ^ bits ≡ 2 * q * 2 ^ k =
        ap (λ j. 2 ^ j) all
        ∙ two-pow-add (bits - k) k
        ∙ mul_comm (2 ^ k) (2 ^ (bits - k))
        ∙ ap (λ t. t * 2 ^ k) twice in
      let double : 2 ^ suc k ≡ 2 * 2 ^ k = omega (arith, pow-suc 2 k) in
      rw (twice, top, double)
        (rotate_more x q (2 ^ k) (one-le-pow (bits - suc k) 2 (omega arith)) (omega arith))

  rotate_left-zero : (x : ℕ) → x < 2 ^ bits → rotate_left bits x 0 ≡ x
  unfolding rotate_left
  rotate_left-zero x h =
      let e : bits - 0 ≡ bits = omega arith in rw (e, mod-eq_of_lt h, div-eq_of_lt h) (omega arith)

  rotate_left-all : (x : ℕ) → rotate_left bits x bits ≡ x
  unfolding rotate_left
  rotate_left-all x =
      let e : bits - bits ≡ 0 = omega arith in
      rw e (ap₂ (λ u v. u * 2 ^ bits + v) (mod-one x) (div-one x) ∙ omega arith)

  half_word : 0 < bits → 2 ^ bits ≡ 2 * 2 ^ (bits - 1)
  half_word pos =
      let e : bits ≡ suc (bits - 1) = omega arith in
      ap (λ j. 2 ^ j) e ∙ omega (arith, pow-suc 2 (bits - 1))

  high_digit : (x : ℕ) → 0 < bits → x < 2 ^ bits → x / 2 ^ (bits - 1) < 2
  high_digit x pos h =
      (div-lt_iff_lt-mul (one-le-pow (bits - 1) 2 (omega arith))).1 (omega (arith, half_word pos))

  low_digits : (x : ℕ) → x % 2 ^ (bits - 1) < 2 ^ (bits - 1)
  low_digits x = mod-lt x (one-le-pow (bits - 1) 2 (omega arith))

  pub rotate_left-lt : (x : ℕ) → 0 < bits → x < 2 ^ bits → rotate_left bits x 1 < 2 ^ bits
  unfolding rotate_left
  rotate_left-lt x pos h = omega (arith, half_word pos, high_digit x pos h, low_digits x)

  -- `n` rotations by one are a rotation by `n` modulo the number of bits.
  pub rotate_times : ℕ → ℕ → ℕ
  rotate_times zero x = x
  rotate_times (suc n) x = rotate_left bits (rotate_times n x) 1

  pub rotate_times-mod :
      (n x : ℕ) → 0 < bits → x < 2 ^ bits → rotate_times n x ≡ rotate_left bits x (n % bits)
  unfolding rotate_times
  rotate_times-mod zero x pos h =
      sym (rotate_left-zero x h) ∙ ap (rotate_left bits x) (sym (zero-mod bits))
  rotate_times-mod (suc n) x pos h =
      ap (λ t. rotate_left bits t 1) (rotate_times-mod n x pos h)
      ∙ rotate_left-suc x (n % bits) (mod-lt n pos) h
      ∙ elim (dec_lt (suc (n % bits)) bits) [
        | yes below ↦ ap (rotate_left bits x) (sym (suc-mod n bits ∙ mod-eq_of_lt below))
        | no full ↦
            let e : suc (n % bits) ≡ bits = omega (arith, mod-lt n pos) in
            ap (rotate_left bits x) e
            ∙ rotate_left-all x
            ∙ sym (rotate_left-zero x h)
            ∙ ap (rotate_left bits x) (sym (suc-mod n bits ∙ ap (λ t. t % bits) e ∙ mod_self bits))
      ]

  -- Rotation by one commutes with `^`.
  pub rotate_left-xor :
      (x y : ℕ)
      → 0 < bits
      → x < 2 ^ bits
      → y < 2 ^ bits
      → rotate_left bits (bit_xor x y) 1 ≡ bit_xor (rotate_left bits x 1) (rotate_left bits y 1)
  unfolding rotate_left
  rotate_left-xor x y pos hx hy =
      let t : ℕ = 2 ^ (bits - 1) in
      let (cut, small) =
        xor_fields (bits - 1) (x / t) (x % t) (y / t) (y % t) (low_digits x) (low_digits y) in
      let (joined, _) =
        xor_fields 1 (x % t) (x / t) (y % t) (y / t) (high_digit x pos hx) (high_digit y pos hy) in
      let split : bit_xor x y ≡ bit_xor (x / t) (y / t) * t + bit_xor (x % t) (y % t) =
        ap₂ bit_xor (sym (div-add-mod' x t)) (sym (div-add-mod' y t)) ∙ cut in
      let (high, low) =
        div_mod_unique (bit_xor (x / t) (y / t)) (bit_xor (x % t) (y % t)) t small in
      ap (λ u. u % t * 2 + u / t) split ∙ ap₂ (λ u v. u * 2 + v) low high ∙ sym joined

  pub rotate_left_of_zero : rotate_left bits 0 1 ≡ 0
  unfolding rotate_left
  rotate_left_of_zero = rw (zero-mod (2 ^ (bits - 1)), zero-div (2 ^ (bits - 1)))

  pub rotate_times-lt : (n x : ℕ) → 0 < bits → x < 2 ^ bits → rotate_times n x < 2 ^ bits
  unfolding rotate_times
  rotate_times-lt zero x pos h = h
  rotate_times-lt (suc n) x pos h =
      rotate_left-lt (rotate_times n x) pos (rotate_times-lt n x pos h)

  pub rotate_times-rotate_left :
      (n x : ℕ) → rotate_times n (rotate_left bits x 1) ≡ rotate_times (suc n) x
  unfolding rotate_times
  rotate_times-rotate_left zero x = refl
  rotate_times-rotate_left (suc n) x = ap (λ t. rotate_left bits t 1) (rotate_times-rotate_left n x)

  pub rotate_times-suc : (n x : ℕ) → rotate_left bits (rotate_times n x) 1 ≡ rotate_times (suc n) x
  unfolding rotate_times
  rotate_times-suc n x = refl

  pub rotate_times-zero : (x : ℕ) → rotate_times 0 x ≡ x
  unfolding rotate_times
  rotate_times-zero x = refl
