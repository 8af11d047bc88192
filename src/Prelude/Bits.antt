-- ===== src/Prelude/Bits.antt =====
-- `|`, `&` and `^` on binary digits, at every width: the equation for the lowest digit, and what
-- the packages use of it.
use Prim.Native.Nat.{
  ℕ, zero, suc, ◌+◌, ◌-◌, ◌*◌, ◌/◌, ◌%◌, ◌^◌, ◌≤◌, ◌<◌, min, max, bit_and, bit_or, bit_xor, digits,
  bitwise, differ, bit_and-bitwise, bit_or-bitwise, bit_xor-bitwise,
}
use mathlib.Core.Path.{◌≡◌, refl, ap, ap₂, ◌∙◌}
use native.Mathlib.Omega.{arith}
use native.Mathlib.Nat.{
  le_refl, pow-suc, one-le-pow, mul-add-mod_self_right, mod-eq_of_lt, mod-lt, div-add-mod',
}

-- The recursion on digits stops at the operand's end, so that a larger count changes nothing.
module _ (rest : ℕ → ℕ) (digit : ℕ → ℕ → ℕ) where
  abbrev lowest : ℕ → ℕ → ℕ → ℕ
  lowest x y t = t * 2 + digit (x % 2) (y % 2)

  enough_digits :
      (x y count other : ℕ)
      → x ≤ other
      → x ≤ count
      → digits rest digit other x y ≡ digits rest digit count x y
  enough_digits (suc x) y (suc count) (suc other) le_other le_count =
      ap (lowest (suc x) y)
        (enough_digits (suc x / 2) (y / 2) count other (omega arith) (omega arith))
  enough_digits (suc x) y zero other le_other le_count = absurd (omega arith)
  enough_digits (suc x) y (suc count) zero le_other le_count = absurd (omega arith)
  enough_digits zero y (suc count) (suc other) le_other le_count = refl
  enough_digits zero y (suc count) zero le_other le_count = refl
  enough_digits zero y zero (suc other) le_other le_count = refl
  enough_digits zero y zero zero le_other le_count = refl

  lowest_digit :
      (x y : ℕ)
      → bitwise rest digit (suc x) y ≡ lowest (suc x) y (bitwise rest digit (suc x / 2) (y / 2))
  lowest_digit x y =
      ap (lowest (suc x) y)
        (enough_digits (suc x / 2) (y / 2) (suc x / 2) x (omega arith) (le_refl _))

pub bit_and_step : (x y : ℕ) → bit_and x y ≡ bit_and (x / 2) (y / 2) * 2 + min (x % 2) (y % 2)
bit_and_step (suc x) y = simp bit_and-bitwise (lowest_digit (λ _. 0) min x y)
bit_and_step zero y = simp bit_and-bitwise (omega arith)

differ-parity : (x y : ℕ) → x < 2 → y < 2 → differ x y ≡ (x + y) % 2
differ-parity zero y p q = omega arith
differ-parity (suc zero) zero p q = refl
differ-parity (suc zero) (suc zero) p q = refl
differ-parity (suc zero) (suc (suc y)) p q = absurd (omega arith)
differ-parity (suc (suc x)) y p q = absurd (omega arith)

pub bit_xor_step : (a b : ℕ) → bit_xor a b ≡ bit_xor (a / 2) (b / 2) * 2 + (a + b) % 2
bit_xor_step (suc a) b = simp bit_xor-bitwise (
    omega (
      arith,
      lowest_digit (λ y. y) differ a b,
      differ-parity (suc a % 2) (b % 2) (omega arith) (omega arith),
    ))
bit_xor_step zero b = simp bit_xor-bitwise (omega arith)

pub bit_or_step : (x y : ℕ) → bit_or x y ≡ bit_or (x / 2) (y / 2) * 2 + max (x % 2) (y % 2)
bit_or_step (suc x) y = simp bit_or-bitwise (lowest_digit (λ t. t) max x y)
bit_or_step zero y = simp bit_or-bitwise (omega arith)

xor-half : (a b : ℕ) → bit_xor a b / 2 ≡ bit_xor (a / 2) (b / 2)
xor-half a b = omega (arith, bit_xor_step a b)

xor-parity : (a b : ℕ) → bit_xor a b % 2 ≡ (a + b) % 2
xor-parity a b = omega (arith, bit_xor_step a b)

-- Induction on a bound for all operands: each step halves them.
xor_comm_below : (n a b : ℕ) → a ≤ n → b ≤ n → bit_xor a b ≡ bit_xor b a
xor_comm_below zero a b p q =
    let a0 : a ≡ 0 = omega arith in let b0 : b ≡ 0 = omega arith in rw (a0, b0)
xor_comm_below (suc n) a b p q = omega (
  arith,
  bit_xor_step a b,
  bit_xor_step b a,
  xor_comm_below n (a / 2) (b / 2) (omega arith) (omega arith),
)

pub xor_comm : (a b : ℕ) → bit_xor a b ≡ bit_xor b a
xor_comm a b = xor_comm_below (a + b) a b (omega arith) (omega arith)

xor_assoc_below :
    (n a b c : ℕ) → a ≤ n → b ≤ n → c ≤ n → bit_xor (bit_xor a b) c ≡ bit_xor a (bit_xor b c)
xor_assoc_below zero a b c p q r =
    let a0 : a ≡ 0 = omega arith in
    let b0 : b ≡ 0 = omega arith in let c0 : c ≡ 0 = omega arith in rw (a0, b0, c0)
xor_assoc_below (suc n) a b c p q r = omega (
  arith,
  bit_xor_step (bit_xor a b) c,
  bit_xor_step a (bit_xor b c),
  ap (λ t. bit_xor t (c / 2)) (xor-half a b),
  ap (bit_xor (a / 2)) (xor-half b c),
  xor-parity a b,
  xor-parity b c,
  xor_assoc_below n (a / 2) (b / 2) (c / 2) (omega arith) (omega arith) (omega arith),
)

pub xor_assoc : (a b c : ℕ) → bit_xor (bit_xor a b) c ≡ bit_xor a (bit_xor b c)
xor_assoc a b c = xor_assoc_below (a + b + c) a b c (omega arith) (omega arith) (omega arith)

xor_self_below : (n a : ℕ) → a ≤ n → bit_xor a a ≡ 0
xor_self_below zero a p = let a0 : a ≡ 0 = omega arith in rw a0
xor_self_below (suc n) a p = omega (arith, bit_xor_step a a, xor_self_below n (a / 2) (omega arith))

pub xor_self : (a : ℕ) → bit_xor a a ≡ 0
xor_self a = xor_self_below a a (le_refl a)

pub zero-xor : (a : ℕ) → bit_xor 0 a ≡ a
zero-xor a = bit_xor-bitwise 0 a

pub xor-zero : (a : ℕ) → bit_xor a 0 ≡ a
xor-zero a = xor_comm a 0 ∙ zero-xor a

-- What is put in by `^` is taken out by it.
pub xor_cancel : (a b : ℕ) → bit_xor (bit_xor a b) b ≡ a
xor_cancel a b = xor_assoc a b b ∙ ap (bit_xor a) (xor_self b) ∙ xor-zero a

pub two-pow-add : (n k : ℕ) → 2 ^ (n + k) ≡ 2 ^ k * 2 ^ n
two-pow-add n zero = let e : n + 0 ≡ n = omega arith in ap (λ k. 2 ^ k) e ∙ omega arith
two-pow-add n (suc k) =
    let e : n + suc k ≡ suc (n + k) = omega arith in
    ap (λ j. 2 ^ j) e
    ∙ omega (arith, pow-suc 2 (n + k), two-pow-add n k, ap (λ (t : ℕ). t * 2 ^ n) (pow-suc 2 k))

double-pow : (q k : ℕ) → q * 2 ^ suc k ≡ 2 * (q * 2 ^ k)
double-pow q k = omega (arith, ap (λ (t : ℕ). q * t) (pow-suc 2 k))

-- `^` works on the high and the low digits apart.
pub xor_fields :
    (k q r q' r' : ℕ)
    → r < 2 ^ k
    → r' < 2 ^ k
    → (bit_xor (q * 2 ^ k + r) (q' * 2 ^ k + r') ≡ bit_xor q q' * 2 ^ k + bit_xor r r')
      × (bit_xor r r' < 2 ^ k)
xor_fields zero q r q' r' h h' =
    let r0 : r ≡ 0 = omega arith in
    let r0' : r' ≡ 0 = omega arith in
    let e : q * 2 ^ 0 + 0 ≡ q = omega arith in
    let e' : q' * 2 ^ 0 + 0 ≡ q' = omega arith in
    (rw (r0, r0', e, e') (omega arith), rw (r0, r0') (omega arith))
xor_fields (suc k) q r q' r' h h' =
    let (ih, below) =
      xor_fields k q (r / 2) q' (r' / 2) (omega (arith, pow-suc 2 k))
        (omega (arith, pow-suc 2 k)) in
    let half : (q * 2 ^ suc k + r) / 2 ≡ q * 2 ^ k + r / 2 = omega (arith, double-pow q k) in
    let half' : (q' * 2 ^ suc k + r') / 2 ≡ q' * 2 ^ k + r' / 2 = omega (arith, double-pow q' k) in
    (
      omega (
        arith,
        bit_xor_step (q * 2 ^ suc k + r) (q' * 2 ^ suc k + r'),
        ap₂ bit_xor half half',
        ih,
        bit_xor_step r r',
        double-pow q k,
        double-pow q' k,
        double-pow (bit_xor q q') k,
      ),
      omega (arith, bit_xor_step r r', below, pow-suc 2 k),
    )

pub xor-lt : (k a b : ℕ) → a < 2 ^ k → b < 2 ^ k → bit_xor a b < 2 ^ k
xor-lt k a b p q = (xor_fields k 0 a 0 b p q).1

or-zero_below : (n a : ℕ) → a ≤ n → bit_or a 0 ≡ a
or-zero_below zero a p = let a0 : a ≡ 0 = omega arith in rw a0
or-zero_below (suc n) a p = omega (arith, bit_or_step a 0, or-zero_below n (a / 2) (omega arith))

and-zero_below : (n a : ℕ) → a ≤ n → bit_and a 0 ≡ 0
and-zero_below zero a p = let a0 : a ≡ 0 = omega arith in rw a0
and-zero_below (suc n) a p = omega (arith, bit_and_step a 0, and-zero_below n (a / 2) (omega arith))

-- `q<<k | r` is a sum when `r` has at most `k` digits.
pub or_fields : (k q r : ℕ) → r < 2 ^ k → bit_or (q * 2 ^ k) r ≡ q * 2 ^ k + r
or_fields zero q r h =
    let r0 : r ≡ 0 = omega arith in
    rw r0 (or-zero_below (q * 2 ^ 0) (q * 2 ^ 0) (le_refl _) ∙ omega arith)
or_fields (suc k) q r h =
    let half : q * 2 ^ suc k / 2 ≡ q * 2 ^ k = omega (arith, double-pow q k) in
    omega (
      arith,
      bit_or_step (q * 2 ^ suc k) r,
      ap (λ t. bit_or t (r / 2)) half,
      or_fields k q (r / 2) (omega (arith, pow-suc 2 k)),
      double-pow q k,
    )

-- The low digits of a number, from those of its half.
mod-pow-suc : (k a : ℕ) → a % 2 ^ suc k ≡ a / 2 % 2 ^ k * 2 + a % 2
mod-pow-suc k a =
    ap (λ t. t % 2 ^ suc k) whole
    ∙ mul-add-mod_self_right (a / 2 / 2 ^ k) (2 ^ suc k) (a / 2 % 2 ^ k * 2 + a % 2)
    ∙ mod-eq_of_lt (omega (arith, mod-lt (a / 2) (one-le-pow k 2 (omega arith)), pow-suc 2 k))
  where
    whole : a ≡ a / 2 / 2 ^ k * 2 ^ suc k + (a / 2 % 2 ^ k * 2 + a % 2)
    whole = omega (arith, div-add-mod' (a / 2) (2 ^ k), double-pow (a / 2 / 2 ^ k) k)

-- A mask of `k` low digits is the remainder by `2 ^ k`.
pub and_mask : (k a : ℕ) → bit_and a (2 ^ k - 1) ≡ a % 2 ^ k
and_mask zero a = and-zero_below a a (le_refl a) ∙ omega arith
and_mask (suc k) a =
    let ones : (2 ^ suc k - 1) / 2 ≡ 2 ^ k - 1 =
      omega (arith, pow-suc 2 k, one-le-pow k 2 (omega arith)) in
    omega (
      arith,
      bit_and_step a (2 ^ suc k - 1),
      ap (bit_and (a / 2)) ones,
      and_mask k (a / 2),
      mod-pow-suc k a,
      pow-suc 2 k,
      one-le-pow k 2 (omega arith),
    )

or_comm_below : (n a b : ℕ) → a ≤ n → b ≤ n → bit_or a b ≡ bit_or b a
or_comm_below zero a b p q =
    let a0 : a ≡ 0 = omega arith in let b0 : b ≡ 0 = omega arith in rw (a0, b0)
or_comm_below (suc n) a b p q = omega (
  arith,
  bit_or_step a b,
  bit_or_step b a,
  or_comm_below n (a / 2) (b / 2) (omega arith) (omega arith),
)

pub or_comm : (a b : ℕ) → bit_or a b ≡ bit_or b a
or_comm a b = or_comm_below (a + b) a b (omega arith) (omega arith)
