-- ===== src/Prelude/Modular.antt =====
-- Arithmetic of machine words: sums, products and wrapping differences modulo `m`.
use Prim.Native.Nat.{ℕ, ◌+◌, ◌-◌, ◌*◌, ◌%◌, ◌<◌}
use mathlib.Core.Path.{◌≡◌, ◌∙◌, ap, sym}
use native.Mathlib.Decide.{dec_lt}
use native.Mathlib.Omega.{arith}
use native.Mathlib.Nat.{
  add-mod, mod-lt, mod-eq_of_lt, mod-eq-sub-mod, add-mod_right, add-mul-mod_self_right,
  div-add-mod', mul_comm,
}
use Prim.Native.Nat.{◌/◌}

-- Below the modulus, adding and then taking off with the wrap gives the number back.
mod_sub_cancel_small : (m x y : ℕ) → x < m → y < m → ((x + y) % m + m - x) % m ≡ y
mod_sub_cancel_small m x y hx hy = elim (dec_lt (x + y) m) [
  | yes p ↦
      rw (mod-eq_of_lt p) (ap (λ t. t % m) (omega arith) ∙ add-mod_right y m ∙ mod-eq_of_lt hy)
  | no p ↦
      rw
        (
          mod-eq-sub-mod {n = x + y} {m = m} (omega arith),
          mod-eq_of_lt {n = x + y - m} {m = m} (omega arith),
        )
        (ap (λ t. t % m) (omega arith) ∙ mod-eq_of_lt hy)
]

-- A wrapping difference takes off what was added.
pub mod_sub_cancel : (m x y : ℕ) → 0 < m → ((x + y) % m + m - x % m) % m ≡ y % m
mod_sub_cancel m x y h =
    rw (add-mod x y m) (mod_sub_cancel_small m (x % m) (y % m) (mod-lt x h) (mod-lt y h))

-- A product may be reduced in its left factor.
pub mul-mod_left : (a b m : ℕ) → a % m * b % m ≡ a * b % m
mul-mod_left a b m = sym (add-mul-mod_self_right (a % m * b) (a / m * b) m) ∙ ap (λ t. t % m) whole
  where
    whole : a % m * b + a / m * b * m ≡ a * b
    whole = omega (arith, ap (λ (t : ℕ). t * b) (div-add-mod' a m))

pub mul-mod_right : (a b m : ℕ) → a * (b % m) % m ≡ a * b % m
mul-mod_right a b m = rw (mul_comm a (b % m), mul_comm a b) (mul-mod_left b a m)
