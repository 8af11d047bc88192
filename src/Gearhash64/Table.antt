-- ===== src/Gearhash64/Table.antt =====
-- The gear checksum is the polynomial of the table's entries at 2, and the table of shifted entries
-- holds what the leaving byte weighs, for every window length.
use rollinghash.Prelude.{
  ℕ, suc, ◌+◌, ◌-◌, ◌*◌, ◌%◌, ◌^◌, ◌≤◌, ltb, Bool-cases, inl, inr, ◌≡◌, refl, sym, ap, ap₂, ◌∙◌,
  arith, List, [], ◌∷◌, ◌++◌, map, foldl, length,
}
use rollinghash.Prelude.Modular.{mod_sub_cancel, mul-mod_left}
use rollinghash.Prelude.Bits.{two-pow-add}
use mathlib.Core.List.{map-append}
use native.Mathlib.Nat.{mod-add-mod, pow-suc, mul_assoc, mul-mod_left as multiple}
use rollinghash.Kernel.{lane, IsRolling}
use rollinghash.Bozo
use rollinghash.Bozo.Horner.{horner, lane-eq-horner, horner-shift, snoc-horner}
use rollinghash.Gearhash64.{shift_table, absorb, step, kernel}

length-map : (g : ℕ → ℕ) (p : List ℕ) → length (map g p) ≡ length p
length-map g [] = refl
length-map g (c ∷ p) = ap suc (length-map g p)

module _ (g : ℕ → ℕ) where
  -- From 64 on, the leaving byte has no weight left in the word.
  vanishes : (x w : ℕ) → 64 ≤ w → g x * 2 ^ w % 2 ^ 64 ≡ 0
  vanishes x w h =
      let split : w ≡ 64 + (w - 64) = omega arith in
      let power : 2 ^ w ≡ 2 ^ (w - 64) * 2 ^ 64 = ap (λ k. 2 ^ k) split ∙ two-pow-add 64 (w - 64) in
      ap (λ t. g x * t % 2 ^ 64) power
      ∙ ap (λ t. t % 2 ^ 64) (sym (mul_assoc (g x) (2 ^ (w - 64)) (2 ^ 64)))
      ∙ multiple (g x * 2 ^ (w - 64)) (2 ^ 64)

  shift_table_lem : (w x : ℕ) → shift_table g w x ≡ g x * 2 ^ w % 2 ^ 64
  unfolding shift_table
  shift_table_lem w x = elim (Bool-cases (ltb w 64)) [
    | inl e ↦ rw e refl
    | inr e ↦ rw e (sym (vanishes x w (ground arith)))
  ]

  foldl-map : (v : ℕ) (p : List ℕ) → foldl (absorb g) v p ≡ foldl (Bozo.absorb 64 2) v (map g p)
  foldl-map v [] = refl
  foldl-map v (c ∷ p) = foldl-map (absorb g v c) p

  -- The checksum of a window is the polynomial of its table entries at 2, modulo 2 ^ 64.
  pub lane-eq-horner-map : (p : List ℕ) → lane (kernel g) p ≡ foldl (horner 2) 0 (map g p) % 2 ^ 64
  lane-eq-horner-map p = foldl-map 0 p ∙ lane-eq-horner 64 2 (map g p)

  pub kernel-IsRolling_gear : IsRolling (kernel g)
  kernel-IsRolling_gear x y p hl hx hp hy =
      ap₂ (λ v h0. step v h0 (g y)) (lane-eq-horner-map (x ∷ p))
        (shift_table_lem (suc (length p)) x)
      ∙ ap (λ t. ((t + 2 ^ 64 - g x * 2 ^ suc (length p) % 2 ^ 64) % 2 ^ 64 + g y) % 2 ^ 64)
          (mul-mod_left polynomial 2 (2 ^ 64) ∙ ap (λ t. t % 2 ^ 64) moved)
      ∙ ap (λ t. (t + g y) % 2 ^ 64)
          (mod_sub_cancel (2 ^ 64) (g x * 2 ^ suc (length p)) (rest * 2) (omega arith))
      ∙ mod-add-mod (rest * 2) (2 ^ 64) (g y)
      ∙ ap (λ t. t % 2 ^ 64)
          (sym (snoc-horner 64 2 0 (g y) (map g p))
            ∙ ap (foldl (horner 2) 0) (sym (map-append g p (y ∷ []))))
      ∙ sym (lane-eq-horner-map (p ++ (y ∷ [])))
    where
      polynomial : ℕ
      polynomial = foldl (horner 2) 0 (map g (x ∷ p))

      rest : ℕ
      rest = foldl (horner 2) 0 (map g p)

      moved : polynomial * 2 ≡ g x * 2 ^ suc (length p) + rest * 2
      moved = omega (
        arith,
        horner-shift 2 (0 * 2 + g x) (map g p),
        ap (λ (n : ℕ). g x * 2 ^ n) (length-map g p),
        ap (λ (t : ℕ). g x * t) (pow-suc 2 (length p)),
      )
