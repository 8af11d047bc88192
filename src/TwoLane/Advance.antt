-- ===== src/TwoLane/Advance.antt =====
-- Warming up at an index and stepping from there give the lanes of the windows of the slice.
use rollinghash.Prelude.{
  ℕ, zero, suc, ◌+◌, ◌≤◌, ◌<◌, ◌≡◌, refl, ap, ◌∙◌, arith, List, [], ◌∷◌, ◌++◌, some, foldl, length,
  get_elem?, slice, take, drop, IsBytes, All-take, All-drop, All-get_elem?, get_elem?_of_lt,
  get_elem?-drop, subst, length-take, length-drop,
}
use rollinghash.Kernel.{Kernel, lane, IsRolling, max_window}
use rollinghash.TwoLane.{warm, advance}

pub drop-eq-cons : (p : List ℕ) (i c : ℕ) → get_elem? p i ≡ some c → drop i p ≡ c ∷ drop (i + 1) p
drop-eq-cons [] i c e = absurd (cc e)
drop-eq-cons (x ∷ p) zero c e = ap (λ t. t ∷ p) (cc e)
drop-eq-cons (x ∷ p) (suc i) c e = drop-eq-cons p i c e ∙ ap (λ k. c ∷ drop k (x ∷ p)) same
  where
    same : suc (i + 1) ≡ suc i + 1
    same = omega arith

-- A slice starts with its first byte.
pub slice-suc :
    (p : List ℕ) (i w c : ℕ) → get_elem? p i ≡ some c → slice i (suc w) p ≡ c ∷ slice (i + 1) w p
slice-suc p i w c e = ap (take (suc w)) (drop-eq-cons p i c e)

take-snoc : (q : List ℕ) (w c : ℕ) → get_elem? q w ≡ some c → take (suc w) q ≡ take w q ++ (c ∷ [])
take-snoc [] w c e = absurd (cc e)
take-snoc (x ∷ q) zero c e = ap (λ t. t ∷ []) (cc e)
take-snoc (x ∷ q) (suc w) c e = ap (λ t. x ∷ t) (take-snoc q w c e)

pub length-slice : (p : List ℕ) (i w : ℕ) → i + w ≤ length p → length (slice i w p) ≡ w
length-slice p i w h = omega (arith, length-take w (drop i p), length-drop i p)

-- A slice ends with its last byte.
pub slice-snoc :
    (p : List ℕ) (i w c : ℕ)
    → get_elem? p (i + w) ≡ some c
    → slice i (suc w) p ≡ slice i w p ++ (c ∷ [])
slice-snoc p i w c e = take-snoc (drop i p) w c (get_elem?-drop i w p ∙ e)

module _ (k : Kernel) where
  -- The warm-up loop reads in range, and absorbs the bytes from `at` on.
  pub warm_lem :
      (p : List ℕ) (at left : ℕ) (v : k.Lane)
      → at + left ≤ length p
      → warm k p at left v ≡ some (foldl k.absorb v (slice at left p))
  unfolding warm
  warm_lem p at zero v h = refl
  warm_lem p at (suc left) v h =
      let (c, e) = get_elem?_of_lt p at (omega arith) in
      rw (e, slice-suc p at left c e) (warm_lem p (at + 1) left (k.absorb v c) (omega arith))

  -- A step takes the lane of the window at `i` to that of the window at `i + 1`.
  pub advance_lem :
      (p : List ℕ) (w i : ℕ)
      → IsRolling k
      → IsBytes p
      → 0 < w
      → w < max_window
      → i + w < length p
      → advance k p w i (lane k (slice i w p)) ≡ some (lane k (slice (i + 1) w p))
  unfolding advance
  advance_lem p zero i rolls bytes pos small h = absurd (omega arith)
  advance_lem p (suc w) i rolls bytes pos small h =
      let (x, ex) = get_elem?_of_lt p i (omega arith) in
      let (y, ey) = get_elem?_of_lt p (i + suc w) (omega arith) in
      let q : List ℕ = slice (i + 1) w p in
      let len : length q ≡ w = length-slice p (i + 1) w (omega arith) in
      let at_end : get_elem? p (i + 1 + w) ≡ some y = ap (get_elem? p) (omega arith) ∙ ey in
      let rolled : k.roll (suc (length q)) (lane k (x ∷ q)) x y ≡ lane k (q ++ (y ∷ [])) =
        rolls x y q (omega arith) (All-get_elem? (λ b. b < 256) p i x bytes ex)
          (All-take (λ b. b < 256) w (drop (i + 1) p) (All-drop (λ b. b < 256) (i + 1) p bytes))
          (All-get_elem? (λ b. b < 256) p (i + suc w) y bytes ey) in
      rw (ex, ey, slice-suc p i w x ex, slice-snoc p (i + 1) w y at_end)
        (ap some
          (subst (λ n. k.roll (suc n) (lane k (x ∷ q)) x y ≡ lane k (q ++ (y ∷ []))) len rolled))
