-- ===== src/Kernel/Positions.antt =====
-- Searching an interval for the positions that pass a test.
use rollinghash.Prelude.{
  ℕ, zero, suc, ◌+◌, ◌-◌, ◌≤◌, ◌<◌, ◌⊎◌, inl, inr, ◌≡◌, refl, sym, ap, ap₂, ◌∙◌, arith, Bool, true,
  false, Bool-cases, ltb, if◌then◌else◌, List, [], ◌∷◌, ◌++◌, map, All,
}
use rollinghash.Kernel.{positions, positions-add}

-- Tests that agree on the interval have the same positions.
pub positions_ext :
    (s t : ℕ → Bool) (lo n : ℕ)
    → ((i : ℕ) → lo ≤ i → i < lo + n → s i ≡ t i)
    → positions s lo n ≡ positions t lo n
positions_ext s t lo zero h = refl
positions_ext s t lo (suc n) h =
    ap₂ (λ b rest. (if b then lo ∷ [] else []) ++ rest) (h lo (omega arith) (omega arith))
      (positions_ext s t (lo + 1) n (λ i p q. h i (omega arith) (omega arith)))

-- Nothing passes.
pub positions_none :
    (t : ℕ → Bool) (lo n : ℕ)
    → ((i : ℕ) → lo ≤ i → i < lo + n → t i ≡ false)
    → positions t lo n ≡ []
positions_none t lo zero h = refl
positions_none t lo (suc n) h =
    rw (h lo (omega arith) (omega arith))
      (positions_none t (lo + 1) n (λ i p q. h i (omega arith) (omega arith)))

-- What is found lies in the interval.
pub positions-All :
    (t : ℕ → Bool) (lo n hi : ℕ) → lo + n ≤ hi → All (λ e. e < hi) (positions t lo n)
positions-All t lo zero hi h = tt
positions-All t lo (suc n) hi h = elim (Bool-cases (t lo)) [
  | inl e ↦ rw e (omega arith, positions-All t (lo + 1) n hi (omega arith))
  | inr e ↦ rw e (positions-All t (lo + 1) n hi (omega arith))
]

-- The same interval, shifted.
pub map-positions :
    (s t : ℕ → Bool) (k lo n : ℕ)
    → ((i : ℕ) → lo ≤ i → i < lo + n → s i ≡ t (i + k))
    → map (λ i. i + k) (positions s lo n) ≡ positions t (lo + k) n
map-positions s t k lo zero h = refl
map-positions s t k lo (suc n) h =
    let shift : lo + 1 + k ≡ lo + k + 1 = omega arith in
    let rest : map (λ i. i + k) (positions s (lo + 1) n) ≡ positions t (lo + k + 1) n =
      map-positions s t k (lo + 1) n (λ i p q. h i (omega arith) (omega arith))
      ∙ ap (λ i. positions t i n) shift in
    let same : s lo ≡ t (lo + k) = h lo (omega arith) (omega arith) in
    elim (Bool-cases (s lo)) [
      | inl e ↦ rw (e, sym same ∙ e) (ap (λ r. (lo + k) ∷ r) rest)
      | inr e ↦ rw (e, sym same ∙ e) rest
    ]

-- The positions from `x` on, where none before `x` passes.
pub positions_skip :
    (t : ℕ → Bool) (lo x hi : ℕ)
    → lo ≤ x
    → x ≤ hi
    → ((i : ℕ) → lo ≤ i → i < x → t i ≡ false)
    → positions t lo (hi - lo) ≡ positions t x (hi - x)
positions_skip t lo x hi h k none_before =
    let count : hi - lo ≡ (x - lo) + (hi - x) = omega arith in
    let start : lo + (x - lo) ≡ x = omega arith in
    ap (positions t lo) count
    ∙ positions-add t lo (x - lo) (hi - x)
    ∙ ap₂ (λ (a : List ℕ) i. a ++ positions t i (hi - x))
        (positions_none t lo (x - lo) (λ i p q. none_before i p (omega arith))) start

-- The first position of an interval that passes, and the ones after it.
pub record First (t : ℕ → Bool) (lo hi : ℕ) : Type 0 where
  pub at : ℕ
  pub passes : t at ≡ true
  pub lo_le : lo ≤ at
  pub below : at < hi
  pub none_before : (i : ℕ) → lo ≤ i → i < at → t i ≡ false
  pub found : positions t lo (hi - lo) ≡ at ∷ positions t (at + 1) (hi - (at + 1))

-- No position of an interval passes.
pub record Nothing (t : ℕ → Bool) (lo hi : ℕ) : Type 0 where
  pub all_fail : (i : ℕ) → lo ≤ i → i < hi → t i ≡ false
  pub found : positions t lo (hi - lo) ≡ []

positions-at :
    (t : ℕ → Bool) (lo hi : ℕ)
    → lo < hi
    → t lo ≡ true
    → positions t lo (hi - lo) ≡ lo ∷ positions t (lo + 1) (hi - (lo + 1))
positions-at t lo hi h e =
    let count : hi - lo ≡ suc (hi - (lo + 1)) = omega arith in ap (positions t lo) count ∙ rw e refl

-- A search either finds the first position or there is none.
pub search_positions :
    (t : ℕ → Bool) (left lo hi : ℕ) → hi - lo ≤ left → First t lo hi ⊎ Nothing t lo hi
search_positions t zero lo hi h =
    let count : hi - lo ≡ 0 = omega arith in
    inr record { all_fail = λ i p q. absurd (omega arith); found = ap (positions t lo) count }
search_positions t (suc left) lo hi h = elim (Bool-cases (t lo)) [
  | inr e ↦ elim (search_positions t left (lo + 1) hi (omega arith)) [
    | inl f ↦ inl record {
      at = f.at;
      passes = f.passes;
      lo_le = omega (arith, f.lo_le);
      below = f.below;
      none_before = λ i p q. before e i p (λ r. f.none_before i r q);
      found =
          positions_skip t lo (lo + 1) hi (omega arith) (omega (arith, f.below, f.lo_le))
            (λ i p q. before e i p (λ r. absurd (omega arith)))
          ∙ f.found;
    }
    | inr n ↦ inr record {
      all_fail = λ i p q. before e i p (λ r. n.all_fail i r q);
      found =
          positions_none t lo (hi - lo) (λ i p q. before e i p (λ r. n.all_fail i r (omega arith)));
    }
  ]
  | inl e ↦ elim (Bool-cases (ltb lo hi)) [
    | inl p ↦ inl record {
      at = lo;
      passes = e;
      lo_le = omega arith;
      below = (ground arith);
      none_before = λ i p q. absurd (omega arith);
      found = positions-at t lo hi (ground arith) e;
    }
    | inr p ↦ inr record {
      all_fail = λ i q r. absurd (ground arith);
      found = positions_none t lo (hi - lo) (λ i q r. absurd (ground arith));
    }
  ]
]
  where
    before : t lo ≡ false → (i : ℕ) → lo ≤ i → (lo + 1 ≤ i → t i ≡ false) → t i ≡ false
    before e i p later = elim (Bool-cases (ltb lo i)) [
      | inl q ↦ later (ground arith)
      | inr q ↦ let same : i ≡ lo = ground arith in ap t same ∙ e
    ]
