-- ===== src/TwoLane/Hits.antt =====
-- `BatchBoundaries` reports the windows whose checksum has no bit of the mask.
use rollinghash.Prelude.{
  ℕ, zero, suc, ◌+◌, ◌-◌, ◌/◌, ◌%◌, ◌^◌, ◌≤◌, ◌<◌, ◌≡◌, ◌⊎◌, inl, inr, refl, sym, ap, ap₂, ◌∙◌,
  arith, Bool, List, [], ◌∷◌, ◌++◌, some, length, set, set?-eq-set, length-set, take, IsBytes,
  Bool-cases, true, false, append-nil,
}
use rollinghash.Kernel.{
  Kernel, lane_at, sum_of, IsRolling, max_window, positions, if_hit, boundaries, positions-snoc,
  positions-add,
}
use rollinghash.TwoLane.{hit_a, hit_b, is_hit, Hit, batch_boundaries}
use rollinghash.TwoLane.Run.{Emits, two_lanes-Emits, two_lanes_none}

-- `buf` has room for `cap` numbers, and its first `n` are the positions from `lo` up to `hi`.
record IsReported (test : ℕ → Bool) (cap lo hi : ℕ) (buf : List ℕ) (n : ℕ) : Type 0 where
  size : cap ≤ length buf
  from_lo : lo ≤ hi
  reported : take n buf ≡ positions test lo (hi - lo)
  within : n ≤ hi - lo

take-set :
    (buf : List ℕ) (n v : ℕ) → n < length buf → take (n + 1) (set buf n v) ≡ take n buf ++ (v ∷ [])
take-set [] n v h = absurd (omega arith)
take-set (x ∷ buf) zero v h = refl
take-set (x ∷ buf) (suc n) v h =
    ap (λ k. take k (x ∷ set buf n v)) e ∙ ap (λ t. x ∷ t) (take-set buf n v (omega arith))
  where
    e : suc n + 1 ≡ suc (n + 1)
    e = omega arith

module _ (test : ℕ → Bool) (cap lo hi : ℕ) (buf : List ℕ) (n : ℕ)
    (r : IsReported test cap lo hi buf n) where
  one_more : positions test lo (hi + 1 - lo) ≡ positions test lo (hi - lo) ++ if_hit test hi
  one_more =
      let count : hi + 1 - lo ≡ hi - lo + 1 = omega (arith, r.from_lo) in
      let last : lo + (hi - lo) ≡ hi = omega (arith, r.from_lo) in
      ap (positions test lo) count
      ∙ positions-snoc test lo (hi - lo)
      ∙ ap (λ i. positions test lo (hi - lo) ++ if_hit test i) last

  if_hit-true : test hi ≡ true → if_hit test hi ≡ hi ∷ []
  if_hit-true e = rw e

  if_hit-false : test hi ≡ false → if_hit test hi ≡ []
  if_hit-false e = rw e

  IsReported-set :
      test hi ≡ true → n < length buf → IsReported test cap lo (hi + 1) (set buf n hi) (n + 1)
  IsReported-set e room = record {
    size = omega (arith, r.size, length-set buf n hi);
    from_lo = omega (arith, r.from_lo);
    reported = take-set buf n hi room ∙ ap₂ ◌++◌ r.reported (sym (if_hit-true e)) ∙ sym one_more;
    within = omega (arith, r.within, r.from_lo);
  }

  IsReported-miss : test hi ≡ false → IsReported test cap lo (hi + 1) buf n
  IsReported-miss e = record {
    size = r.size;
    from_lo = omega (arith, r.from_lo);
    reported =
        r.reported
        ∙ sym (
            one_more
            ∙ ap (λ t. positions test lo (hi - lo) ++ t) (if_hit-false e)
            ∙ append-nil (positions test lo (hi - lo)));
    within = omega (arith, r.within, r.from_lo);
  }

IsReported-start :
    (test : ℕ → Bool) (cap lo : ℕ) (buf : List ℕ)
    → cap ≤ length buf
    → IsReported test cap lo lo buf 0
IsReported-start test cap lo buf h =
    let none_yet : lo - lo ≡ 0 = omega arith in
    record {
      size = h;
      from_lo = omega arith;
      reported = ap (positions test lo) (sym none_yet);
      within = omega arith;
    }

-- The state of both buffers when lane A has tested up to `i`, and lane B from `half` up to `j`.
record Reports (test : ℕ → Bool) (cap half i j : ℕ) (s : Hit) : Type 0 where
  lane_a : IsReported test cap 0 i s.a s.na
  lane_b : IsReported test cap half j s.b s.nb

module _ (mask : ℕ) (value_at : ℕ → ℕ) (cap half : ℕ) (small : cap ≤ 2 ^ 31) where
  abbrev test_at : ℕ → Bool
  test_at i = is_hit mask (value_at i)

  int32_lem : (i : ℕ) → i < cap → i % 2 ^ 32 ≡ i
  int32_lem i h = omega arith

  hit_a-Reports :
      (i j : ℕ) (s : Hit)
      → i < cap
      → Reports test_at cap half i j s
      → Emits (Reports test_at cap half (i + 1) j) (hit_a mask i (value_at i) s)
  unfolding hit_a
  hit_a-Reports i j s h r = elim (Bool-cases (test_at i)) [
    | inl e ↦ (
      record s { a = set s.a s.na i; na = s.na + 1 },
      rw (e, int32_lem i h, set?-eq-set s.a s.na i room),
      record {
        lane_a = IsReported-set test_at cap 0 i s.a s.na r.lane_a e room;
        lane_b = r.lane_b;
      },
    )
    | inr e ↦ (
      s,
      rw e refl,
      record { lane_a = IsReported-miss test_at cap 0 i s.a s.na r.lane_a e; lane_b = r.lane_b },
    )
  ]
    where
      room : s.na < length s.a
      room = omega (arith, r.lane_a.size, r.lane_a.within)

  hit_b-Reports :
      (i j : ℕ) (s : Hit)
      → j < cap
      → Reports test_at cap half i j s
      → Emits (Reports test_at cap half i (j + 1)) (hit_b mask j (value_at j) s)
  unfolding hit_b
  hit_b-Reports i j s h r = elim (Bool-cases (test_at j)) [
    | inl e ↦ (
      record s { b = set s.b s.nb j; nb = s.nb + 1 },
      rw (e, int32_lem j h, set?-eq-set s.b s.nb j room),
      record {
        lane_a = r.lane_a;
        lane_b = IsReported-set test_at cap half j s.b s.nb r.lane_b e room;
      },
    )
    | inr e ↦ (
      s,
      rw e refl,
      record { lane_a = r.lane_a; lane_b = IsReported-miss test_at cap half j s.b s.nb r.lane_b e },
    )
  ]
    where
      room : s.nb < length s.b
      room = omega (arith, r.lane_b.size, r.lane_b.within)

-- For any arithmetic whose rolling step agrees with hashing the moved window again, bytes as data,
-- a window of 1 to 2^32 - 1 bytes that fits the data, buffers with room for every window and at
-- most 2^31 windows, the two-lane BatchBoundaries does not panic and reports exactly the windows
-- whose checksum has no bit of the mask, in order.
pub batch_boundaries-boundaries :
    (k : Kernel)
    → IsRolling k
    → (mask : ℕ) (a b p : List ℕ) (w : ℕ) → IsBytes p
    → 0 < w
    → w < max_window
    → w ≤ length p
    → length p + 1 ≤ length a + w
    → length p + 1 ≤ length b + w
    → length p + 1 ≤ 2 ^ 31 + w
    → (r : Hit) × (batch_boundaries k mask a b p w ≡ some r)
      × (take r.na r.a ++ take r.nb r.b ≡ boundaries (sum_of k) mask w p)
unfolding batch_boundaries
batch_boundaries-boundaries k rolls mask a b p w bytes pos short fits room_a room_b small =
    let n : ℕ = length p - w in
    let half : ℕ = (n + 2) / 2 in
    let cap : ℕ = length p + 1 - w in
    let value_at : ℕ → ℕ = λ i. k.value (lane_at k w p i) in
    let test : ℕ → Bool = λ i. is_hit mask (value_at i) in
    let few : cap ≤ 2 ^ 31 = omega arith in
    let start : Reports test cap half 0 half (record { a = a; b = b; na = 0; nb = 0 }) = record {
      lane_a = IsReported-start test cap 0 a (omega arith);
      lane_b = IsReported-start test cap half b (omega arith);
    } in
    let (r, er, s) =
      two_lanes-Emits k rolls p w bytes pos short (hit_a mask) (hit_b mask)
        (λ i j t. Reports test cap half i j t) half
        (λ i j t h q. hit_a-Reports mask value_at cap half few i j t (omega arith) q)
        (λ i j t h h' q. hit_b-Reports mask value_at cap half few i j t (omega arith) q) n
        (record { a = a; b = b; na = 0; nb = 0 }) (omega arith) refl start in
    let total : half + (n + 1 - half) ≡ cap = omega arith in
    (
      r,
      er,
      ap₂ ◌++◌ s.lane_a.reported s.lane_b.reported
          ∙ sym (ap (positions test 0) (sym total) ∙ joined test half (n + 1 - half)),
    )
  where
    joined :
        (test : ℕ → Bool) (n m : ℕ)
        → positions test 0 (n + m) ≡ positions test 0 (n - 0) ++ positions test n m
    joined test n m =
        let whole : n ≡ n - 0 = omega arith in
        let shift : 0 + n ≡ n = omega arith in
        positions-add test 0 n m
        ∙ ap₂ ◌++◌ (ap (positions test 0) whole) (ap (λ i. positions test i m) shift)

-- With an empty window, or a slice shorter than the window, no position is reported.
pub batch_boundaries_none :
    (k : Kernel) (mask : ℕ) (a b p : List ℕ) (w : ℕ)
    → (w ≡ 0) ⊎ (length p < w)
    → batch_boundaries k mask a b p w ≡ some (record { a = a; b = b; na = 0; nb = 0 })
unfolding batch_boundaries
batch_boundaries_none k mask a b p w h = two_lanes_none k (hit_a mask) (hit_b mask) p w _ h
