-- ===== src/TwoLane/Run.antt =====
-- The rule for reasoning about both lanes: an invariant of the sink that every emission keeps.
use rollinghash.Prelude.{
  ℕ, zero, suc, ◌+◌, ◌-◌, ◌/◌, ◌≤◌, ◌<◌, min, ltb, leb, if◌then◌else◌, ◌||◌, Bool-cases, inl, inr,
  ◌≡◌, refl, ◌⊎◌, ap, arith, List, Option, some, length, IsBytes, subst, false,
}
use rollinghash.Kernel.{Kernel, lane_at, IsRolling, max_window}
use rollinghash.TwoLane.{warm, finish, lockstep, both_lanes, two_lanes, Pair}
use rollinghash.TwoLane.Advance.{warm_lem, advance_lem}

-- `emit` succeeds at `i` on `t`, and leaves a sink with `Q`.
abbrev pub Emits : {T : Type 0} → (T → Type 0) → Option T → Type 0
Emits {T} Q o = (t : T) × (o ≡ some t) × Q t

module _ (k : Kernel) (rolls : IsRolling k) (p : List ℕ) (w : ℕ) (bytes : IsBytes p) (pos : 0 < w)
    (short : w < max_window) {T : Type 0} where
  -- One lane, from the window after `i` up to the window before `hi`.
  finish-Emits :
      (emit : ℕ → ℕ → T → Option T) (Q : ℕ → T → Type 0) (hi : ℕ)
      → ((i : ℕ) (t : T)
          → i < hi
          → Q i t
          → Emits (Q (i + 1)) (emit i (k.value (lane_at k w p i)) t))
      → hi + w ≤ length p + 1
      → (left i : ℕ) (t : T) → i + 1 + left ≡ hi
      → Q (i + 1) t
      → Emits (Q hi) (finish k emit p w left i (lane_at k w p i) t)
  unfolding finish
  finish-Emits emit Q hi keep room zero i t e q =
      let e' : i + 1 ≡ hi = omega arith in (t, refl, subst (λ j. Q j t) e' q)
  finish-Emits emit Q hi keep room (suc left) i t e q =
      let (t', et, q') = keep (i + 1) t (omega arith) q in
      let (r, er, qr) = finish-Emits emit Q hi keep room left (i + 1) t' (omega arith) q' in
      (r, rw (advance_lem k p w i rolls bytes pos short (omega arith), et) er, qr)

-- The calls of `both_lanes` in turn.
both_lanes_steps :
    (k : Kernel) {T : Type 0} (emit_a emit_b : ℕ → ℕ → T → Option T) (p : List ℕ) (w n half : ℕ)
    (va vb va' vb' : k.Lane) (t t' t_a : T) (l : Pair k T) (r : Option T)
    → warm k p half w k.start ≡ some vb
    → emit_b half (k.value vb) t ≡ some t'
    → lockstep k emit_a emit_b p w
        (min (half - 1) (n - half))
        (record { ia = 0; ib = half; va = va; vb = vb; sink = t' })
      ≡ some l
    → l.va ≡ va'
    → l.vb ≡ vb'
    → finish k emit_a p w (half - 1 - l.ia) l.ia va' l.sink ≡ some t_a
    → finish k emit_b p w (n - l.ib) l.ib vb' t_a ≡ r
    → both_lanes k emit_a emit_b p w n half va t ≡ r
unfolding both_lanes
both_lanes_steps k emit_a emit_b p w n half va vb va' vb' t t' t_a l r e1 e2 e3 ea eb e4 e5 =
    rw (e1, e2, e3, ea, e4, eb) e5

module _ (k : Kernel) (rolls : IsRolling k) (p : List ℕ) (w : ℕ) (bytes : IsBytes p) (pos : 0 < w)
    (short : w < max_window) {T : Type 0} (emit_a emit_b : ℕ → ℕ → T → Option T)
    (P : ℕ → ℕ → T → Type 0) (half : ℕ)
    (keep_a : (i j : ℕ) (t : T)
      → i < half
      → P i j t
      → Emits (P (i + 1) j) (emit_a i (k.value (lane_at k w p i)) t))
    (keep_b : (i j : ℕ) (t : T)
      → half ≤ j
      → j + w ≤ length p
      → P i j t
      → Emits (P i (j + 1)) (emit_b j (k.value (lane_at k w p j)) t)) where
  -- Where the lockstep loop stops: both lanes stand at the windows whose indices they carry.
  abbrev Reached : ℕ → ℕ → Pair k T → Type 0
  Reached i j l =
      (l.ia ≡ i)
      × (l.ib ≡ j)
      × (l.va ≡ lane_at k w p l.ia)
      × (l.vb ≡ lane_at k w p l.ib)
      × P (l.ia + 1) (l.ib + 1) l.sink

  lockstep-Emits :
      (left i j : ℕ) (l : Pair k T)
      → half ≤ l.ib
      → l.ia + left ≡ i
      → l.ib + left ≡ j
      → i < half
      → j + w ≤ length p
      → Reached l.ia l.ib l
      → Emits (Reached i j) (lockstep k emit_a emit_b p w left l)
  unfolding lockstep
  lockstep-Emits zero i j l lo ei ej hi hj r = (l, refl, (omega arith, omega arith, r.2, r.3, r.4))
  lockstep-Emits (suc left) i j l lo ei ej hi hj r =
      let (t, et, q) = keep_a (l.ia + 1) (l.ib + 1) l.sink (omega arith) r.4 in
      let (t', et', q') = keep_b (l.ia + 1 + 1) (l.ib + 1) t (omega arith) (omega arith) q in
      let l' : Pair k T = record {
        ia = l.ia + 1;
        ib = l.ib + 1;
        va = lane_at k w p (l.ia + 1);
        vb = lane_at k w p (l.ib + 1);
        sink = t';
      } in
      let (m, em, rm) =
        lockstep-Emits left i j l' (omega arith) (omega arith) (omega arith) hi hj
          (refl, refl, refl, refl, q') in
      (
        m,
        rw
            (
              r.2,
              advance_lem k p w l.ia rolls bytes pos short (omega arith),
              et,
              r.3,
              advance_lem k p w l.ib rolls bytes pos short (omega arith),
              et',
            )
            em,
        rm,
      )

  both_lanes-Emits :
      (n : ℕ) (t : T)
      → n + w ≡ length p
      → (n + 2) / 2 ≡ half
      → half ≤ n
      → P 1 half t
      → Emits (P half (n + 1)) (both_lanes k emit_a emit_b p w n half (lane_at k w p 0) t)
  both_lanes-Emits n t en eh hn q =
      let (t', et, q') = keep_b 1 half t (omega arith) (omega arith) q in
      let left : ℕ = min (half - 1) (n - half) in
      let start : Pair k T = record {
        ia = 0;
        ib = half;
        va = lane_at k w p 0;
        vb = lane_at k w p half;
        sink = t';
      } in
      let (l, el, rl) =
        lockstep-Emits left left (half + left) start (omega arith) (omega arith) refl (omega arith)
          (omega arith) (refl, refl, refl, refl, q') in
      let (t_a, ea, qa) =
        finish-Emits k rolls p w bytes pos short emit_a (λ i. P i (l.ib + 1)) half
          (λ i t h. keep_a i (l.ib + 1) t h) (omega arith) (half - 1 - l.ia) l.ia l.sink
          (omega (arith, rl.0)) rl.4 in
      let (t_b, eb, qb) =
        finish-Emits k rolls p w bytes pos short emit_b (λ j t. (half ≤ j) × P half j t) (n + 1)
          (λ j t h c.
            let (t', et', q') = keep_b half j t c.0 (omega arith) c.1 in
            (t', et', (omega (arith, c.0), q')))
          (omega arith) (n - l.ib) l.ib t_a (omega (arith, rl.1)) ((omega (arith, rl.1), qa)) in
      (
        t_b,
        both_lanes_steps k emit_a emit_b p w n half (lane_at k w p 0) (lane_at k w p half)
            (lane_at k w p l.ia) (lane_at k w p l.ib) t t' t_a l (some t_b)
            (warm_lem k p half w k.start (omega arith)) et el rl.2 rl.3 ea eb,
        qb.1,
      )

  first_window :
      (n : ℕ) (t t' : T) (r : Option T)
      → n + w ≡ length p
      → (n + 2) / 2 ≡ half
      → emit_a 0 (k.value (lane_at k w p 0)) t ≡ some t'
      → (if ltb n half
          then finish k emit_a p w n 0 (lane_at k w p 0) t'
          else both_lanes k emit_a emit_b p w n half (lane_at k w p 0) t')
        ≡ r
      → two_lanes k emit_a emit_b p w t ≡ r
  unfolding two_lanes
  first_window n t t' r en eh et e =
      let sub : length p - w ≡ n = omega arith in
      let enough : (leb w 0 || ltb (length p) w) ≡ false = ground arith in
      rw (enough, sub, warm_lem k p 0 w k.start (omega arith), eh, et) e

  finish_zero : (n : ℕ) (t : T) → n ≡ 0 → finish k emit_a p w n 0 (lane_at k w p 0) t ≡ some t
  unfolding finish
  finish_zero n t e = ap (λ m. finish k emit_a p w m 0 (lane_at k w p 0) t) e

  -- The whole function: with at least one window, it ends with the invariant for all of them.
  pub two_lanes-Emits :
      (n : ℕ) (t : T)
      → n + w ≡ length p
      → (n + 2) / 2 ≡ half
      → P 0 half t
      → Emits (P half (n + 1)) (two_lanes k emit_a emit_b p w t)
  two_lanes-Emits n t en eh q =
      let (t', et, q') = keep_a 0 half t (omega arith) q in
      elim (Bool-cases (ltb n half)) [
        | inl e ↦
            let one_window : n ≡ 0 = ground arith in
            let from_one : 1 ≡ half = ground arith in
            let to_end : half ≡ n + 1 = omega arith in
            let done : P half (n + 1) t' =
              subst (λ j. P half j t') to_end (subst (λ i. P i half t') from_one q') in
            (t', first_window n t t' (some t') en eh et (rw e (finish_zero n t' one_window)), done)
        | inr e ↦
            let (r, er, qr) = both_lanes-Emits n t' en eh (ground arith) q' in
            (r, first_window n t t' (some r) en eh et (rw e er), qr)
      ]

-- With no window in the slice, or an empty window, nothing happens.
pub two_lanes_none :
    (k : Kernel) {T : Type 0} (emit_a emit_b : ℕ → ℕ → T → Option T) (p : List ℕ) (w : ℕ) (t : T)
    → (w ≡ 0) ⊎ (length p < w)
    → two_lanes k emit_a emit_b p w t ≡ some t
unfolding two_lanes
two_lanes_none k emit_a emit_b p w t h = ground arith
