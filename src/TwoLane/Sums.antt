-- ===== src/TwoLane/Sums.antt =====
-- `BatchRoll` writes the checksum of every window of the slice.
use rollinghash.Prelude.{
  ℕ, ◌+◌, ◌-◌, ◌/◌, ◌≤◌, ◌<◌, ◌≡◌, ◌≢◌, ◌⊎◌, inl, inr, refl, sym, ap, ◌∙◌, arith, List, some,
  length, get_elem?, set, set?-eq-set, length-set, get_elem?-set_self, get_elem?-set_ne, IsBytes,
  eq_tabulate,
}
use native.Mathlib.Decide.{dec_lt, ℕ_discrete}
use rollinghash.Kernel.{Kernel, lane_at, sum_of, IsRolling, max_window, window_sums}
use rollinghash.TwoLane.{put, batch_roll}
use rollinghash.TwoLane.Run.{Emits, two_lanes-Emits, two_lanes_none}

module _ (value_at : ℕ → ℕ) (total : ℕ) where
  -- `dst` holds the values of the positions that are done.
  record IsFilled (Done : ℕ → Type 0) (dst : List ℕ) : Type 0 where
    size : length dst ≡ total
    written : (x : ℕ) → Done x → get_elem? dst x ≡ some (value_at x)

  -- One write, after which the position is done too.
  put-IsFilled :
      (Done Done' : ℕ → Type 0) (i : ℕ) (dst : List ℕ)
      → i < total
      → ((x : ℕ) → x ≢ i → Done' x → Done x)
      → IsFilled Done dst
      → Emits (IsFilled Done') (put i (value_at i) dst)
  put-IsFilled Done Done' i dst h others f =
      let room : i < length dst = omega (arith, f.size) in
      (
        set dst i (value_at i),
        set?-eq-set dst i (value_at i) room,
        record { size = length-set dst i (value_at i) ∙ f.size; written = written },
      )
    where
      written : (x : ℕ) → Done' x → get_elem? (set dst i (value_at i)) x ≡ some (value_at x)
      written x d = elim (ℕ_discrete x i) [
        | yes e ↦ rw e (get_elem?-set_self dst i (value_at i) (omega (arith, f.size)))
        | no ne ↦
            get_elem?-set_ne dst i x (value_at i) (λ e. ne (sym e)) ∙ f.written x (others x ne d)
      ]

-- Lane A has done the positions below `i`, and lane B those from `half` up to `j`.
abbrev DoneUpTo : ℕ → ℕ → ℕ → ℕ → Type 0
DoneUpTo half i j x = (x < i) ⊎ ((half ≤ x) × (x < j))

DoneUpTo-a : (half i j x : ℕ) → x ≢ i → DoneUpTo half (i + 1) j x → DoneUpTo half i j x
DoneUpTo-a half i j x ne (inl h) = inl (omega arith)
DoneUpTo-a half i j x ne (inr h) = inr h

DoneUpTo-b : (half i j x : ℕ) → x ≢ j → DoneUpTo half i (j + 1) x → DoneUpTo half i j x
DoneUpTo-b half i j x ne (inl h) = inl h
DoneUpTo-b half i j x ne (inr h) = inr (h.0, omega (arith, h.1))

DoneUpTo-start : (half x : ℕ) → ¬ (DoneUpTo half 0 half x)
DoneUpTo-start half x (inl h) = omega arith
DoneUpTo-start half x (inr h) = omega (arith, h.0, h.1)

DoneUpTo-end : (half n x : ℕ) → x < n → DoneUpTo half half n x
DoneUpTo-end half n x h = elim (dec_lt x half) [ yes p ↦ inl p | no p ↦ inr (omega arith, h) ]

-- For any arithmetic whose rolling step agrees with hashing the moved window again, bytes as data,
-- a window of 1 to 2^32 - 1 bytes that fits the data and a dst of exactly the number of windows,
-- the two-lane BatchRoll does not panic and leaves the checksum of every window in dst, in order.
pub batch_roll-window_sums :
    (k : Kernel)
    → IsRolling k
    → (dst p : List ℕ) (w : ℕ) → IsBytes p
    → 0 < w
    → w < max_window
    → w ≤ length p
    → length dst + w ≡ length p + 1
    → batch_roll k dst p w ≡ some (window_sums (sum_of k) w p)
unfolding batch_roll
batch_roll-window_sums k rolls dst p w bytes pos short fits room =
    let n : ℕ = length p - w in
    let half : ℕ = (n + 2) / 2 in
    let total : ℕ = length p + 1 - w in
    let value_at : ℕ → ℕ = λ i. k.value (lane_at k w p i) in
    let start : IsFilled value_at total (DoneUpTo half 0 half) dst = record {
      size = omega arith;
      written = λ x d. absurd (DoneUpTo-start half x d);
    } in
    let (out, eo, f) =
      two_lanes-Emits k rolls p w bytes pos short put put
        (λ i j t. IsFilled value_at total (DoneUpTo half i j) t) half
        (λ i j t h q.
          put-IsFilled value_at total (DoneUpTo half i j) (DoneUpTo half (i + 1) j) i t
            (omega arith) (DoneUpTo-a half i j) q)
        (λ i j t h h' q.
          put-IsFilled value_at total (DoneUpTo half i j) (DoneUpTo half i (j + 1)) j t
            (omega arith) (DoneUpTo-b half i j) q)
        n dst (omega arith) refl start in
    eo
    ∙ ap some (
        eq_tabulate out total value_at f.size
          (λ x h. f.written x (DoneUpTo-end half (n + 1) x (omega arith))))

-- With an empty window, or a slice shorter than the window, `BatchRoll` writes nothing.
pub batch_roll_none :
    (k : Kernel) (dst p : List ℕ) (w : ℕ)
    → (w ≡ 0) ⊎ (length p < w)
    → batch_roll k dst p w ≡ some dst
unfolding batch_roll
batch_roll_none k dst p w h = two_lanes_none k put put p w dst h
