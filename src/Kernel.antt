-- ===== src/Kernel.antt =====
-- What the hash packages have in common: the arithmetic of their loops, apart from the loops.
-- A lane is the state that a loop carries from byte to byte (`d.value`, `vA`, `(aA, bA)`, …).
pub mod Positions
use rollinghash.Prelude.{
  ℕ, zero, suc, bit_and, ◌==◌, if◌then◌else◌, Bool, ap, sym, ◌∙◌, ◌≤◌, append_assoc, append-nil,
  length-append, arith, ◌+◌, ◌-◌, ◌<◌, ◌^◌, ◌≡◌, List, [], ◌∷◌, ◌++◌, foldl, length, slice,
  tabulate, IsBytes,
}
use native.Mathlib.Nat.{add-zero, zero-add}

pub record Kernel : Type 1 where
  pub Lane : Type 0
  -- the state before the first byte of a window
  pub start : Lane
  -- the warm-up step: one more byte
  pub absorb : Lane → ℕ → Lane
  -- the rolling step of a window of the given length: the byte that leaves, the one that enters
  pub roll : ℕ → Lane → ℕ → ℕ → Lane
  -- the checksum, as a uint64
  pub value : Lane → ℕ

-- The lane after a whole window, and its checksum.
abbrev pub lane : (k : Kernel) → List ℕ → k.Lane
lane k p = foldl k.absorb k.start p

-- The lane after the window of length `w` at index `i`.
abbrev pub lane_at : (k : Kernel) → ℕ → List ℕ → ℕ → k.Lane
lane_at k w p i = lane k (slice i w p)

abbrev pub sum_of : Kernel → List ℕ → ℕ
sum_of k p = k.value (lane k p)

-- The checksums of all windows of a slice, in order: the specification of `BatchRoll`.
abbrev pub window_sums : (List ℕ → ℕ) → ℕ → List ℕ → List ℕ
window_sums sum w p = tabulate (length p + 1 - w) (λ i. sum (slice i w p))

-- The windows that are considered: a length is below 2 ^ 32, so that `uint32(window)` of adler32
-- is the length.
abbrev pub max_window : ℕ
max_window = 2 ^ 32

-- The rolling step agrees with hashing the moved window again.
abbrev pub IsRolling : Kernel → Type 0
IsRolling k =
    (x y : ℕ) (p : List ℕ)
    → suc (length p) < max_window
    → x < 256
    → IsBytes p
    → y < 256
    → k.roll (suc (length p)) (lane k (x ∷ p)) x y ≡ lane k (p ++ (y ∷ []))

-- The positions from `lo` on, `n` of them, that pass a test, in order.
abbrev pub if_hit : (ℕ → Bool) → ℕ → List ℕ
if_hit test i = if test i then i ∷ [] else []

abbrev pub positions : (ℕ → Bool) → ℕ → ℕ → List ℕ
positions test lo zero = []
positions test lo (suc n) = if_hit test lo ++ positions test (lo + 1) n

-- The windows of a slice whose checksum has no bit of the mask: the specification of
-- `BatchBoundaries`.
abbrev pub boundaries : (List ℕ → ℕ) → ℕ → ℕ → List ℕ → List ℕ
boundaries sum mask w p =
    positions (λ i. bit_and (sum (slice i w p)) mask == 0) 0 (length p + 1 - w)

pub positions-add :
    (test : ℕ → Bool) (lo n m : ℕ)
    → positions test lo (n + m) ≡ positions test lo n ++ positions test (lo + n) m
positions-add test lo zero m = rw (add-zero lo, zero-add m)
positions-add test lo (suc n) m =
    ap (positions test lo) e
    ∙ ap (λ t. if_hit test lo ++ t)
        (positions-add test (lo + 1) n m
          ∙ ap (λ i. positions test (lo + 1) n ++ positions test i m) shift)
    ∙ sym
        (append_assoc (if_hit test lo) (positions test (lo + 1) n) (positions test (lo + suc n) m))
  where
    e : suc n + m ≡ suc (n + m)
    e = omega arith

    shift : lo + 1 + n ≡ lo + suc n
    shift = omega arith

pub positions-snoc :
    (test : ℕ → Bool) (lo n : ℕ)
    → positions test lo (n + 1) ≡ positions test lo n ++ if_hit test (lo + n)
positions-snoc test lo n =
    positions-add test lo n 1
    ∙ ap (λ t. positions test lo n ++ t) (append-nil (if_hit test (lo + n)))

pub length-positions : (test : ℕ → Bool) (lo n : ℕ) → length (positions test lo n) ≤ n
length-positions test lo zero = omega arith
length-positions test lo (suc n) = ground (
  arith,
  length-append (if_hit test lo) (positions test (lo + 1) n),
  length-positions test (lo + 1) n,
)
