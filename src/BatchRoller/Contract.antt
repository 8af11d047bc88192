-- ===== src/BatchRoller/Contract.antt =====
-- The contract of `hashBatchRoller` in rollinghash.go, on which the batch roller relies.
use rollinghash.Prelude.{ℕ, ◌+◌, ◌≤◌, ◌<◌, ◌≡◌, List, Option, some, length, IsBytes}
use rollinghash.Kernel.{window_sums, max_window}

-- `BatchRoll` on bytes, with room for exactly the windows of the slice: the checksum of each window.
abbrev pub IsBatchRoll : (List ℕ → List ℕ → ℕ → Option (List ℕ)) → (List ℕ → ℕ) → Type 0
IsBatchRoll batch checksum =
    (dst p : List ℕ) (w : ℕ)
    → IsBytes p
    → 0 < w
    → w < max_window
    → w ≤ length p
    → length dst + w ≡ length p + 1
    → batch dst p w ≡ some (window_sums checksum w p)
