-- ===== src/Chunker/Contract.antt =====
-- The contract of `hashBoundaryRoller` in rollinghash.go, on which the chunkers rely.
use rollinghash.Prelude.{
  ℕ, ◌+◌, ◌^◌, ◌≤◌, ◌<◌, ◌≡◌, List, ◌++◌, Option, some, length, take, IsBytes,
}
use rollinghash.Kernel.{boundaries, max_window}
use rollinghash.Hasher.{Hasher, IsHasher}
use rollinghash.TwoLane.{Hit}

-- `BatchBoundaries` of a hash in any state, on bytes, with room for every window in both buffers and
-- at most 2 ^ 31 windows: the positions of the windows that satisfy the mask, lane A before lane B.
abbrev pub IsBoundaryRoller :
    (H : Hasher) (checksum : List ℕ → ℕ)
    → IsHasher H checksum
    → (H.State → List ℕ → List ℕ → List ℕ → ℕ → ℕ → Option Hit)
    → Type 0
IsBoundaryRoller H checksum s hits =
    (d : H.State) (held buf_a buf_b p : List ℕ) (w mask : ℕ)
    → s.Holds d held
    → IsBytes p
    → 0 < w
    → w < max_window
    → w ≤ length p
    → length p + 1 ≤ length buf_a + w
    → length p + 1 ≤ length buf_b + w
    → length p + 1 ≤ 2 ^ 31 + w
    → (r : Hit) × (hits d buf_a buf_b p w mask ≡ some r)
      × (take r.na r.a ++ take r.nb r.b ≡ boundaries checksum mask w p)
