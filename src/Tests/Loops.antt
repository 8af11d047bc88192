-- ===== src/Tests/Loops.antt =====
-- The loops of BatchRoll and BatchBoundaries, with the arithmetic of bozo32, on five bytes.
use rollinghash.Prelude.{ℕ, ◌≡◌, refl, arith, List, [], ◌∷◌, ◌++◌, some, take, replicate, IsBytes}
use rollinghash.Kernel.{sum_of, window_sums, boundaries}
use rollinghash.TwoLane.{
  Hit, hit_a, hit_b, batch_roll, batch_boundaries, two_lanes, both_lanes, lockstep, finish, warm,
  advance,
}
use rollinghash.TwoLane.Sums.{batch_roll-window_sums}
use rollinghash.TwoLane.Hits.{batch_boundaries-boundaries}
use rollinghash.Bozo.{kernel, power}
use rollinghash.Bozo.Horner.{kernel-IsRolling_bozo}

abbrev pub data_bytes : List ℕ
data_bytes = 1 ∷ 2 ∷ 3 ∷ 4 ∷ 5 ∷ []

pub data_bytes-IsBytes : IsBytes data_bytes
data_bytes-IsBytes = (omega arith, (omega arith, (omega arith, (omega arith, (omega arith, tt)))))

batch_roll_run :
    batch_roll (kernel 32 10) (replicate 4 0) data_bytes 2 ≡ some (12 ∷ 23 ∷ 34 ∷ 45 ∷ [])
unfolding batch_roll two_lanes both_lanes lockstep finish warm advance power
batch_roll_run = refl

batch_boundaries_run :
    batch_boundaries (kernel 32 10) 1 (replicate 4 9) (replicate 4 9) data_bytes 2
    ≡ some (record { a = 0 ∷ 9 ∷ 9 ∷ 9 ∷ []; b = 2 ∷ 9 ∷ 9 ∷ 9 ∷ []; na = 1; nb = 1 })
unfolding batch_boundaries two_lanes both_lanes lockstep finish warm advance hit_a hit_b power
batch_boundaries_run = refl

batch_roll_example :
    batch_roll (kernel 32 10) (replicate 4 0) data_bytes 2
    ≡ some (window_sums (sum_of (kernel 32 10)) 2 data_bytes)
batch_roll_example =
    batch_roll-window_sums (kernel 32 10) (kernel-IsRolling_bozo 32 10) (replicate 4 0) data_bytes 2
      data_bytes-IsBytes (omega arith) (omega arith) (omega arith) refl

batch_boundaries_example :
    (r : Hit) × (batch_boundaries (kernel 32 10) 1 (replicate 4 9) (replicate 4 9) data_bytes 2
      ≡ some r)
    × (take r.na r.a ++ take r.nb r.b ≡ boundaries (sum_of (kernel 32 10)) 1 2 data_bytes)
batch_boundaries_example =
    batch_boundaries-boundaries (kernel 32 10) (kernel-IsRolling_bozo 32 10) 1 (replicate 4 9)
      (replicate 4 9) data_bytes 2 data_bytes-IsBytes (omega arith) (omega arith) (omega arith)
      (omega arith) (omega arith) (omega arith)
