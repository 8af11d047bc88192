-- ===== src/Tests/Bozos.antt =====
-- bozo32 and bozo64 on a digest that holds the bytes 7 and 3, the older of them at index 1.
use rollinghash.Prelude.{
  ◌^◌, ◌%◌, inr, ◌≡◌, refl, arith, [], ◌∷◌, ◌++◌, some, take, replicate, foldl,
}
use rollinghash.Window.Contents.{contents}
use rollinghash.Kernel.{sum_of, lane, window_sums, boundaries}
use rollinghash.Hasher.{write_then_roll}
use rollinghash.TwoLane.{Hit}
use rollinghash.Tests.Loops.{data_bytes, data_bytes-IsBytes}
use rollinghash.Bozo.{Bozo, kernel, write, roll, batch_roll, batch_boundaries, power}
use rollinghash.Bozo.Horner.{horner, lane-eq-horner}
use rollinghash.Bozo.Digest.{
  Holds, hasher, write-Holds_bozo, roll-Holds_bozo, batch_roll_bozo, batch_boundaries_bozo,
}

abbrev held : Bozo
held = record {
  a = 65521;
  an = 4293001441;
  value = 458650;
  win = record { window = 3 ∷ 7 ∷ []; oldest = 1 };
}

held-Holds : Holds 32 65521 held (7 ∷ 3 ∷ [])
unfolding contents power
held-Holds = record {
  multiplier = refl;
  valid = inr (omega arith);
  bytes = refl;
  weight = refl;
  in_range = (omega arith, (omega arith, tt));
  short = omega arith;
  value = refl;
}

lane_example : lane (kernel 32 65521) data_bytes ≡ foldl (horner 65521) 0 data_bytes % 2 ^ 32
lane_example = lane-eq-horner 32 65521 data_bytes

write_bozo_example :
    (d' : Bozo) × (write 32 held (5 ∷ []) ≡ some (d', 1)) × Holds 32 65521 d' (7 ∷ 3 ∷ 5 ∷ [])
write_bozo_example =
    write-Holds_bozo 32 65521 held (7 ∷ 3 ∷ []) (5 ∷ []) held-Holds (omega arith, tt) (omega arith)

roll_bozo_example : (d' : Bozo) × (roll 32 held 5 ≡ some d') × Holds 32 65521 d' (3 ∷ 5 ∷ [])
roll_bozo_example = roll-Holds_bozo 32 65521 held 7 5 (3 ∷ []) held-Holds (omega arith)

batch_roll_bozo_example :
    (batch_roll 32 held (replicate 4 0) data_bytes 2
      ≡ some (window_sums (sum_of (kernel 32 65521)) 2 data_bytes))
    × (write_then_roll (hasher 32 65521) held data_bytes 2
        ≡ batch_roll 32 held (replicate 4 0) data_bytes 2)
batch_roll_bozo_example =
    batch_roll_bozo 32 65521 held (7 ∷ 3 ∷ []) (replicate 4 0) data_bytes 2 held-Holds
      data_bytes-IsBytes (omega arith) (omega arith) (omega arith) refl

batch_boundaries_bozo_example :
    (r : Hit) × (batch_boundaries 32 held (replicate 4 0) (replicate 4 0) data_bytes 2 1 ≡ some r)
    × (take r.na r.a ++ take r.nb r.b ≡ boundaries (sum_of (kernel 32 65521)) 1 2 data_bytes)
batch_boundaries_bozo_example =
    batch_boundaries_bozo 32 65521 held (7 ∷ 3 ∷ []) (replicate 4 0) (replicate 4 0) data_bytes 2 1
      held-Holds data_bytes-IsBytes (omega arith) (omega arith) (omega arith) (omega arith)
      (omega arith) (omega arith)
