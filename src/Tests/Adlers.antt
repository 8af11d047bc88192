-- ===== src/Tests/Adlers.antt =====
-- adler32 on a digest that holds the bytes 7 and 3, the older of them at index 1.
use rollinghash.Prelude.{inr, ◌≡◌, refl, arith, [], ◌∷◌, ◌++◌, some, take, replicate}
use rollinghash.Window.Contents.{contents}
use rollinghash.Kernel.{sum_of, window_sums, boundaries}
use rollinghash.Hasher.{write_then_roll}
use rollinghash.TwoLane.{Hit}
use rollinghash.Adler32.{Adler32, absorb, sum32, kernel, write, roll, batch_roll, batch_boundaries}
use rollinghash.Adler32.Sums.{sum_a, sum_b}
use rollinghash.Adler32.Digest.{
  Holds, adler, IsVanilla, hasher, sum_of-adler, sum32-vanilla, write-Holds_adler, roll-Holds_adler,
  batch_roll_adler, batch_boundaries_adler,
}
use rollinghash.Tests.Loops.{data_bytes, data_bytes-IsBytes}

abbrev held : Adler32
held = record { a = 11; b = 19; n = 2; win = record { window = 3 ∷ 7 ∷ []; oldest = 1 } }

held-Holds : Holds held (7 ∷ 3 ∷ [])
unfolding contents absorb
held-Holds = record {
  valid = inr (omega arith);
  bytes = refl;
  in_range = (omega arith, (omega arith, tt));
  short = omega arith;
  size = refl;
  sums = refl;
}

-- The checksum of hash/adler32 as documented is one that keeps its documentation.
adler-IsVanilla : IsVanilla adler
adler-IsVanilla p h = refl

-- The checksum of "Wikipedia".
adler_run : adler (87 ∷ 105 ∷ 107 ∷ 105 ∷ 112 ∷ 101 ∷ 100 ∷ 105 ∷ 97 ∷ []) ≡ 0x11e60398
unfolding sum_a sum_b
adler_run = refl

sum_of-adler_example : sum_of kernel data_bytes ≡ adler data_bytes
sum_of-adler_example = sum_of-adler data_bytes data_bytes-IsBytes

sum32-vanilla_example : sum32 held ≡ adler (7 ∷ 3 ∷ [])
sum32-vanilla_example = sum32-vanilla adler adler-IsVanilla held (7 ∷ 3 ∷ []) held-Holds

write_adler_example :
    (d' : Adler32) × (write adler held (5 ∷ []) ≡ some (d', 1)) × Holds d' (7 ∷ 3 ∷ 5 ∷ [])
write_adler_example =
    write-Holds_adler adler adler-IsVanilla held (7 ∷ 3 ∷ []) (5 ∷ []) held-Holds (omega arith, tt)
      (omega arith)

roll_adler_example : (d' : Adler32) × (roll held 5 ≡ some d') × Holds d' (3 ∷ 5 ∷ [])
roll_adler_example = roll-Holds_adler held 7 5 (3 ∷ []) held-Holds (omega arith)

batch_roll_adler_example :
    (batch_roll (replicate 4 0) data_bytes 2 ≡ some (window_sums (sum_of kernel) 2 data_bytes))
    × (write_then_roll (hasher adler adler-IsVanilla) held data_bytes 2
        ≡ batch_roll (replicate 4 0) data_bytes 2)
batch_roll_adler_example =
    batch_roll_adler adler adler-IsVanilla held (7 ∷ 3 ∷ []) (replicate 4 0) data_bytes 2 held-Holds
      data_bytes-IsBytes (omega arith) (omega arith) (omega arith) refl

batch_boundaries_adler_example :
    (r : Hit) × (batch_boundaries (replicate 4 0) (replicate 4 0) data_bytes 2 1 ≡ some r)
    × (take r.na r.a ++ take r.nb r.b ≡ boundaries (sum_of kernel) 1 2 data_bytes)
batch_boundaries_adler_example =
    batch_boundaries_adler (replicate 4 0) (replicate 4 0) data_bytes 2 1 data_bytes-IsBytes
      (omega arith) (omega arith) (omega arith) (omega arith) (omega arith) (omega arith)
