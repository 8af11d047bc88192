-- ===== src/Tests/Gears.antt =====
-- gearhash64 on a digest that holds the bytes 7 and 3, the older of them at index 1.
use rollinghash.Prelude.{ℕ, ◌+◌, ◌*◌, inr, ◌≡◌, refl, arith, [], ◌∷◌, some, replicate}
use rollinghash.Window.Contents.{contents}
use rollinghash.Kernel.{sum_of, window_sums}
use rollinghash.Hasher.{write_then_roll}
use rollinghash.Gearhash64.{GearHash64, shift_table, kernel, write, roll, batch_roll}
use rollinghash.Gearhash64.Digest.{
  Holds, hasher, write-Holds_gear, roll-Holds_gear, batch_roll_gear,
}
use rollinghash.Tests.Loops.{data_bytes, data_bytes-IsBytes}

-- A table.
abbrev entries : ℕ → ℕ
entries c = c * 3 + 1

-- The bytes 7 and 3: `22 * 2 + 10`.
abbrev held : GearHash64
held = record {
  sum = 54;
  win = record { window = 3 ∷ 7 ∷ []; oldest = 1 };
  gear = entries;
  shifted_gear = shift_table entries 2;
}

held-Holds : Holds entries held (7 ∷ 3 ∷ [])
unfolding contents
held-Holds = record {
  table = refl;
  valid = inr (omega arith);
  bytes = refl;
  in_range = (omega arith, (omega arith, tt));
  short = omega arith;
  cache = λ _. refl;
  value = refl;
}

write_gear_example :
    (d' : GearHash64) × (write held (5 ∷ []) ≡ some (d', 1)) × Holds entries d' (7 ∷ 3 ∷ 5 ∷ [])
write_gear_example =
    write-Holds_gear entries held (7 ∷ 3 ∷ []) (5 ∷ []) held-Holds (omega arith, tt) (omega arith)

roll_gear_example : (d' : GearHash64) × (roll held 5 ≡ some d') × Holds entries d' (3 ∷ 5 ∷ [])
roll_gear_example = roll-Holds_gear entries held 7 5 (3 ∷ []) held-Holds (omega arith)

batch_roll_gear_example :
    (batch_roll held (replicate 4 0) data_bytes 2
      ≡ some (window_sums (sum_of (kernel entries)) 2 data_bytes))
    × (write_then_roll (hasher entries) held data_bytes 2
        ≡ batch_roll held (replicate 4 0) data_bytes 2)
batch_roll_gear_example =
    batch_roll_gear entries held (7 ∷ 3 ∷ []) (replicate 4 0) data_bytes 2 held-Holds
      data_bytes-IsBytes (omega arith) (omega arith) (omega arith) refl
