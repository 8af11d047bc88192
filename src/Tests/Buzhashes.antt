-- ===== src/Tests/Buzhashes.antt =====
-- buzhash32 on a digest that holds the bytes 7 and 3, the older of them at index 1.
use rollinghash.Prelude.{ℕ, ◌+◌, ◌*◌, ◌<◌, inr, ◌≡◌, refl, arith, [], ◌∷◌, some, replicate}
use rollinghash.Window.Contents.{contents}
use rollinghash.Kernel.{lane, sum_of, window_sums}
use rollinghash.Hasher.{write_then_roll}
use rollinghash.Buzhash.{Buzhash, rotate_left, rotated_table, kernel, write, roll, batch_roll}
use rollinghash.Buzhash.Table.{IsTable, rotated_xor, lane-rotated_xor}
use rollinghash.Buzhash.Digest.{
  Holds, hasher, write-Holds_buzhash, roll-Holds_buzhash, batch_roll_buzhash,
}
use rollinghash.Tests.Loops.{data_bytes, data_bytes-IsBytes}

-- A table of words.
abbrev entries : ℕ → ℕ
entries c = c * 3 + 1

entries-IsTable : IsTable 32 entries
entries-IsTable c h = omega arith

-- The bytes 7 and 3: `rotate 22 ^ 10`.
abbrev held : Buzhash
held = record {
  sum = 38;
  n_rotate = 2;
  win = record { window = 3 ∷ 7 ∷ []; oldest = 1 };
  bytehash = entries;
  rot_bh = rotated_table 32 entries 2;
}

abbrev positive : 0 < 32
positive = omega arith

held-Holds : Holds 32 positive entries entries-IsTable held (7 ∷ 3 ∷ [])
unfolding contents rotate_left
held-Holds = record {
  table = refl;
  valid = inr (omega arith);
  bytes = refl;
  in_range = (omega arith, (omega arith, tt));
  short = omega arith;
  cache = λ _. refl;
  value = refl;
}

lane-rotated_xor_example : lane (kernel 32 entries) data_bytes ≡ rotated_xor 32 entries data_bytes
lane-rotated_xor_example =
    lane-rotated_xor 32 positive entries entries-IsTable data_bytes data_bytes-IsBytes

write_buzhash_example :
    (d' : Buzhash) × (write 32 held (5 ∷ []) ≡ some (d', 1))
    × Holds 32 positive entries entries-IsTable d' (7 ∷ 3 ∷ 5 ∷ [])
write_buzhash_example =
    write-Holds_buzhash 32 positive entries entries-IsTable held (7 ∷ 3 ∷ []) (5 ∷ []) held-Holds
      (omega arith, tt) (omega arith)

roll_buzhash_example :
    (d' : Buzhash) × (roll 32 held 5 ≡ some d')
    × Holds 32 positive entries entries-IsTable d' (3 ∷ 5 ∷ [])
roll_buzhash_example =
    roll-Holds_buzhash 32 positive entries entries-IsTable held 7 5 (3 ∷ []) held-Holds
      (omega arith)

batch_roll_buzhash_example :
    (batch_roll 32 held (replicate 4 0) data_bytes 2
      ≡ some (window_sums (sum_of (kernel 32 entries)) 2 data_bytes))
    × (write_then_roll (hasher 32 positive entries entries-IsTable) held data_bytes 2
        ≡ batch_roll 32 held (replicate 4 0) data_bytes 2)
batch_roll_buzhash_example =
    batch_roll_buzhash 32 positive entries entries-IsTable held (7 ∷ 3 ∷ []) (replicate 4 0)
      data_bytes 2 held-Holds data_bytes-IsBytes (omega arith) (omega arith) (omega arith) refl
