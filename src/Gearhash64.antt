-- ===== src/Gearhash64.antt =====
-- gearhash64/gearhash64.go. A table `[256]uint64` that a byte indexes is a function of the byte.
pub mod Table
pub mod Digest
use rollinghash.Prelude.{
  ℕ, ◌+◌, ◌-◌, ◌*◌, ◌%◌, ◌^◌, ◌==◌, ltb, if◌then◌else◌, List, [], ◌++◌, Option, some, ◌>>=◌, foldl,
  length,
}
use rollinghash.Window
use rollinghash.Window.{Circular, append, enter}
use rollinghash.Kernel.{Kernel}
use rollinghash.TwoLane
use rollinghash.Bozo.{big_endian}

pub record GearHash64 : Type 0 where
  pub sum : ℕ
  pub win : Circular
  pub gear : ℕ → ℕ
  pub shifted_gear : ℕ → ℕ

-- `NewFromUint64Array`
unfoldable pub new_from_table : (ℕ → ℕ) → GearHash64
new_from_table g = record {
  sum = 0;
  win = record { window = []; oldest = 0 };
  gear = g;
  shifted_gear = λ _. 0;
}

-- `Reset`
unfoldable pub reset : GearHash64 → GearHash64
reset d = record d { sum = 0; win = record { window = []; oldest = 0 } }

-- `WriteWindow`, to an `io.Writer`
unfoldable pub write_window :
    {State Error : Type 0}
    → (State → List ℕ → State × ℕ × Option Error)
    → State
    → GearHash64
    → State × ℕ × Option Error
write_window write_to s d = Window.write write_to s d.win

-- The table of `gear[i] << w`, or of zeros from 64 on.
unfoldable pub shift_table : (ℕ → ℕ) → ℕ → ℕ → ℕ
shift_table g w i = if ltb w 64 then g i * 2 ^ w % 2 ^ 64 else 0

-- `(h << 1) + gear[c]`
abbrev pub absorb : (ℕ → ℕ) → ℕ → ℕ → ℕ
absorb g v c = (v * 2 % 2 ^ 64 + g c) % 2 ^ 64

-- `(h << 1) - h0 + hn`
abbrev pub step : ℕ → ℕ → ℕ → ℕ
step v h0 hn = ((v * 2 % 2 ^ 64 + 2 ^ 64 - h0) % 2 ^ 64 + hn) % 2 ^ 64

-- `Write`: the digest after it, and the count that it returns. It returns no error.
unfoldable pub write : GearHash64 → List ℕ → Option (GearHash64 × ℕ)
write d p = if length p == 0 then some (d, 0) else (do
  win ← append d.win p
  some (
    record {
      sum = foldl (absorb d.gear) 0 win.window;
      win = win;
      gear = d.gear;
      shifted_gear = shift_table d.gear (length win.window);
    },
    length p,
  ))

-- `Sum64`
unfoldable pub sum64 : GearHash64 → ℕ
sum64 d = d.sum

-- `Sum`
unfoldable pub sum_bytes : GearHash64 → List ℕ → List ℕ
sum_bytes d b = b ++ big_endian 8 (sum64 d)

-- `Roll`: `none` is the panic on an empty window.
unfoldable pub roll : GearHash64 → ℕ → Option GearHash64
roll d c = do
  (leave, win) ← enter d.win c
  some (record d { sum = step d.sum (d.shifted_gear leave) (d.gear c); win = win })

-- The lanes of `BatchRoll`.
abbrev pub kernel : (ℕ → ℕ) → Kernel
kernel g = record {
  Lane = ℕ;
  start = 0;
  absorb = absorb g;
  roll = λ w v leave enter. step v (shift_table g w leave) (g enter);
  value = λ v. v;
}

-- `BatchRoll`
unfoldable pub batch_roll : GearHash64 → List ℕ → List ℕ → ℕ → Option (List ℕ)
batch_roll d dst p w = TwoLane.batch_roll (kernel d.gear) dst p w
