-- ===== src/Buzhash.antt =====
-- buzhash32/buzhash32.go, for a word of any number of bits: buzhash64/buzhash64.go is the same code
-- over uint64 (module `Buzhash64`). A table `[256]uint32` that a byte indexes is a function.
pub mod Rotate
pub mod Table
pub mod Digest
use rollinghash.Prelude.{
  ℕ, ◌+◌, ◌-◌, ◌*◌, ◌/◌, ◌%◌, ◌^◌, ◌==◌, if◌then◌else◌, List, [], ◌++◌, Option, some, ◌>>=◌, foldl,
  length, bit_xor,
}
use rollinghash.Window
use rollinghash.Window.{Circular, append, enter}
use rollinghash.Kernel.{Kernel}
use rollinghash.TwoLane
use rollinghash.Bozo.{big_endian}

pub record Buzhash : Type 0 where
  pub sum : ℕ
  pub n_rotate : ℕ
  pub win : Circular
  pub bytehash : ℕ → ℕ
  pub rot_bh : ℕ → ℕ

-- `NewFromUint32Array`
unfoldable pub new_from_table : (ℕ → ℕ) → Buzhash
new_from_table b = record {
  sum = 0;
  n_rotate = 0;
  win = record { window = []; oldest = 0 };
  bytehash = b;
  rot_bh = λ _. 0;
}

-- `Reset`
unfoldable pub reset : Buzhash → Buzhash
reset d = record d { sum = 0; win = record { window = []; oldest = 0 } }

-- `Sum32`
unfoldable pub sum32 : Buzhash → ℕ
sum32 d = d.sum

-- `Sum`
unfoldable pub sum_bytes : Buzhash → List ℕ → List ℕ
sum_bytes d b = b ++ big_endian 4 (sum32 d)

-- `WriteWindow`, to an `io.Writer`
unfoldable pub write_window :
    {State Error : Type 0}
    → (State → List ℕ → State × ℕ × Option Error)
    → State
    → Buzhash
    → State × ℕ × Option Error
write_window write_to s d = Window.write write_to s d.win

module _ (bits : ℕ) where
  -- `bits.RotateLeft32(x, k)` of the standard library, for `k` below the number of bits: the low
  -- digits move up by `k`, and the `k` highest digits come in below.
  unfoldable pub rotate_left : ℕ → ℕ → ℕ
  rotate_left x k = x % 2 ^ (bits - k) * 2 ^ k + x / 2 ^ (bits - k)

  -- `RotateLeft32(v, 1) ^ bh[c]`
  abbrev pub absorb : (ℕ → ℕ) → ℕ → ℕ → ℕ
  absorb bh v c = bit_xor (rotate_left v 1) (bh c)

  -- `RotateLeft32(v, 1) ^ h0 ^ hn`
  abbrev pub step : ℕ → ℕ → ℕ → ℕ
  step v h0 hn = bit_xor (bit_xor (rotate_left v 1) h0) hn

  -- The cache of the entries, rotated by `window % 32`.
  abbrev pub rotated_table : (ℕ → ℕ) → ℕ → ℕ → ℕ
  rotated_table bh n_rotate i = rotate_left (bh i) n_rotate

  -- `Write`: the digest after it, and the count that it returns. It returns no error.
  unfoldable pub write : Buzhash → List ℕ → Option (Buzhash × ℕ)
  write d p = if length p == 0 then some (d, 0) else (do
    win ← append d.win p
    let n_rotate = length win.window % bits
    some (
      record {
        sum = foldl (absorb d.bytehash) 0 win.window;
        n_rotate = n_rotate;
        win = win;
        bytehash = d.bytehash;
        rot_bh = rotated_table d.bytehash n_rotate;
      },
      length p,
    ))

  -- `Roll`: `none` is the panic on an empty window.
  unfoldable pub roll : Buzhash → ℕ → Option Buzhash
  roll d c = do
    (leave, win) ← enter d.win c
    some (record d { sum = step d.sum (d.rot_bh leave) (d.bytehash c); win = win })

  -- The lanes of `BatchRoll`.
  abbrev pub kernel : (ℕ → ℕ) → Kernel
  kernel bh = record {
    Lane = ℕ;
    start = 0;
    absorb = absorb bh;
    roll = λ w v leave enter. step v (rotated_table bh (w % bits) leave) (bh enter);
    value = λ v. v;
  }

  -- `BatchRoll`
  unfoldable pub batch_roll : Buzhash → List ℕ → List ℕ → ℕ → Option (List ℕ)
  batch_roll d dst p w = TwoLane.batch_roll (kernel d.bytehash) dst p w
