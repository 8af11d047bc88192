-- ===== src/Adler32.antt =====
-- adler32/adler32.go, the rolling version of the standard library's hash/adler32. That package is
-- a parameter: `vanilla p` is its `Sum32` after `Reset` and `Write(p)`.
pub mod Sums
pub mod Digest
use rollinghash.Prelude.{
  ℕ, zero, suc, ◌+◌, ◌-◌, ◌*◌, ◌/◌, ◌%◌, ◌^◌, ◌==◌, if◌then◌else◌, List, [], ◌∷◌, ◌++◌, Option,
  some, ◌>>=◌, length, bit_and, bit_or,
}
use rollinghash.Window
use rollinghash.Window.{Circular, append, enter}
use rollinghash.Kernel.{Kernel}
use rollinghash.TwoLane
use rollinghash.TwoLane.{Hit}
use rollinghash.Bozo.{big_endian}

abbrev pub mod_adler : ℕ
mod_adler = 65521

-- A uint32 is kept below 2 ^ 32; the field `vanilla` has no state between the calls of `Write`,
-- which resets it.
pub record Adler32 : Type 0 where
  pub a : ℕ
  pub b : ℕ
  pub n : ℕ
  pub win : Circular

-- `Reset`
unfoldable pub reset : Adler32 → Adler32
reset d = record { a = 1; b = 0; n = 0; win = record { window = []; oldest = 0 } }

-- `New`
unfoldable pub new : Adler32
new = record { a = 1; b = 0; n = 0; win = record { window = []; oldest = 0 } }

-- `WriteWindow`, to an `io.Writer`
unfoldable pub write_window :
    {State Error : Type 0}
    → (State → List ℕ → State × ℕ × Option Error)
    → State
    → Adler32
    → State × ℕ × Option Error
write_window write_to s d = Window.write write_to s d.win

-- A sum and a wrapping difference of uint32.
abbrev pub add32 : ℕ → ℕ → ℕ
add32 x y = (x + y) % 2 ^ 32

abbrev pub sub32 : ℕ → ℕ → ℕ
sub32 x y = (x + 2 ^ 32 - y) % 2 ^ 32

-- `b<<16 | a`
unfoldable pub combine : ℕ → ℕ → ℕ
combine b a = bit_or (b * 2 ^ 16 % 2 ^ 32) a

-- `Sum32`
unfoldable pub sum32 : Adler32 → ℕ
sum32 d = combine d.b d.a

-- `Sum`
unfoldable pub sum : Adler32 → List ℕ → List ℕ
sum d b = b ++ big_endian 4 (sum32 d)

-- The new `a` of a rolling step, `(a + Mod + enter - leave) % Mod`.
unfoldable pub roll_a : ℕ → ℕ → ℕ → ℕ
roll_a a leave enter = sub32 (add32 (add32 a mod_adler) enter) leave % mod_adler

-- The new `b`, `(b + a + Mod - 1 - (n*leave)%Mod) % Mod`, from the new `a`.
unfoldable pub roll_b : ℕ → ℕ → ℕ → ℕ → ℕ
roll_b n b a leave =
    sub32 (sub32 (add32 (add32 b a) mod_adler) 1) (n * leave % 2 ^ 32 % mod_adler) % mod_adler

-- `Roll`: `none` is the panic on an empty window.
unfoldable pub roll : Adler32 → ℕ → Option Adler32
roll d c = do
  (leave, win) ← enter d.win c
  let a = roll_a d.a leave c
  some (record d { a = a; b = roll_b d.n d.b a leave; win = win })

-- The lane `(aA, bA)` of `BatchRoll` and `BatchBoundaries`.
pub record Accumulators : Type 0 where
  pub a : ℕ
  pub b : ℕ

-- `aA = (aA + data[j]) % Mod; bA = (bA + aA) % Mod`
unfoldable pub absorb : Accumulators → ℕ → Accumulators
absorb v c = let a = add32 v.a c % mod_adler in record { a = a; b = add32 v.b a % mod_adler }

unfoldable pub step : ℕ → Accumulators → ℕ → ℕ → Accumulators
unfolding roll_a roll_b
step wmod v leave enter =
    let a = roll_a v.a leave enter in record { a = a; b = roll_b wmod v.b a leave }

-- `wmod` is `uint32(window) % Mod`.
abbrev pub kernel : Kernel
kernel = record {
  Lane = Accumulators;
  start = record { a = 1; b = 0 };
  absorb = absorb;
  roll = λ w v leave enter. step (w % 2 ^ 32 % mod_adler) v leave enter;
  value = λ v. combine v.b v.a;
}

-- `BatchRoll`
unfoldable pub batch_roll : List ℕ → List ℕ → ℕ → Option (List ℕ)
batch_roll dst p w = TwoLane.batch_roll kernel dst p w

-- `BatchBoundaries`
unfoldable pub batch_boundaries : List ℕ → List ℕ → List ℕ → ℕ → ℕ → Option Hit
batch_boundaries a b p w mask = TwoLane.batch_boundaries kernel mask a b p w

module _ (vanilla : List ℕ → ℕ) where
  -- `Write`: the digest after it, and the count that it returns. It returns no error.
  unfoldable pub write : Adler32 → List ℕ → Option (Adler32 × ℕ)
  write d p = if length p == 0 then some (d, 0) else (do
    win ← append d.win p
    let s = vanilla win.window
    let a = bit_and s 0xffff
    let b = s / 2 ^ 16
    let n = length win.window % 2 ^ 32 % mod_adler
    some (record { a = a; b = b; n = n; win = win }, length p))
