-- ===== src/Bozo.antt =====
-- bozo32/bozo32.go, for a word of any number of bits: bozo64/bozo64.go is the same code over
-- uint64 (module `Bozo64`).
pub mod Horner
pub mod Digest
use rollinghash.Prelude.{
  ℕ, zero, suc, ◌+◌, ◌-◌, ◌*◌, ◌/◌, ◌%◌, ◌^◌, ◌==◌, if◌then◌else◌, List, [], ◌∷◌, ◌++◌, Option,
  some, ◌>>=◌, length,
}
use rollinghash.Window
use rollinghash.Window.{Circular, append, enter}
use rollinghash.Kernel.{Kernel}
use rollinghash.TwoLane
use rollinghash.TwoLane.{Hit}

-- The fields `window` and `oldest` are those of `win`.
pub record Bozo : Type 0 where
  pub a : ℕ
  pub an : ℕ
  pub value : ℕ
  pub win : Circular

-- `Reset`
unfoldable pub reset : Bozo → Bozo
reset d = record d { value = 0; an = 1; win = record { window = []; oldest = 0 } }

-- `NewFromInt`
unfoldable pub new_from_int : ℕ → Bozo
new_from_int a = record { a = a; an = 1; value = 0; win = record { window = []; oldest = 0 } }

-- `New`, of bozo32: the largest prime that fits in 16 bits.
unfoldable pub new : Bozo
unfolding new_from_int
new = new_from_int 65521

-- `Sum32`
unfoldable pub sum32 : Bozo → ℕ
sum32 d = d.value

-- The big-endian bytes of a word, as `Sum` appends them: `byte(v>>24)`, …, `byte(v)`.
abbrev pub big_endian : ℕ → ℕ → List ℕ
big_endian zero v = []
big_endian (suc n) v = (v / 256 ^ n % 256) ∷ big_endian n v

-- `Sum`
unfoldable pub sum : Bozo → List ℕ → List ℕ
unfolding sum32
sum d b = b ++ big_endian 4 (sum32 d)

-- `WriteWindow`, to an `io.Writer`
unfoldable pub write_window :
    {State Error : Type 0}
    → (State → List ℕ → State × ℕ × Option Error)
    → State
    → Bozo
    → State × ℕ × Option Error
write_window write_to s d = Window.write write_to s d.win

module _ (bits : ℕ) where
  -- One round of the loop of `Write` on the value: `value *= a; value += c`.
  abbrev pub absorb : ℕ → ℕ → ℕ → ℕ
  absorb a v c = (v * a % 2 ^ bits + c) % 2 ^ bits

  -- The rolling step, `v*a + enter - leave*aⁿ`.
  abbrev pub step : ℕ → ℕ → ℕ → ℕ → ℕ → ℕ
  step a an v leave enter = (absorb a v enter + 2 ^ bits - leave * an % 2 ^ bits) % 2 ^ bits

  -- The loop of `Write` over the window, from the value and `aⁿ` so far.
  unfoldable pub rehash : ℕ → List ℕ → ℕ → ℕ → ℕ × ℕ
  rehash a [] v an = (v, an)
  rehash a (c ∷ p) v an = rehash a p (absorb a v c) (an * a % 2 ^ bits)

  -- `Write`: the digest after it, and the count that it returns. It returns no error.
  unfoldable pub write : Bozo → List ℕ → Option (Bozo × ℕ)
  write d p = if length p == 0 then some (d, 0) else (do
    win ← append d.win p
    let (v, an) = rehash d.a win.window 0 1
    some (record d { value = v; an = an; win = win }, length p))

  -- `Roll`: `none` is the panic on an empty window.
  unfoldable pub roll : Bozo → ℕ → Option Bozo
  roll d c = do
    (leave, win) ← enter d.win c
    some (record d { value = step d.a d.an d.value leave c; win = win })

  -- `var aⁿ = 1; for range window { aⁿ *= a }`
  unfoldable pub power : ℕ → ℕ → ℕ
  power a zero = 1
  power a (suc n) = power a n * a % 2 ^ bits

  -- The lanes of `BatchRoll` and `BatchBoundaries`.
  abbrev pub kernel : ℕ → Kernel
  kernel a = record {
    Lane = ℕ;
    start = 0;
    absorb = absorb a;
    roll = λ w v leave enter. step a (power a w) v leave enter;
    value = λ v. v;
  }

  -- `BatchRoll`
  unfoldable pub batch_roll : Bozo → List ℕ → List ℕ → ℕ → Option (List ℕ)
  batch_roll d dst p w = TwoLane.batch_roll (kernel d.a) dst p w

  -- `BatchBoundaries`
  unfoldable pub batch_boundaries : Bozo → List ℕ → List ℕ → List ℕ → ℕ → ℕ → Option Hit
  batch_boundaries d a b p w mask = TwoLane.batch_boundaries (kernel d.a) mask a b p w
