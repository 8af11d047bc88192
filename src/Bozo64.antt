-- ===== src/Bozo64.antt =====
-- bozo64/bozo64.go: bozo32 over uint64, with its own default multiplier and two helpers.
use rollinghash.Prelude.{ℕ, ◌*◌, ◌%◌, ◌^◌, ◌+◌, List, [], ◌∷◌, ◌++◌, Option}
use rollinghash.TwoLane.{Hit}
use rollinghash.Bozo
use rollinghash.Bozo.{Bozo}

-- `Bozo64` has the fields of `Bozo32`, as uint64.
abbrev pub Bozo64 : Type 0
Bozo64 = Bozo

-- `Reset`
abbrev pub reset : Bozo64 → Bozo64
reset = Bozo.reset

-- `NewFromInt`
abbrev pub new_from_int : ℕ → Bozo64
new_from_int = Bozo.new_from_int

-- `New`: the largest prime that fits in 32 bits.
abbrev pub new : Bozo64
new = new_from_int 4294967291

-- `Write`
abbrev pub write : Bozo64 → List ℕ → Option (Bozo64 × ℕ)
write = Bozo.write 64

-- `Sum64`
abbrev pub sum64 : Bozo64 → ℕ
sum64 = Bozo.sum32

-- `Sum`
unfoldable pub sum : Bozo64 → List ℕ → List ℕ
sum d b = b ++ Bozo.big_endian 8 (sum64 d)

-- `Roll`
abbrev pub roll : Bozo64 → ℕ → Option Bozo64
roll = Bozo.roll 64

-- `bozoPow`
abbrev pub bozo_pow : ℕ → ℕ → ℕ
bozo_pow = Bozo.power 64

-- `bozoWindow`, from the value so far
abbrev pub bozo_window : List ℕ → ℕ → ℕ → ℕ
bozo_window [] a v = v
bozo_window (c ∷ win) a v = bozo_window win a ((v * a % 2 ^ 64 + c) % 2 ^ 64)

-- `BatchRoll`
abbrev pub batch_roll : Bozo64 → List ℕ → List ℕ → ℕ → Option (List ℕ)
batch_roll = Bozo.batch_roll 64

-- `BatchBoundaries`
abbrev pub batch_boundaries : Bozo64 → List ℕ → List ℕ → List ℕ → ℕ → ℕ → Option Hit
batch_boundaries = Bozo.batch_boundaries 64

-- `WriteWindow`, to an `io.Writer`
abbrev pub write_window :
    {State Error : Type 0}
    → (State → List ℕ → State × ℕ × Option Error)
    → State
    → Bozo64
    → State × ℕ × Option Error
write_window write_to s d = Bozo.write_window write_to s d
