-- ===== src/Buzhash64.antt =====
-- buzhash64/buzhash64.go: buzhash32 over uint64.
use rollinghash.Prelude.{ℕ, List, ◌++◌, Option}
use rollinghash.Bozo.{big_endian}
use rollinghash.Buzhash
use rollinghash.Buzhash.{Buzhash}

-- `Buzhash64` has the fields of `Buzhash32`, as uint64.
abbrev pub Buzhash64 : Type 0
Buzhash64 = Buzhash

-- `Reset`
abbrev pub reset : Buzhash64 → Buzhash64
reset = Buzhash.reset

-- `NewFromUint64Array`
abbrev pub new_from_table : (ℕ → ℕ) → Buzhash64
new_from_table = Buzhash.new_from_table

-- `Write`
abbrev pub write : Buzhash64 → List ℕ → Option (Buzhash64 × ℕ)
write = Buzhash.write 64

-- `Sum64`
abbrev pub sum64 : Buzhash64 → ℕ
sum64 = Buzhash.sum32

-- `Sum`
unfoldable pub sum_bytes : Buzhash64 → List ℕ → List ℕ
sum_bytes d b = b ++ big_endian 8 (sum64 d)

-- `Roll`
abbrev pub roll : Buzhash64 → ℕ → Option Buzhash64
roll = Buzhash.roll 64

-- `BatchRoll`
abbrev pub batch_roll : Buzhash64 → List ℕ → List ℕ → ℕ → Option (List ℕ)
batch_roll = Buzhash.batch_roll 64

-- `WriteWindow`, to an `io.Writer`
abbrev pub write_window :
    {State Error : Type 0}
    → (State → List ℕ → State × ℕ × Option Error)
    → State
    → Buzhash64
    → State × ℕ × Option Error
write_window write_to s d = Buzhash.write_window write_to s d
