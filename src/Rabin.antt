-- ===== src/Rabin.antt =====
-- rabinkarp64/rabinkarp64.go. A polynomial over F_2 is the number of its coefficients. `Mod` and
-- `Deg` of polynomials.go, which comes from github.com/restic/chunker, are the parameters `reduce` and
-- `degree`; a polynomial is not zero. A table `[256]Pol` is a function of the byte.
pub mod Reduction
pub mod Rolling
pub mod Digest
pub mod Cache
use rollinghash.Prelude.{
  ℕ, zero, suc, ◌+◌, ◌-◌, ◌*◌, ◌/◌, ◌%◌, ◌^◌, ◌==◌, if◌then◌else◌, List, [], ◌++◌, Option, some,
  ◌>>=◌, foldl, length, bit_xor, bit_or,
}
use rollinghash.Window.{Circular, append, enter}
use rollinghash.Kernel.{Kernel}
use rollinghash.TwoLane
use rollinghash.TwoLane.{Hit}
use rollinghash.Bozo.{big_endian}

-- `tables`
pub record Tables : Type 0 where
  pub out : ℕ → ℕ
  pub mod_ : ℕ → ℕ

pub record RabinKarp64 : Type 0 where
  pub pol : ℕ
  pub tables : Tables
  pub pol_shift : ℕ
  pub value : ℕ
  pub win : Circular

-- `v<<8 | Pol(c)`
abbrev pub shift_in : ℕ → ℕ → ℕ
shift_in v c = bit_or (v * 2 ^ 8 % 2 ^ 64) c

-- The rolling step: the polynomial's shift, the tables, the value, and the bytes.
abbrev pub step : ℕ → Tables → ℕ → ℕ → ℕ → ℕ
step shift t v leave enter =
    let slid = bit_xor v (t.out leave) in
    bit_xor (shift_in slid enter) (t.mod_ (slid / 2 ^ (shift % 64) % 2 ^ 8))

-- `Sum64`
unfoldable pub sum64 : RabinKarp64 → ℕ
sum64 d = d.value

-- `Sum`
unfoldable pub sum_bytes : RabinKarp64 → List ℕ → List ℕ
sum_bytes d b = b ++ big_endian 8 (sum64 d)

-- `Roll`: `none` is the panic on an empty window.
unfoldable pub roll : RabinKarp64 → ℕ → Option RabinKarp64
roll d c = do
  (leave, win) ← enter d.win c
  some (record d { value = step d.pol_shift d.tables d.value leave c; win = win })

module _ (reduce : ℕ → ℕ → ℕ) where
  -- One more byte, reduced.
  abbrev pub absorb : ℕ → ℕ → ℕ → ℕ
  absorb pol v c = reduce (shift_in v c) pol

  -- `n` more zero bytes.
  abbrev pub slide : ℕ → ℕ → ℕ → ℕ
  slide pol zero h = h
  slide pol (suc n) h = slide pol n (absorb pol h 0)

-- `uint(p.Deg() - 8)`
abbrev pub shift_of : (ℕ → ℕ) → ℕ → ℕ
shift_of degree pol = (degree pol + 2 ^ 64 - 8) % 2 ^ 64

module _ (reduce : ℕ → ℕ → ℕ) (degree : ℕ → ℕ) where
  -- `buildTables`
  abbrev pub build_tables : ℕ → ℕ → Tables
  build_tables pol window = record {
    out = λ b. slide reduce pol (window - 1) (absorb reduce pol 0 b);
    mod_ = λ b. bit_or (reduce (b * 2 ^ degree pol % 2 ^ 64) pol) (b * 2 ^ degree pol % 2 ^ 64);
  }

  -- `NewFromPol`
  unfoldable pub new_from_pol : ℕ → RabinKarp64
  new_from_pol pol = record {
    pol = pol;
    tables = build_tables pol 0;
    pol_shift = shift_of degree pol;
    value = 0;
    win = record { window = []; oldest = 0 };
  }

  -- `Reset`
  unfoldable pub reset : RabinKarp64 → RabinKarp64
  reset d = record d {
    tables = build_tables d.pol 0;
    value = 0;
    win = record { window = []; oldest = 0 };
  }

  -- `Write`: the digest after it, and the count that it returns. It returns no error.
  unfoldable pub write : RabinKarp64 → List ℕ → Option (RabinKarp64 × ℕ)
  write d p = if length p == 0 then some (d, 0) else (do
    win ← append d.win p
    some (
      record d {
        tables = build_tables d.pol (length win.window);
        value = foldl (absorb reduce d.pol) 0 win.window;
        win = win;
      },
      length p,
    ))

  -- The lanes of `BatchRoll`, by the polynomial and its shift.
  abbrev pub kernel : ℕ → ℕ → Kernel
  kernel pol shift = record {
    Lane = ℕ;
    start = 0;
    absorb = absorb reduce pol;
    roll = λ w v leave enter. step shift (build_tables pol w) v leave enter;
    value = λ v. v;
  }

  -- `BatchRoll`
  unfoldable pub batch_roll : RabinKarp64 → List ℕ → List ℕ → ℕ → Option (List ℕ)
  batch_roll d dst p w = TwoLane.batch_roll (kernel d.pol d.pol_shift) dst p w

  -- `BatchBoundaries`
  unfoldable pub batch_boundaries : RabinKarp64 → List ℕ → List ℕ → List ℕ → ℕ → ℕ → Option Hit
  batch_boundaries d buf_a buf_b p w mask =
      TwoLane.batch_boundaries (kernel d.pol d.pol_shift) mask buf_a buf_b p w
