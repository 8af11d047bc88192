-- ===== src/Tests/Rabins.antt =====
-- rabinkarp64 with the polynomial x^8, by which the remainder keeps the lowest 8 coefficients.
use rollinghash.Prelude.{
  ℕ, ◌+◌, ◌*◌, ◌/◌, ◌%◌, ◌^◌, ◌≡◌, refl, sym, ap₂, ◌∙◌, arith, [], ◌++◌, some, take, replicate,
  bit_xor,
}
use rollinghash.Prelude.Bits.{xor_fields}
use rollinghash.Kernel.{sum_of, window_sums, boundaries}
use rollinghash.Hasher.{write_then_roll}
use rollinghash.TwoLane.{Hit}
use rollinghash.Rabin.{RabinKarp64, new_from_pol, kernel, batch_roll, batch_boundaries}
use rollinghash.Rabin.Reduction.{IsReduction}
use rollinghash.Rabin.Digest.{hasher, new_from_pol-Holds, batch_roll_rabin, batch_boundaries_rabin}
use rollinghash.Tests.Loops.{data_bytes, data_bytes-IsBytes}

abbrev low_byte : ℕ → ℕ → ℕ
low_byte x pol = x % 2 ^ 8

abbrev eight : ℕ → ℕ
eight pol = 8

low_byte-sum : (x y : ℕ) → bit_xor x y % 2 ^ 8 ≡ bit_xor (x % 2 ^ 8) (y % 2 ^ 8)
low_byte-sum x y =
    let left : x / 2 ^ 8 * 2 ^ 8 + x % 2 ^ 8 ≡ x = omega arith in
    let right : y / 2 ^ 8 * 2 ^ 8 + y % 2 ^ 8 ≡ y = omega arith in
    let (e, below) =
      xor_fields 8 (x / 2 ^ 8) (x % 2 ^ 8) (y / 2 ^ 8) (y % 2 ^ 8) (omega arith) (omega arith) in
    let whole : bit_xor x y
        ≡ bit_xor (x / 2 ^ 8) (y / 2 ^ 8) * 2 ^ 8 + bit_xor (x % 2 ^ 8) (y % 2 ^ 8) =
      ap₂ bit_xor (sym left) (sym right) ∙ e in
    omega (arith, whole, below)

low_byte-IsReduction : IsReduction low_byte 256 8
low_byte-IsReduction = record {
  below = λ x h. omega arith;
  reduced = λ x h. omega arith;
  sum = λ x y h k. low_byte-sum x y;
}

abbrev fresh : RabinKarp64
fresh = new_from_pol low_byte eight 256

batch_roll_rabin_example :
    (batch_roll low_byte eight fresh (replicate 4 0) data_bytes 2
      ≡ some (window_sums (sum_of (kernel low_byte eight 256 0)) 2 data_bytes))
    × (write_then_roll
          (hasher low_byte eight 256 low_byte-IsReduction (omega arith) (omega arith))
          fresh
          data_bytes
          2
        ≡ batch_roll low_byte eight fresh (replicate 4 0) data_bytes 2)
batch_roll_rabin_example =
    batch_roll_rabin low_byte eight 256 low_byte-IsReduction (omega arith) (omega arith) fresh []
      (replicate 4 0) data_bytes 2
      (new_from_pol-Holds low_byte eight 256 low_byte-IsReduction (omega arith) (omega arith))
      data_bytes-IsBytes (omega arith) (omega arith) (omega arith) refl

batch_boundaries_rabin_example :
    (r : Hit) × (batch_boundaries low_byte eight fresh
        (replicate 4 0)
        (replicate 4 0)
        data_bytes
        2
        1
      ≡ some r)
    × (take r.na r.a ++ take r.nb r.b
        ≡ boundaries (sum_of (kernel low_byte eight 256 0)) 1 2 data_bytes)
batch_boundaries_rabin_example =
    batch_boundaries_rabin low_byte eight 256 low_byte-IsReduction (omega arith) (omega arith) fresh
      [] (replicate 4 0) (replicate 4 0) data_bytes 2 1
      (new_from_pol-Holds low_byte eight 256 low_byte-IsReduction (omega arith) (omega arith))
      data_bytes-IsBytes (omega arith) (omega arith) (omega arith) (omega arith) (omega arith)
      (omega arith)
