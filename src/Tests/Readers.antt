-- ===== src/Tests/Readers.antt =====
-- A batch roller over bozo32 and a reader that gives one byte at a time.
use rollinghash.Prelude.{
  ℕ, zero, suc, ◌≤◌, ◌<◌, ◌≡◌, ◌≢◌, refl, arith, List, [], ◌∷◌, ◌++◌, some, none, length,
}
use rollinghash.Kernel.{sum_of, window_sums}
use rollinghash.TwoLane
use rollinghash.TwoLane.Sums.{batch_roll-window_sums}
use rollinghash.Bozo.{kernel}
use rollinghash.Bozo.Horner.{kernel-IsRolling_bozo}
use rollinghash.BatchRoller.{configured, with_buffer_size, new_core}
use rollinghash.BatchReader.{Status, read_ok, at_eof, failed, Reader, new_reader, drain_reader}
use rollinghash.BatchReader.Fill.{IsReader}
use rollinghash.BatchReader.Stream.{drain_reader-new_reader}
use rollinghash.Tests.Loops.{data_bytes, data_bytes-IsBytes}

abbrev pub one_byte : List ℕ → ℕ → List ℕ × List ℕ × Status ℕ
one_byte [] n = ([], [], at_eof)
one_byte (x ∷ p) zero = (x ∷ p, [], read_ok)
one_byte (x ∷ p) (suc n) = (p, x ∷ [], read_ok)

one_byte-fits : (p : List ℕ) (n : ℕ) → length (one_byte p n).1 ≤ n
one_byte-fits [] n = omega arith
one_byte-fits (x ∷ p) zero = omega arith
one_byte-fits (x ∷ p) (suc n) = omega arith

one_byte-gives : (p : List ℕ) (n : ℕ) → p ≡ (one_byte p n).1 ++ (one_byte p n).0
one_byte-gives [] n = refl
one_byte-gives (x ∷ p) zero = refl
one_byte-gives (x ∷ p) (suc n) = refl

one_byte-at_end : (p : List ℕ) (n : ℕ) → (one_byte p n).2 ≡ at_eof → (one_byte p n).0 ≡ []
one_byte-at_end [] n e = refl
one_byte-at_end (x ∷ p) zero e = absurd (cc e)
one_byte-at_end (x ∷ p) (suc n) e = absurd (cc e)

one_byte-progress :
    (p : List ℕ) (n : ℕ) → 0 < n → (one_byte p n).2 ≡ read_ok → 0 < length (one_byte p n).1
one_byte-progress [] n h e = absurd (cc e)
one_byte-progress (x ∷ p) zero h e = absurd (omega arith)
one_byte-progress (x ∷ p) (suc n) h e = omega arith

pub one_byte-IsReader : IsReader one_byte (λ p. p)
one_byte-IsReader = record {
  fits = one_byte-fits;
  gives = one_byte-gives;
  at_end = one_byte-at_end;
  progress = one_byte-progress;
  never_fails = never;
}
  where
    never : (p : List ℕ) (n err : ℕ) → (one_byte p n).2 ≢ failed err
    never [] n err e = cc e
    never (x ∷ p) zero err e = cc e
    never (x ∷ p) (suc n) err e = cc e

option_chosen : (configured {Error = ℕ} 2 (some 3)).batch_size ≡ 3
unfolding configured with_buffer_size new_core
option_chosen = refl

drain_reader_example :
    (s' : Reader (List ℕ) ℕ) × (drain_reader one_byte
        (TwoLane.batch_roll (kernel 32 10))
        9
        2
        4
        (new_reader data_bytes 2 (some 3))
      ≡ some (window_sums (sum_of (kernel 32 10)) 2 data_bytes, s'))
    × (s'.core.err ≡ none)
drain_reader_example =
    drain_reader-new_reader one_byte (λ p. p) one_byte-IsReader (TwoLane.batch_roll (kernel 32 10))
      (sum_of (kernel 32 10)) (batch_roll-window_sums (kernel 32 10) (kernel-IsRolling_bozo 32 10))
      2 3 (omega arith) (omega arith) (omega arith) data_bytes data_bytes-IsBytes data_bytes
      (some 3) 9 0 option_chosen refl (omega arith)
