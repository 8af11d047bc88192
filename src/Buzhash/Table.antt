-- ===== src/Buzhash/Table.antt =====
-- buzhash32/buzhash32.go: the checksum as a sum of rotated table entries.
use rollinghash.Prelude.{
  ℕ, suc, ◌%◌, ◌^◌, ◌<◌, ◌≡◌, refl, sym, ap, ap₂, ◌∙◌, arith, List, [], ◌∷◌, foldl, length, bit_xor,
  IsBytes,
}
use rollinghash.Prelude.Bits.{xor-lt, xor_comm, xor_assoc, xor_cancel, zero-xor, xor-zero}
use mathlib.Core.List.{foldl-append}
use native.Mathlib.Nat.{one-le-pow}
use rollinghash.Kernel.{lane, IsRolling}
use rollinghash.Buzhash.{rotate_left, absorb, rotated_table, kernel}
use rollinghash.Buzhash.Rotate.{
  rotate_left-lt, rotate_times, rotate_times-mod, rotate_left-xor, rotate_left_of_zero,
  rotate_times-lt, rotate_times-rotate_left, rotate_times-suc, rotate_times-zero,
}

-- A table of words.
abbrev pub IsTable : ℕ → (ℕ → ℕ) → Type 0
IsTable bits bh = (c : ℕ) → c < 256 → bh c < 2 ^ bits

-- The entries of the bytes, each rotated by the number of the bytes that follow it.
abbrev pub rotated_xor : ℕ → (ℕ → ℕ) → List ℕ → ℕ
rotated_xor bits bh [] = 0
rotated_xor bits bh (x ∷ p) =
    bit_xor (rotate_left bits (bh x) (length p % bits)) (rotated_xor bits bh p)

module _ (bits : ℕ) (pos : 0 < bits) (bh : ℕ → ℕ) (words : IsTable bits bh) where
  absorb-lt : (v c : ℕ) → v < 2 ^ bits → c < 256 → absorb bits bh v c < 2 ^ bits
  absorb-lt v c hv hc = xor-lt bits _ _ (rotate_left-lt bits v pos hv) (words c hc)

  foldl-lt : (v : ℕ) (p : List ℕ) → v < 2 ^ bits → IsBytes p → foldl (absorb bits bh) v p < 2 ^ bits
  foldl-lt v [] hv hp = hv
  foldl-lt v (c ∷ p) hv hp = foldl-lt (absorb bits bh v c) p (absorb-lt v c hv hp.0) hp.1

  lane-lt : (p : List ℕ) → IsBytes p → lane (kernel bits bh) p < 2 ^ bits
  lane-lt p hp = foldl-lt 0 p (one-le-pow bits 2 (omega arith)) hp

  -- What was in the sum before the bytes of `p` is rotated once for each of them.
  foldl-xor :
      (u v : ℕ) (p : List ℕ)
      → u < 2 ^ bits
      → v < 2 ^ bits
      → IsBytes p
      → foldl (absorb bits bh) (bit_xor u v) p
        ≡ bit_xor (rotate_times bits (length p) u) (foldl (absorb bits bh) v p)
  foldl-xor u v [] hu hv hp = ap (λ t. bit_xor t v) (sym (rotate_times-zero bits u))
  foldl-xor u v (c ∷ p) hu hv hp =
      ap (λ t. foldl (absorb bits bh) t p) pushed
      ∙ foldl-xor (rotate_left bits u 1) (absorb bits bh v c) p (rotate_left-lt bits u pos hu)
          (absorb-lt v c hv hp.0) hp.1
      ∙ ap (λ t. bit_xor t (foldl (absorb bits bh) (absorb bits bh v c) p))
          (rotate_times-rotate_left bits (length p) u)
    where
      pushed : absorb bits bh (bit_xor u v) c ≡ bit_xor (rotate_left bits u 1) (absorb bits bh v c)
      pushed =
          ap (λ t. bit_xor t (bh c)) (rotate_left-xor bits u v pos hu hv)
          ∙ xor_assoc (rotate_left bits u 1) (rotate_left bits v 1) (bh c)

  -- The first byte's entry is rotated once for each byte that follows it.
  lane-cons :
      (x : ℕ) (p : List ℕ)
      → x < 256
      → IsBytes p
      → lane (kernel bits bh) (x ∷ p)
        ≡ bit_xor (rotate_times bits (length p) (bh x)) (lane (kernel bits bh) p)
  lane-cons x p hx hp =
      ap (λ t. foldl (absorb bits bh) t p)
        (ap (λ t. bit_xor t (bh x)) (rotate_left_of_zero bits)
          ∙ zero-xor (bh x)
          ∙ sym (xor-zero (bh x)))
      ∙ foldl-xor (bh x) 0 p (words x hx) (one-le-pow bits 2 (omega arith)) hp

  -- With a table of words of a positive size, the checksum of a window of bytes, which the code
  -- rotates by one for each byte, is the exclusive or of the table's entries of the bytes, each
  -- rotated at once by the number of the bytes that follow it, modulo the number of bits.
  pub lane-rotated_xor : (p : List ℕ) → IsBytes p → lane (kernel bits bh) p ≡ rotated_xor bits bh p
  lane-rotated_xor [] hp = refl
  lane-rotated_xor (x ∷ p) hp =
      lane-cons x p hp.0 hp.1
      ∙ ap₂ bit_xor (rotate_times-mod bits (length p) (bh x) pos (words x hp.0))
          (lane-rotated_xor p hp.1)

  pub kernel-IsRolling_buzhash : IsRolling (kernel bits bh)
  kernel-IsRolling_buzhash x y p hl hx hp hy =
      ap₂ (λ v h0. bit_xor (bit_xor v h0) (bh y)) rotated leaving
      ∙ ap (λ t. bit_xor t (bh y)) cancelled
      ∙ sym (foldl-append (absorb bits bh) 0 p (y ∷ []))
    where
      weight : ℕ
      weight = rotate_times bits (suc (length p)) (bh x)

      rest : ℕ
      rest = rotate_left bits (lane (kernel bits bh) p) 1

      rotated : rotate_left bits (lane (kernel bits bh) (x ∷ p)) 1 ≡ bit_xor weight rest
      rotated =
          ap (λ t. rotate_left bits t 1) (lane-cons x p hx hp)
          ∙ rotate_left-xor bits (rotate_times bits (length p) (bh x)) (lane (kernel bits bh) p) pos
              (rotate_times-lt bits (length p) (bh x) pos (words x hx)) (lane-lt p hp)
          ∙ ap (λ t. bit_xor t rest) (rotate_times-suc bits (length p) (bh x))

      leaving : rotated_table bits bh (suc (length p) % bits) x ≡ weight
      leaving = sym (rotate_times-mod bits (suc (length p)) (bh x) pos (words x hx))

      cancelled : bit_xor (bit_xor weight rest) weight ≡ rest
      cancelled = ap (λ t. bit_xor t weight) (xor_comm weight rest) ∙ xor_cancel rest weight
