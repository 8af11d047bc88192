-- ===== src/Chunker/Hash.antt =====
-- chunker.go: `hashForward` and the hashing loop of `next`.
use rollinghash.Prelude.{
  ℕ, zero, suc, ◌+◌, ◌-◌, ◌≤◌, ◌<◌, leb, ◌==◌, ◌⊎◌, inl, inr, ◌≡◌, refl, sym, ap, ap₂, ◌∙◌, arith,
  Bool, true, false, List, [], ◌∷◌, ◌++◌, map, length, take, drop, slice, replicate, slice-take,
  drop-drop, length-append, length-take, bit_and,
}
use rollinghash.Kernel.{positions, boundaries}
use rollinghash.Kernel.Positions.{positions_skip, map-positions}
use rollinghash.TwoLane.Advance.{length-slice}
use rollinghash.Chunker.{reslice}
use rollinghash.Chunker.Walk.{test}

pub map-append : (f : ℕ → ℕ) (xs ys : List ℕ) → map f xs ++ map f ys ≡ map f (xs ++ ys)
map-append f [] ys = refl
map-append f (x ∷ xs) ys = ap (λ t. f x ∷ t) (map-append f xs ys)

length-replicate : (n a : ℕ) → length (replicate n a) ≡ n
length-replicate zero a = refl
length-replicate (suc n) a = ap suc (length-replicate n a)

pub length-reslice : (n : ℕ) (xs : List ℕ) → length (reslice n xs) ≡ n
length-reslice n xs = omega (
  arith,
  length-take n (xs ++ replicate n 0),
  length-append xs (replicate n 0),
  length-replicate n 0,
)

-- The bytes of a block are those of the stream.
pub block_bytes :
    (base start end : ℕ) (fed : List ℕ)
    → base ≤ start
    → slice (start - base) (end - start) (drop base fed) ≡ slice start (end - start) fed
block_bytes base start end fed h =
    let at : base + (start - base) ≡ start = omega arith in
    ap (take (end - start)) (drop-drop (start - base) base fed ∙ ap (λ n. drop n fed) at)

module _ (checksum : List ℕ → ℕ) (w mask min_size max_size : ℕ) (pos : 0 < w) where
  -- A window of a block is a window of the stream.
  block_test :
      (start end i : ℕ) (fed : List ℕ)
      → i < end - start + 1 - w
      → (bit_and (checksum (slice i w (slice start (end - start) fed))) mask == 0)
        ≡ test checksum w mask min_size max_size fed (i + (start + w - 1))
  block_test start end i fed h =
      let full : leb w (i + (start + w - 1) + 1) ≡ true = ground arith in
      let at : start + i ≡ i + (start + w - 1) + 1 - w = omega arith in
      let same : slice i w (slice start (end - start) fed)
          ≡ slice (i + (start + w - 1) + 1 - w) w fed =
        slice-take i w (end - start) (drop start fed) (omega arith)
        ∙ ap (take w) (drop-drop i start fed ∙ ap (λ n. drop n fed) at) in
      rw full (ap (λ (x : List ℕ). bit_and (checksum x) mask == 0) same)

  -- The hits of a block are the boundaries of the stream from `hashed` up to `end`.
  pub block_bounds :
      (start hashed end : ℕ) (fed : List ℕ)
      → end ≤ length fed
      → w ≤ end - start
      → (start + (w - 1) ≡ hashed) ⊎ ((start ≡ 0) × (hashed < w))
      → map (λ g. start + g + w - 1) (boundaries checksum mask w (slice start (end - start) fed))
        ≡ positions (test checksum w mask min_size max_size fed) hashed (end - hashed)
  block_bounds start hashed end fed fits long lead =
      let block : List ℕ = slice start (end - start) fed in
      let t : ℕ → Bool = test checksum w mask min_size max_size fed in
      let len : length block ≡ end - start = length-slice fed start (end - start) (omega arith) in
      let count : length block + 1 - w ≡ end - (start + w - 1) = omega (arith, len) in
      let local : ℕ → Bool = λ i. bit_and (checksum (slice i w block)) mask == 0 in
      let shift : (g : ℕ) → start + g + w - 1 ≡ g + (start + w - 1) = λ g. omega arith in
      ap (λ (f : ℕ → ℕ). map f (positions local 0 (length block + 1 - w))) (λ i g. shift g i)
      ∙ map-positions local t (start + w - 1) 0 (length block + 1 - w)
          (λ i p q. block_test start end i fed (omega (arith, len)))
      ∙ ap₂ (positions t) (omega arith) count
      ∙ first_window t
    where
      first_window :
          (t : ℕ → Bool)
          → positions
              (test checksum w mask min_size max_size fed)
              (start + w - 1)
              (end - (start + w - 1))
            ≡ positions (test checksum w mask min_size max_size fed) hashed (end - hashed)
      first_window t = elim lead [
        | inl e ↦
            let at : start + w - 1 ≡ hashed = omega arith in
            ap (λ n. positions (test checksum w mask min_size max_size fed) n (end - n)) at
        | inr e ↦
            let zero_start : start ≡ 0 = e.0 in
            sym (
              positions_skip (test checksum w mask min_size max_size fed) hashed (start + w - 1) end
                (omega (arith, e.1)) (omega arith)
                (λ i p q. (let few : leb w (i + 1) ≡ false = ground arith in rw few refl)))
      ]
