-- ===== src/Chunker/Cuts.antt =====
-- The cuts of the reference of chunker.go: where a chunk ends, and the chunks after it.
use rollinghash.Prelude.{
  ℕ, zero, suc, ◌+◌, ◌-◌, ◌≤◌, ◌<◌, ltb, leb, ◌==◌, inl, inr, ◌≡◌, refl, ap, ◌∙◌, arith, Bool, true,
  false, Bool-cases, List, [], ◌∷◌, length,
}
use rollinghash.Kernel.Positions.{positions_none, First, search_positions}
use rollinghash.Chunker.{max_int}
use rollinghash.Chunker.Reference.{Chunk, Cut, latest, cut_first, next_cut, chunk_at, chunks_from}
use rollinghash.Chunker.Walk.{test, rest_of}

module _ (checksum : List ℕ → ℕ) (w mask min_size max_size : ℕ) where
  abbrev T : List ℕ → ℕ → Bool
  T = test checksum w mask min_size max_size

  abbrev L : List ℕ → ℕ → ℕ
  L = latest checksum w mask min_size max_size

  abbrev N : List ℕ → ℕ → Cut
  N = next_cut checksum w mask min_size max_size

  abbrev C : List ℕ → ℕ → Chunk
  C p start = chunk_at checksum w mask min_size max_size p start (N p start)

  pub latest_le : (p : List ℕ) (start : ℕ) → L p start ≤ length p
  latest_le p start = elim (Bool-cases (max_size == max_int)) [
    | inl e ↦ rw e (omega arith)
    | inr e ↦ rw e (omega arith)
  ]

  pub latest-forward :
      (p : List ℕ) (start : ℕ) → 0 < max_size → start < length p → start < L p start
  latest-forward p start room h = elim (Bool-cases (max_size == max_int)) [
    | inl e ↦ rw e h
    | inr e ↦ rw e (omega arith)
  ]

  -- The first boundary that is early enough ends the chunk.
  pub next_cut-first :
      (p : List ℕ) (start at : ℕ)
      → T p at ≡ true
      → start + (min_size - 1) ≤ at
      → ((i : ℕ) → start + (min_size - 1) ≤ i → i < at → T p i ≡ false)
      → at < L p start
      → N p start ≡ record { end = at + 1; content_defined = true }
  unfolding next_cut
  next_cut-first p start at passes late none_before h =
      elim (search_positions (T p) (L p start) (start + (min_size - 1)) (L p start) (omega arith)) [
        | inr n ↦ absurd (cc (passes, n.all_fail at late h))
        | inl g ↦
            let same : g.at ≡ at = unique g in
            ap (cut_first checksum w mask min_size max_size (L p start)) g.found
            ∙ ap (λ (n : ℕ). record { end = n + 1; content_defined = true }) same
      ]
    where
      unique : (g : First (T p) (start + (min_size - 1)) (L p start)) → g.at ≡ at
      unique g = elim (Bool-cases (ltb g.at at)) [
        | inl k ↦ absurd (cc (g.passes, none_before g.at g.lo_le (ground arith)))
        | inr k ↦ elim (Bool-cases (ltb at g.at)) [
          | inl l ↦ absurd (cc (passes, g.none_before at late (ground arith)))
          | inr l ↦ ground arith
        ]
      ]

  -- Without a boundary the chunk is as long as it may be.
  pub next_cut-none :
      (p : List ℕ) (start : ℕ)
      → ((i : ℕ) → start + (min_size - 1) ≤ i → i < L p start → T p i ≡ false)
      → N p start ≡ record { end = L p start; content_defined = false }
  unfolding next_cut
  next_cut-none p start h = ap (cut_first checksum w mask min_size max_size (L p start)) (
      positions_none (T p) (start + (min_size - 1)) (L p start - (start + (min_size - 1)))
        (λ i a b. h i a (omega arith)))

  -- A chunk is not empty, and ends within the stream.
  pub next_cut-bounds :
      (p : List ℕ) (start : ℕ)
      → 0 < max_size
      → start < length p
      → (start < (N p start).end) × ((N p start).end ≤ L p start)
  next_cut-bounds p start room h =
      elim (search_positions (T p) (L p start) (start + (min_size - 1)) (L p start) (omega arith)) [
        | inl f ↦
            rw (next_cut-first p start f.at f.passes f.lo_le f.none_before f.below)
              (omega (arith, f.lo_le), omega (arith, f.below))
        | inr n ↦ rw (next_cut-none p start n.all_fail) (latest-forward p start room h, omega arith)
      ]

  -- Fuel for each byte is enough.
  chunks_from_enough :
      (n m : ℕ) (p : List ℕ) (start : ℕ)
      → 0 < max_size
      → length p ≤ start + n
      → length p ≤ start + m
      → chunks_from checksum w mask min_size max_size n p start
        ≡ chunks_from checksum w mask min_size max_size m p start
  unfolding chunks_from
  chunks_from_enough zero zero p start room h k = refl
  chunks_from_enough zero (suc m) p start room h k =
      let over : leb (length p) start ≡ true = ground arith in rw (chunks_from, over) refl
  chunks_from_enough (suc n) zero p start room h k =
      let over : leb (length p) start ≡ true = ground arith in rw (chunks_from, over) refl
  chunks_from_enough (suc n) (suc m) p start room h k = elim (Bool-cases (leb (length p) start)) [
    | inl e ↦ rw (chunks_from, e) refl
    | inr e ↦
        let further = next_cut-bounds p start room (ground arith) in
        rw (chunks_from, e)
          (ap (λ rest. C p start ∷ rest)
            (chunks_from_enough n m p (N p start).end room (omega (arith, further.0))
              (omega (arith, further.0))))
  ]

  pub chunks_from-suc :
      (n : ℕ) (p : List ℕ) (start : ℕ)
      → start < length p
      → chunks_from checksum w mask min_size max_size (suc n) p start
        ≡ C p start ∷ chunks_from checksum w mask min_size max_size n p (N p start).end
  unfolding chunks_from
  chunks_from-suc n p start h =
      let left : leb (length p) start ≡ false = ground arith in rw (chunks_from, left) refl

  -- The chunks from `start` on are the next one and those after it.
  pub rest_of-step :
      (p : List ℕ) (start : ℕ)
      → 0 < max_size
      → start < length p
      → rest_of checksum w mask min_size max_size p start
        ≡ C p start ∷ rest_of checksum w mask min_size max_size p (N p start).end
  rest_of-step p start room h =
      let further = next_cut-bounds p start room h in
      chunks_from_enough (length p - start) (suc (length p - start)) p start room (omega arith)
        (omega arith)
      ∙ chunks_from-suc (length p - start) p start h
      ∙ ap (λ rest. C p start ∷ rest)
          (chunks_from_enough (length p - start) (length p - (N p start).end) p (N p start).end room
            (omega (arith, further.0)) (omega arith))

  -- Nothing is left at the end of the stream.
  pub rest_of-end :
      (p : List ℕ) (start : ℕ)
      → length p ≤ start
      → rest_of checksum w mask min_size max_size p start ≡ []
  unfolding chunks_from
  rest_of-end p start h =
      let nothing : length p - start ≡ 0 = omega arith in
      ap (λ n. chunks_from checksum w mask min_size max_size n p start) nothing
