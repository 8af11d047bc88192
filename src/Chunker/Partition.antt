-- ===== src/Chunker/Partition.antt =====
-- The chunks of the reference of chunker.go: they make up the stream, and their lengths are bounded.
use rollinghash.Prelude.{
  ℕ, zero, suc, ◌+◌, ◌-◌, min, ◌≤◌, ◌<◌, ltb, leb, ◌==◌, ◌⊎◌, inl, inr, ◌≡◌, refl, sym, ap, ◌∙◌,
  arith, true, Bool-cases, List, [], ◌∷◌, ◌++◌, length, drop, slice, drop-drop, take-append-drop,
  subst,
}
use rollinghash.Kernel.Positions.{search_positions}
use rollinghash.TwoLane.Advance.{length-slice}
use rollinghash.Chunker.{max_int}
use rollinghash.Chunker.Reference.{
  Chunk, Cut, latest, next_cut, chunk_at, chunks_from, reference_chunks,
}
use rollinghash.Chunker.Walk.{test}
use rollinghash.Chunker.Cuts.{
  latest_le, next_cut-first, next_cut-none, next_cut-bounds, chunks_from-suc,
}

-- The bytes of chunks, one after the other.
abbrev pub rejoined : List Chunk → List ℕ
rejoined [] = []
rejoined (k ∷ ks) = k.bytes ++ rejoined ks

-- At most `max_size` bytes, where `max_int` is no limit.
abbrev pub IsBounded : ℕ → ℕ → Type 0
IsBounded max_size n = (max_size ≡ max_int) ⊎ (n ≤ max_size)

-- Every chunk has at most `max_size` bytes, and every chunk but the last at least `min_size`.
abbrev pub IsSized : ℕ → ℕ → List Chunk → Type 0
IsSized min_size max_size [] = Unit
IsSized min_size max_size (k ∷ []) = IsBounded max_size (length k.bytes)
IsSized min_size max_size (k ∷ l ∷ ks) =
    IsBounded max_size (length k.bytes)
    × (min_size ≤ length k.bytes)
    × IsSized min_size max_size (l ∷ ks)

drop-all : (n : ℕ) (xs : List ℕ) → length xs ≤ n → drop n xs ≡ []
drop-all zero [] h = refl
drop-all zero (x ∷ xs) h = absurd (omega arith)
drop-all (suc n) [] h = refl
drop-all (suc n) (x ∷ xs) h = drop-all n xs (omega arith)

module _ (checksum : List ℕ → ℕ) (w mask min_size max_size : ℕ) (room : 0 < max_size) where
  abbrev N : List ℕ → ℕ → Cut
  N = next_cut checksum w mask min_size max_size

  abbrev R : ℕ → List ℕ → ℕ → List Chunk
  R = chunks_from checksum w mask min_size max_size

  -- There are chunks up to the end.
  chunks_from-end : (left : ℕ) (p : List ℕ) (start : ℕ) → length p ≤ start → R left p start ≡ []
  unfolding chunks_from
  chunks_from-end zero p start h = refl
  chunks_from-end (suc left) p start h =
      let over : leb (length p) start ≡ true = ground arith in rw (chunks_from, over) refl

  chunks_from-rejoined :
      (left : ℕ) (p : List ℕ) (start : ℕ)
      → length p ≤ start + left
      → rejoined (R left p start) ≡ drop start p
  unfolding chunks_from
  chunks_from-rejoined zero p start h = sym (drop-all start p (omega arith))
  chunks_from-rejoined (suc left) p start h = elim (Bool-cases (leb (length p) start)) [
    | inl e ↦
        ap rejoined (chunks_from-end (suc left) p start (ground arith))
        ∙ sym (drop-all start p (ground arith))
    | inr e ↦
        let inside : start < length p = ground arith in
        let (further, within) =
          next_cut-bounds checksum w mask min_size max_size p start room inside in
        let end : ℕ = (N p start).end in
        let at : start + (end - start) ≡ end = omega arith in
        ap rejoined (chunks_from-suc checksum w mask min_size max_size left p start inside)
        ∙ ap (λ xs. slice start (end - start) p ++ xs)
            (chunks_from-rejoined left p end (omega arith)
              ∙ sym (drop-drop (end - start) start p ∙ ap (λ n. drop n p) at))
        ∙ take-append-drop (end - start) (drop start p)
  ]

  -- The chunks of a stream make up the stream.
  pub rejoined-reference_chunks :
      (p : List ℕ) → rejoined (reference_chunks checksum w mask min_size max_size p) ≡ p
  unfolding reference_chunks
  rejoined-reference_chunks p = chunks_from-rejoined (length p) p 0 (omega arith)

  latest-IsBounded :
      (p : List ℕ) (start n : ℕ)
      → n ≤ latest checksum w mask min_size max_size p start
      → IsBounded max_size (n - start)
  latest-IsBounded p start n h = elim (Bool-cases (max_size == max_int)) [
    | inl e ↦ inl (ground arith)
    | inr e ↦
        let here : latest checksum w mask min_size max_size p start
            ≡ min (start + max_size) (length p) =
          rw e refl in
        inr (omega (arith, here))
  ]

  latest_forced :
      (p : List ℕ) (start : ℕ)
      → latest checksum w mask min_size max_size p start < length p
      → latest checksum w mask min_size max_size p start ≡ start + max_size
  latest_forced p start h = elim (Bool-cases (max_size == max_int)) [
    | inl e ↦
        let here : latest checksum w mask min_size max_size p start ≡ length p = rw e refl in
        absurd (omega (arith, here))
    | inr e ↦
        let here : latest checksum w mask min_size max_size p start
            ≡ min (start + max_size) (length p) =
          rw e refl in
        omega (arith, here)
  ]

  -- A chunk that does not end the stream is long enough.
  next_cut-min :
      (p : List ℕ) (start : ℕ)
      → min_size ≤ max_size
      → (N p start).end < length p
      → start + min_size ≤ (N p start).end
  next_cut-min p start le h =
      let lo : ℕ = start + (min_size - 1) in
      let last : ℕ = latest checksum w mask min_size max_size p start in
      elim (search_positions (test checksum w mask min_size max_size p) last lo last
        (omega arith)) [
          | inl f ↦
              let cut : (N p start).end ≡ f.at + 1 =
                ap (λ (k : Cut). k.end)
                  (next_cut-first checksum w mask min_size max_size p start f.at f.passes f.lo_le
                    f.none_before f.below) in
              omega (arith, cut, f.lo_le)
          | inr n ↦
              let cut : (N p start).end ≡ last =
                ap (λ (k : Cut). k.end)
                  (next_cut-none checksum w mask min_size max_size p start n.all_fail) in
              let forced : last ≡ start + max_size =
                latest_forced p start (omega (arith, cut, h)) in
              omega (arith, cut, forced)
        ]

  abbrev Sized : List Chunk → Type 0
  Sized = IsSized min_size max_size

  -- A bounded chunk before chunks that are sized, long enough unless it is the last.
  Sized-cons :
      (k : Chunk) (ks : List Chunk)
      → IsBounded max_size (length k.bytes)
      → (ks ≡ []) ⊎ (min_size ≤ length k.bytes)
      → Sized ks
      → Sized (k ∷ ks)
  Sized-cons k [] bounded long sized = bounded
  Sized-cons k (l ∷ ks) bounded (inl last) sized = absurd (cc last)
  Sized-cons k (l ∷ ks) bounded (inr long) sized = (bounded, long, sized)

  chunks_from-IsSized :
      (left : ℕ) (p : List ℕ) (start : ℕ) → min_size ≤ max_size → Sized (R left p start)
  unfolding chunks_from
  chunks_from-IsSized zero p start le = tt
  chunks_from-IsSized (suc left) p start le = elim (Bool-cases (leb (length p) start)) [
    | inl e ↦ subst Sized (sym (chunks_from-end (suc left) p start (ground arith))) tt
    | inr e ↦
        let inside : start < length p = ground arith in
        let (further, within) =
          next_cut-bounds checksum w mask min_size max_size p start room inside in
        let end : ℕ = (N p start).end in
        let last = latest_le checksum w mask min_size max_size p start in
        let len : length (slice start (end - start) p) ≡ end - start =
          length-slice p start (end - start) (omega (arith, within, last)) in
        subst Sized (sym (chunks_from-suc checksum w mask min_size max_size left p start inside)) (
          Sized-cons (chunk_at checksum w mask min_size max_size p start (N p start)) (R left p end)
            (subst (IsBounded max_size) (sym len) (latest-IsBounded p start end within))
            (elim (Bool-cases (ltb end (length p))) [
              | inl k ↦
                  inr
                    (let long = next_cut-min p start le (ground arith) in omega (arith, len, long))
              | inr k ↦ inl (chunks_from-end left p end (ground arith))
            ])
            (chunks_from-IsSized left p end le))
  ]

  -- The lengths of the chunks of a stream.
  pub reference_chunks-IsSized :
      (p : List ℕ)
      → min_size ≤ max_size
      → Sized (reference_chunks checksum w mask min_size max_size p)
  unfolding reference_chunks
  reference_chunks-IsSized p le = chunks_from-IsSized (length p) p 0 le
