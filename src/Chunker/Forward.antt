-- ===== src/Chunker/Forward.antt =====
-- chunker.go: `hashForward` and the hashing loop of `next`, on the states of a stream.
use rollinghash.Prelude.{
  ℕ, zero, suc, ◌-◌, ◌^◌, ◌≤◌, ◌<◌, ◌⊎◌, inl, inr, ◌≡◌, refl, sym, ap, ◌∙◌, ltb, ◌+◌, arith, true,
  false, Bool-cases, List, Option, some, length,
}
use rollinghash.Kernel.{max_window}
use rollinghash.Hasher.{Hasher, IsHasher}
use rollinghash.TwoLane.{Hit}
use rollinghash.Chunker.{Core, skip_pre_min, hash_forward, hash_loop, below, limit, has_candidate}
use rollinghash.Chunker.Contract.{IsBoundaryRoller}
use rollinghash.Chunker.Reference.{Chunk}
use rollinghash.Chunker.Walk.{Walks, Keeps, Keeps-refl, Keeps-trans, skip_pre_min-Walks}
use rollinghash.Chunker.Wrap.{HasRoom, HasRoom-Reaches, limit-cases}
use rollinghash.Chunker.Block.{IsHashed, Hashes, hash_from-Hashes}

module _ {H : Hasher} {Error : Type 0}
    (hits : H.State → List ℕ → List ℕ → List ℕ → ℕ → ℕ → Option Hit) (checksum : List ℕ → ℕ)
    (s : IsHasher H checksum) (contract : IsBoundaryRoller H checksum s hits)
    (w mask min_size max_size size : ℕ) (pos : 0 < w) (small : w < max_window) (fits : w ≤ size)
    (short : size ≤ 2 ^ 31) (positive : 0 < min_size) where
  abbrev W : Core H Error → List ℕ → List Chunk → Type 0
  W c fed out = Walks checksum s w mask min_size max_size size positive c fed out

  abbrev K : Core H Error → Core H Error → Type 0
  K c d = Keeps checksum s w mask min_size max_size size positive c d

  -- `hashForward`
  hash_forward-Hashes :
      (c : Core H Error) (fed : List ℕ) (out : List Chunk)
      → W c fed out
      → Hashes hits checksum s contract w mask min_size max_size size pos small fits short positive
          (hash_forward hits c)
          c
          fed
          out
  unfolding hash_forward
  hash_forward-Hashes c fed out h =
      let (skipped, keeps) =
        skip_pre_min-Walks checksum s w mask min_size max_size size positive c fed out h in
      let r =
        hash_from-Hashes hits checksum s contract w mask min_size max_size size pos small fits short
          positive (skip_pre_min c) fed out skipped in
      record {
        progress = r.progress;
        after = r.after;
        returns = r.returns;
        walks = r.walks;
        keeps =
            Keeps-trans checksum s w mask min_size max_size size positive c (skip_pre_min c) r.after
              keeps r.keeps;
        outcome = elim r.outcome [
          | inl (more, further, within) ↦ inl (more, omega (arith, further, keeps.forward), within)
          | inr o ↦ inr o
        ];
      }

  -- The hashing loop stops at the longest chunk, at a candidate, or with nothing left to test.
  pub record Looped (r : Option (Core H Error)) (c : Core H Error) (fed : List ℕ) (out : List Chunk)
      : Type 0 where
    pub after : Core H Error
    pub returns : r ≡ some after
    pub walks : W after fed out
    pub keeps : K c after
    pub reason :
        (after.chunk_start + max_size ≤ after.hashed_to)
        ⊎ (has_candidate after ≡ true)
        ⊎ IsHashed hits checksum s contract w mask min_size max_size size pos small fits short
            positive after fed

  looped :
      (c : Core H Error) (fed : List ℕ) (out : List Chunk) (r : Option (Core H Error))
      → r ≡ some c
      → W c fed out
      → (c.chunk_start + max_size ≤ c.hashed_to)
        ⊎ (has_candidate c ≡ true)
        ⊎ IsHashed hits checksum s contract w mask min_size max_size size pos small fits short
            positive c fed
      → Looped r c fed out
  looped c fed out r e h reason = record {
    after = c;
    returns = e;
    walks = h;
    keeps = Keeps-refl checksum s w mask min_size max_size size positive c;
    reason = reason;
  }

  -- Where the loop is not to hash on, the longest chunk is hashed.
  far :
      (c : Core H Error) (fed : List ℕ) (out : List Chunk)
      → W c fed out
      → HasRoom min_size max_size (length fed)
      → below c.hashed_to (limit c) ≡ false
      → c.chunk_start + max_size ≤ c.hashed_to
  far c fed out h has_room b =
      elim (limit-cases c
        (HasRoom-Reaches min_size max_size (length fed) c has_room h.start_le h.settings.3)) [
          | inl (_, none_) ↦ absurd (cc (ap (below c.hashed_to) (sym none_) ∙ b))
          | inr (_, some_) ↦
              let k : ltb c.hashed_to (c.chunk_start + c.max_size) ≡ false =
                ap (below c.hashed_to) (sym some_) ∙ b in
              ground (arith, h.settings.3)
        ]

  -- For a hash whose BatchBoundaries keeps its contract, a window of 1 to 2^32 - 1 bytes, a batch
  -- size from the window to 2^31 bytes, a least and a greatest chunk size of at least 1, and a core
  -- that a stream leads to, whose length leaves room in an int for a chunk of the least size and,
  -- unless that is math.MaxInt, for one of the greatest (the length plus the size is at most
  -- math.MaxInt), the hashing loop of next ends without a panic within one round more than there
  -- are bytes that it has not hashed, leaves a state of the same stream with the same start, and
  -- stops because every window up to the longest chunk is tested, or the last bound is late enough
  -- for the chunk, or every window of the bytes fed is tested.
  pub hash_loop-Looped :
      (fuel : ℕ) (c : Core H Error) (fed : List ℕ) (out : List Chunk)
      → W c fed out
      → HasRoom min_size max_size (length fed)
      → length fed - c.hashed_to < fuel
      → Looped (hash_loop hits fuel c) c fed out
  unfolding hash_loop
  hash_loop-Looped zero c fed out h has_room enough = absurd (omega arith)
  hash_loop-Looped (suc fuel) c fed out h has_room enough =
      elim (Bool-cases (below c.hashed_to (limit c))) [
        | inr b ↦
            looped c fed out (hash_loop hits (suc fuel) c) (rw (hash_loop, b) refl) h
              (inl (far c fed out h has_room b))
        | inl b ↦ elim (Bool-cases (has_candidate c)) [
          | inl k ↦
              looped c fed out (hash_loop hits (suc fuel) c) (rw (hash_loop, b, k) refl) h
                (inr (inl k))
          | inr k ↦
              let step = hash_forward-Hashes c fed out h in
              elim step.outcome [
                | inr (stuck, hashed) ↦ record {
                  after = step.after;
                  returns = rw (hash_loop, b, k, step.returns, stuck) refl;
                  walks = step.walks;
                  keeps = step.keeps;
                  reason = inr (inr hashed);
                }
                | inl (more, further, within) ↦
                    let rest =
                      hash_loop-Looped fuel step.after fed out step.walks has_room (omega arith) in
                    record {
                      after = rest.after;
                      returns = rw (hash_loop, b, k, step.returns, more) rest.returns;
                      walks = rest.walks;
                      keeps =
                          Keeps-trans checksum s w mask min_size max_size size positive c step.after
                            rest.after step.keeps rest.keeps;
                      reason = rest.reason;
                    }
              ]
        ]
      ]
