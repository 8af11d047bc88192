-- ===== src/Chunker/Serve.antt =====
-- chunker.go: what `next` does to the core of a stream, and the loop of a caller.
use rollinghash.Prelude.{
  ℕ, zero, suc, ◌+◌, ◌^◌, ◌≤◌, ◌<◌, if◌then◌else◌, inl, inr, ◌≡◌, refl, sym, ap, ap₂, ◌∙◌, arith,
  Bool, true, false, ◌||◌, List, [], ◌∷◌, ◌++◌, append_assoc, append-nil, Option, none, some, ◌>>=◌,
  length, subst,
}
use rollinghash.Kernel.{max_window}
use rollinghash.Hasher.{Hasher, IsHasher}
use rollinghash.TwoLane.{Hit}
use rollinghash.BatchRoller.{CoreState, emitted, core_done, is_error}
use rollinghash.Chunker.{Core, cleared, next, hash_loop, scan}
use rollinghash.Chunker.Contract.{IsBoundaryRoller}
use rollinghash.Chunker.Output.{current, drain}
use rollinghash.Chunker.Reference.{Chunk}
use rollinghash.Chunker.Wrap.{HasRoom}
use rollinghash.Chunker.Walk.{reference, Walks, Finished}
use rollinghash.Chunker.Forward.{hash_loop-Looped}
use rollinghash.Chunker.Choose.{Outcome}
use rollinghash.Chunker.Next.{scan-Outcome}

next-hash_loop :
    {H : Hasher} {Error : Type 0}
    → (hits : H.State → List ℕ → List ℕ → List ℕ → ℕ → ℕ → Option Hit) → (c : Core H Error)
    → c.err ≡ none
    → c.done ≡ false
    → next hits c ≡ (hash_loop hits (suc c.consumed) c >>= scan)
unfolding next
next-hash_loop hits c e d =
    let test : (is_error c.err || c.done) ≡ false = ap₂ (λ o b. is_error o || b) e d in
    ap
      (λ b. if b then some (core_done, cleared c) else (hash_loop hits (suc c.consumed) c >>= scan))
      test

-- A core with an error is at its end.
pub next-error :
    {H : Hasher} {Error : Type 0}
    → (hits : H.State → List ℕ → List ℕ → List ℕ → ℕ → ℕ → Option Hit)
    → (c : Core H Error) (err : Error) → c.err ≡ some err
    → next hits c ≡ some (core_done, cleared c)
unfolding next
next-error hits c err e =
    let test : (is_error c.err || c.done) ≡ true = ap (λ o. is_error o || c.done) e in
    ap
      (λ b. if b then some (core_done, cleared c) else (hash_loop hits (suc c.consumed) c >>= scan))
      test

module _ {H : Hasher} {Error : Type 0}
    (hits : H.State → List ℕ → List ℕ → List ℕ → ℕ → ℕ → Option Hit) (checksum : List ℕ → ℕ)
    (s : IsHasher H checksum) (contract : IsBoundaryRoller H checksum s hits)
    (w mask min_size max_size size : ℕ) (pos : 0 < w) (small : w < max_window) (fits : w ≤ size)
    (short : size ≤ 2 ^ 31) (positive : 0 < min_size) (room : 0 < max_size) where
  abbrev V : Core H Error → List ℕ → List Chunk → Type 0
  V c fed out = Walks checksum s w mask min_size max_size size positive c fed out

  abbrev pub Done : Core H Error → List ℕ → List Chunk → Type 0
  Done c fed out = Finished checksum s w mask min_size max_size size positive c fed out

  abbrev pub Next : Option (CoreState × Core H Error) → Bool → ℕ → List ℕ → List Chunk → Type 0
  Next = Outcome checksum w mask min_size max_size s size pos small positive room

  -- For a hash whose BatchBoundaries keeps its contract, a window of 1 to 2^32 - 1 bytes, a batch
  -- size from the window to 2^31 bytes, a least and a greatest chunk size of at least 1, and a core
  -- that a stream leads to, whose length leaves room in an int for a chunk of the least size and,
  -- unless that is math.MaxInt, for one of the greatest (the length plus the size is at most
  -- math.MaxInt), next does not panic and does one of four things: it hands out the next chunk of
  -- the reference and leaves a state of the stream with one chunk more and a later start; after the
  -- end of the stream, it hands out the last chunk, or it reports that there is none; or, before
  -- the end of the stream, it asks for more bytes and leaves the chunks and the start as they were;
  -- as in the code, a chunk that ends where the stream has fewer bytes than a window has sum 0 in
  -- the reference, also when more chunks follow, and a chunk shorter than the least size, which
  -- only the greatest size or the end of the stream cuts, is not marked content-defined, also when
  -- its window satisfies the mask.
  pub next-Outcome :
      (c : Core H Error) (fed : List ℕ) (out : List Chunk)
      → V c fed out
      → HasRoom min_size max_size (length fed)
      → Next (next hits c) c.eof c.chunk_start fed out
  next-Outcome c fed out h has_room =
      let l =
        hash_loop-Looped hits checksum s contract w mask min_size max_size size pos small fits short
          positive (suc c.consumed) c fed out h has_room (omega (arith, h.consumed)) in
      let same : next hits c ≡ scan l.after =
        next-hash_loop hits c h.settings.5 h.settings.6 ∙ ap (λ r. r >>= scan) l.returns in
      let o =
        scan-Outcome checksum w mask min_size max_size s size pos small positive room l.after fed
          out l.walks l.reason has_room in
      subst (λ r. Next r c.eof c.chunk_start fed out) (sym same)
        (subst (λ b. Next (scan l.after) b c.chunk_start fed out) l.keeps.same_eof
          (subst (λ n. Next (scan l.after) l.after.eof n fed out) l.keeps.start o))

  -- At the end `next` keeps returning `coreDone`.
  pub next-Finished :
      (c : Core H Error) (fed : List ℕ) (out : List Chunk)
      → Done c fed out
      → (next hits c ≡ some (core_done, cleared c)) × Done (cleared c) fed out
  unfolding next cleared
  next-Finished c fed out h =
      let no_error : c.err ≡ none = h.no_error in
      let is_done : c.done ≡ true = h.is_done in
      (
        rw (no_error, is_done) refl,
        record {
          no_error = h.no_error;
          is_done = h.is_done;
          is_eof = h.is_eof;
          all_chunks = h.all_chunks;
        },
      )

  -- The loop hands out the chunks that were still to come.
  pub record Drains (fuel : ℕ) (c : Core H Error) (fed : List ℕ) (out : List Chunk) : Type 0 where
    pub chunks : List Chunk
    pub after : Core H Error
    pub returns : drain hits fuel c ≡ some (chunks, after)
    pub all_chunks : out ++ chunks ≡ reference checksum w mask min_size max_size fed
    pub finished : Done after fed (out ++ chunks)

  drained_chunk :
      (fuel : ℕ) (c d : Core H Error) (fed : List ℕ) (out : List Chunk)
      → next hits c ≡ some (emitted, d)
      → Drains fuel d fed (out ++ (current d ∷ []))
      → Drains (suc fuel) c fed out
  unfolding drain
  drained_chunk fuel c d fed out e r = record {
    chunks = current d ∷ r.chunks;
    after = r.after;
    returns = rw (e, r.returns) refl;
    all_chunks = sym (append_assoc out (current d ∷ []) r.chunks) ∙ r.all_chunks;
    finished = subst (Done r.after fed) (append_assoc out (current d ∷ []) r.chunks) r.finished;
  }

  drained_at_end :
      (fuel : ℕ) (c d : Core H Error) (fed : List ℕ) (out : List Chunk)
      → next hits c ≡ some (core_done, d)
      → Done d fed out
      → Drains (suc fuel) c fed out
  unfolding drain
  drained_at_end fuel c d fed out e h = record {
    chunks = [];
    after = d;
    returns = rw e refl;
    all_chunks = append-nil out ∙ h.all_chunks;
    finished = subst (Done d fed) (sym (append-nil out)) h;
  }

  pub drain-Finished :
      (fuel : ℕ) (c : Core H Error) (fed : List ℕ) (out : List Chunk)
      → Done c fed out
      → 0 < fuel
      → Drains fuel c fed out
  drain-Finished zero c fed out h enough = absurd (omega arith)
  drain-Finished (suc fuel) c fed out h enough =
      let (returns, still) = next-Finished c fed out h in
      drained_at_end fuel c (cleared c) fed out returns still

  pub drain-Walks :
      (fuel : ℕ) (c : Core H Error) (fed : List ℕ) (out : List Chunk)
      → V c fed out
      → HasRoom min_size max_size (length fed)
      → c.eof ≡ true
      → length fed + 1 < fuel + c.chunk_start
      → Drains fuel c fed out
  drain-Walks zero c fed out h has_room closed enough =
      let within = h.start_le in absurd (omega (arith, within))
  drain-Walks (suc fuel) c fed out h has_room closed enough =
      let o = next-Outcome c fed out h has_room in
      elim o.outcome [
        | inl (e, further, walks, same_eof) ↦
            drained_chunk fuel c o.after fed out (o.returns ∙ ap (λ t. some (t, o.after)) e) (
              drain-Walks fuel o.after fed (out ++ (current o.after ∷ [])) walks has_room
                (same_eof ∙ closed) (omega (arith, further)))
        | inr (inl (e, finished, _)) ↦
            drained_chunk fuel c o.after fed out (o.returns ∙ ap (λ t. some (t, o.after)) e) (
              drain-Finished fuel o.after fed (out ++ (current o.after ∷ [])) finished
                (omega (arith, h.start_le)))
        | inr (inr (inl (_, _, _, opened, _))) ↦ absurd (cc (opened, closed))
        | inr (inr (inr (e, finished, _))) ↦
            drained_at_end fuel c o.after fed out (o.returns ∙ ap (λ t. some (t, o.after)) e)
              finished
      ]
