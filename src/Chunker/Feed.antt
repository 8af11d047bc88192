-- ===== src/Chunker/Feed.antt =====
-- chunker.go: `feed`, `finish` and `reset`.
use rollinghash.Prelude.{
  ℕ, ◌+◌, ◌-◌, min, ◌≤◌, ◌<◌, ltb, inl, inr, ◌≡◌, refl, sym, ap, ◌∙◌, arith, false, Bool-cases,
  List, [], ◌++◌, append_assoc, Option, some, length, drop, drop-drop, drop-append_left,
  length-append, length-drop, IsBytes, All-append, subst,
}
use rollinghash.Hasher.{Hasher, IsHasher}
use rollinghash.Chunker.{
  Core, skip_pre_min, drop_bytes, drop_bounds, compact, feed, commit, close, reset,
}
use rollinghash.Chunker.Bounds.{Found-start, Found-more}
use rollinghash.Chunker.Reference.{Chunk, reference_chunks, chunks_from}
use rollinghash.Chunker.Walk.{
  test, test_arrived, reference, rest_of, Walks, base_le, skip_pre_min-Walks,
}

module _ {H : Hasher} {Error : Type 0} (checksum : List ℕ → ℕ) (s : IsHasher H checksum)
    (w mask min_size max_size size : ℕ) (positive : 0 < min_size) where
  abbrev W : Core H Error → List ℕ → List Chunk → Type 0
  W c fed out = Walks checksum s w mask min_size max_size size positive c fed out

  -- A call that leaves a state of the same stream, as open as before.
  pub record Leaves (r : Option (Core H Error)) (c : Core H Error) (fed : List ℕ) (out : List Chunk)
      : Type 0 where
    pub after : Core H Error
    pub returns : r ≡ some after
    pub walks : Walks checksum s w mask min_size max_size size positive after fed out
    pub same_eof : after.eof ≡ c.eof
    pub same_start : after.chunk_start ≡ c.chunk_start

  -- Dropping bytes that neither the chunk nor the next window needs.
  drop_bytes-Walks :
      (c : Core H Error) (fed : List ℕ) (out : List Chunk) (keep : ℕ)
      → W c fed out
      → (0 < keep → (keep + (w - 1) ≤ c.chunk_start) × (keep + (w - 1) ≤ c.hashed_to))
      → Leaves (drop_bytes keep c) c fed out
  unfolding drop_bytes
  drop_bytes-Walks c fed out keep h spare = elim (Bool-cases (ltb c.cbuf_base keep)) [
    | inr e ↦ record {
      after = c;
      returns = rw e refl;
      walks = h;
      same_eof = refl;
      same_start = refl;
    }
    | inl e ↦
        let lt : c.cbuf_base < keep = ground arith in
        let len : length c.cbuf ≡ length fed - c.cbuf_base =
          ap length h.buf ∙ length-drop c.cbuf_base fed in
        let fits : keep ≤ length fed = omega (arith, (spare (omega arith)).0, h.start_le) in
        let enough : ltb (length c.cbuf) (keep - c.cbuf_base) ≡ false = ground arith in
        let to : c.cbuf_base + (keep - c.cbuf_base) ≡ keep = omega arith in
        record {
          after = record c { cbuf = drop (keep - c.cbuf_base) c.cbuf; cbuf_base = keep };
          returns = rw (e, enough) refl;
          walks = record {
            settings = h.settings;
            holds = h.holds;
            in_range = h.in_range;
            buf =
                ap (drop (keep - c.cbuf_base)) h.buf
                ∙ drop-drop (keep - c.cbuf_base) c.cbuf_base fed
                ∙ ap (λ n. drop n fed) to;
            consumed = h.consumed;
            start_le = h.start_le;
            lead_in = spare;
            bcur_le = h.bcur_le;
            used = h.used;
            found = h.found;
            so_far = h.so_far;
          };
          same_eof = refl;
          same_start = refl;
        }
  ]

  -- Dropping the bounds that are used.
  drop_bounds-Walks :
      (c : Core H Error) (fed : List ℕ) (out : List Chunk)
      → W c fed out
      → W (drop_bounds c) fed out
        × ((drop_bounds c).eof ≡ c.eof)
        × ((drop_bounds c).chunk_start ≡ c.chunk_start)
  unfolding drop_bounds
  drop_bounds-Walks c fed out h = elim (Bool-cases (ltb 0 c.bcur)) [
    | inr e ↦ rw e (h, refl, refl)
    | inl e ↦ rw e (
      record {
        settings = h.settings;
        holds = h.holds;
        in_range = h.in_range;
        buf = h.buf;
        consumed = h.consumed;
        start_le = h.start_le;
        lead_in = h.lead_in;
        bcur_le = omega arith;
        used = tt;
        found = h.found;
        so_far = h.so_far;
      },
      refl,
      refl,
    )
  ]

  pub compact-Walks :
      (c : Core H Error) (fed : List ℕ) (out : List Chunk)
      → W c fed out
      → Leaves (compact c) c fed out
  unfolding compact
  compact-Walks c fed out h =
      let (skipped, keeps) =
        skip_pre_min-Walks checksum s w mask min_size max_size size positive c fed out h in
      let d : Core H Error = skip_pre_min c in
      let same : d.window ≡ w = skipped.settings.0 in
      let dropped =
        drop_bytes-Walks d fed out (min d.chunk_start d.hashed_to - (d.window - 1)) skipped
          (λ p. (omega (arith, same), omega (arith, same))) in
      let (walks, eof, start) = drop_bounds-Walks dropped.after fed out dropped.walks in
      record {
        after = drop_bounds dropped.after;
        returns = rw dropped.returns refl;
        walks = walks;
        same_eof = eof ∙ dropped.same_eof ∙ keeps.same_eof;
        same_start = start ∙ dropped.same_start ∙ keeps.start;
      }

  pub commit-Walks :
      (c : Core H Error) (fed : List ℕ) (out : List Chunk) (p : List ℕ)
      → W c fed out
      → IsBytes p
      → Walks checksum s w mask min_size max_size size positive (commit c p) (fed ++ p) out
  unfolding commit
  commit-Walks c fed out p h bytes = record {
    settings = h.settings;
    holds = h.holds;
    in_range = All-append (λ x. x < 256) fed p h.in_range bytes;
    buf =
        ap (λ t. t ++ p) h.buf
        ∙ sym (
            drop-append_left c.cbuf_base fed p
              (base_le checksum s w mask min_size max_size size positive c fed out h));
    consumed = omega (arith, h.consumed, length-append fed p);
    start_le = omega (arith, h.start_le, length-append fed p);
    lead_in = h.lead_in;
    bcur_le = h.bcur_le;
    used = h.used;
    found =
        Found-more min_size positive (test checksum w mask min_size max_size fed)
          (test checksum w mask min_size max_size (fed ++ p)) (length fed) (length (fed ++ p))
          c.chunk_start c.hashed_to (drop c.bcur c.bounds) h.found
          (omega (arith, length-append fed p))
          (test_arrived checksum w mask min_size max_size fed p);
    so_far = λ q.
        subst
          (λ t.
            reference checksum w mask min_size max_size t
            ≡ out ++ rest_of checksum w mask min_size max_size t c.chunk_start)
          (sym (append_assoc fed p q)) (h.so_far (p ++ q));
  }

  -- With a least chunk size of at least 1, a feed of bytes to a core that a stream leads to does
  -- not panic and leaves a state of the stream with those bytes appended, the same chunks handed
  -- out and the same end: compacting drops no byte of the chunk or of the window before the next
  -- one to be tested, and no bound that a chunk may use.
  pub feed-Walks :
      (c : Core H Error) (fed : List ℕ) (out : List Chunk) (p : List ℕ)
      → W c fed out
      → IsBytes p
      → (d : Core H Error) × (feed c p ≡ some d)
        × (Walks checksum s w mask min_size max_size size positive d (fed ++ p) out)
        × (d.eof ≡ c.eof)
  unfolding feed commit
  feed-Walks c fed out p h bytes =
      let k = compact-Walks c fed out h in
      let d : Core H Error = k.after in
      (commit d p, rw k.returns refl, commit-Walks d fed out p k.walks bytes, k.same_eof)

  -- `finish`
  pub close-Walks :
      (c : Core H Error) (fed : List ℕ) (out : List Chunk) → W c fed out → W (close c) fed out
  unfolding close
  close-Walks c fed out h = record {
    settings = h.settings;
    holds = h.holds;
    in_range = h.in_range;
    buf = h.buf;
    consumed = h.consumed;
    start_le = h.start_le;
    lead_in = h.lead_in;
    bcur_le = h.bcur_le;
    used = h.used;
    found = h.found;
    so_far = h.so_far;
  }

  -- A core without a byte, of whatever settings and hash.
  pub reset-Walks :
      (c : Core H Error)
      → (held : List ℕ) × s.Holds c.hash held
      → c.window ≡ w
      → c.mask ≡ mask
      → c.min_size ≡ min_size
      → c.max_size ≡ max_size
      → c.batch_size ≡ size
      → W (reset c) [] []
  unfolding reset reference_chunks
  reset-Walks c holds ew em emin emax es = record {
    settings = (ew, em, emin, emax, es, refl, refl);
    holds = holds;
    in_range = tt;
    buf = refl;
    consumed = refl;
    start_le = omega arith;
    lead_in = λ p. absurd (omega arith);
    bcur_le = omega arith;
    used = tt;
    found = Found-start min_size positive (test checksum w mask min_size max_size []) 0;
    so_far = λ q.
        let all : length q - 0 ≡ length q = omega arith in
        ap (λ n. chunks_from checksum w mask min_size max_size n q 0) (sym all);
  }
