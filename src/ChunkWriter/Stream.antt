-- ===== src/ChunkWriter/Stream.antt =====
-- chunkwriter.go: a whole stream, with any calls of `Write` and `Next`.
use rollinghash.Prelude.{
  ℕ, ◌+◌, ◌^◌, max, ◌≤◌, ◌<◌, inl, inr, ◌≡◌, refl, sym, ap, ◌∙◌, arith, if◌then◌else◌, true, List,
  [], ◌∷◌, ◌++◌, append-nil, append_assoc, Option, some, length, length-append, IsBytes, All-front,
  All-back, subst,
}
use rollinghash.Kernel.{max_window}
use rollinghash.Hasher.{Hasher, IsHasher}
use rollinghash.TwoLane.{Hit}
use rollinghash.BatchRoller.{CoreState, need_more, emitted}
use rollinghash.BatchWriter.{err_closed, Call, write_call, next_call, written}
use rollinghash.Chunker.{Core, max_int, new_core, with_boundaries, with_batch_size, reset, next}
use rollinghash.Chunker.Contract.{IsBoundaryRoller}
use rollinghash.Chunker.Output.{shown}
use rollinghash.Chunker.Reference.{Chunk, reference_chunks}
use rollinghash.Chunker.Wrap.{HasRoom, HasRoom-le}
use rollinghash.Chunker.Serve.{next-Outcome, drain-Walks}
use rollinghash.ChunkWriter.{
  Writer, ChunkerOption, boundaries_option, batch_size_option, with_options, new_writer, accept,
  write, reset_writer, run, run_to_end,
}
use rollinghash.ChunkWriter.Pending.{Open, reset_writer-Open, write-Open_chunks, close_writer-Walks}

write-eof :
    {H : Hasher} {Error : Type 0}
    → (wr : Writer H Error) (p : List ℕ) → wr.core.eof ≡ true
    → write wr p ≡ some (wr, 0, some err_closed)
unfolding write
write-eof wr p e =
    ap (λ b. if b then some (wr, 0, some err_closed) else accept (max wr.core.batch_size 1) wr p) e

-- The options change the settings only.
module _ {H : Hasher} {Error : Type 0} where
  pub with_options-reset :
      (opts : List ChunkerOption) (c : Core H Error)
      → with_options opts (reset c) ≡ reset (with_options opts c)
  unfolding with_options with_boundaries with_batch_size reset
  with_options-reset [] c = refl
  with_options-reset (boundaries_option a b ∷ opts) c =
      with_options-reset opts (with_boundaries a b c)
  with_options-reset (batch_size_option n ∷ opts) c = with_options-reset opts (with_batch_size n c)

  pub with_options-keeps :
      (opts : List ChunkerOption) (c : Core H Error)
      → ((with_options opts c).window ≡ c.window)
        × ((with_options opts c).mask ≡ c.mask)
        × ((with_options opts c).hash ≡ c.hash)
  unfolding with_options with_boundaries with_batch_size
  with_options-keeps [] c = (refl, refl, refl)
  with_options-keeps (boundaries_option a b ∷ opts) c =
      with_options-keeps opts (with_boundaries a b c)
  with_options-keeps (batch_size_option n ∷ opts) c = with_options-keeps opts (with_batch_size n c)

  new_writer-reset :
      (hash : H.State) (window mask : ℕ) (opts : List ChunkerOption)
      → new_writer {H = H} {Error = Error} hash window mask opts
        ≡ reset_writer (new_writer hash window mask opts)
  unfolding new_writer reset_writer new_core reset
  new_writer-reset hash window mask opts =
      ap (λ (c : Core H Error). record { core = c; pending = [] })
        (with_options-reset opts (new_core hash window mask 0 max_int))

module _ {H : Hasher} {Error : Type 0}
    (hits : H.State → List ℕ → List ℕ → List ℕ → ℕ → ℕ → Option Hit) (checksum : List ℕ → ℕ)
    (s : IsHasher H checksum) (contract : IsBoundaryRoller H checksum s hits)
    (w mask min_size max_size size : ℕ) (pos : 0 < w) (small : w < max_window) (fits : w ≤ size)
    (short : size ≤ 2 ^ 31) (positive : 0 < min_size) (room : 0 < max_size) where
  abbrev OpenAt : Writer H Error → List ℕ → List Chunk → Type 0
  OpenAt = Open checksum s w mask min_size max_size size positive

  -- The calls of a caller on an open writer that was given `given` and has handed out `out`.
  record Runs (wr : Writer H Error) (calls : List Call) (given : List ℕ) (out : List Chunk)
      : Type 0 where
    chunks : List Chunk
    after : Writer H Error
    returns : run hits wr calls ≡ some (chunks, after)
    is_open : OpenAt after (given ++ written calls) (out ++ chunks)

  -- A call of `Next` on an open writer.
  record Steps (wr : Writer H Error) (given : List ℕ) (out : List Chunk) : Type 0 where
    state : CoreState
    after : Core H Error
    returns : next hits wr.core ≡ some (state, after)
    is_open : OpenAt (record wr { core = after }) given (out ++ shown state after)

  next-Open :
      (wr : Writer H Error) (given : List ℕ) (out : List Chunk)
      → OpenAt wr given out
      → HasRoom min_size max_size (length given)
      → Steps wr given out
  next-Open wr given out h has_room =
      let fed_le : length h.fed ≤ length given =
        omega (arith, ap length h.no_byte_lost, length-append h.fed wr.pending) in
      let o =
        next-Outcome hits checksum s contract w mask min_size max_size size pos small fits short
          positive room wr.core h.fed out h.walks
          (HasRoom-le min_size max_size (length h.fed) (length given) fed_le has_room) in
      elim o.outcome [
        | inl (e, _, walks, same_eof) ↦ record {
          state = emitted;
          after = o.after;
          returns = o.returns ∙ ap (λ t. some (t, o.after)) e;
          is_open = record {
            fed = h.fed;
            walks = walks;
            is_open = same_eof ∙ h.is_open;
            no_byte_lost = h.no_byte_lost;
            bytes = h.bytes;
            short = h.short;
          };
        }
        | inr (inl (_, _, closed)) ↦ absurd (cc (closed, h.is_open))
        | inr (inr (inl (e, walks, opened, _, _))) ↦ record {
          state = need_more;
          after = o.after;
          returns = o.returns ∙ ap (λ t. some (t, o.after)) e;
          is_open =
              subst (OpenAt (record wr { core = o.after }) given) (sym (append-nil out)) record {
                fed = h.fed;
                walks = walks;
                is_open = opened;
                no_byte_lost = h.no_byte_lost;
                bytes = h.bytes;
                short = h.short;
              };
        }
        | inr (inr (inr (_, _, closed))) ↦ absurd (cc (closed, h.is_open))
      ]

  run-Open :
      (wr : Writer H Error) (calls : List Call) (given : List ℕ) (out : List Chunk)
      → OpenAt wr given out
      → IsBytes (written calls)
      → HasRoom min_size max_size (length given + length (written calls))
      → Runs wr calls given out
  unfolding run
  run-Open wr [] given out h bytes has_room = record {
    chunks = [];
    after = wr;
    returns = refl;
    is_open = rw (append-nil given, append-nil out) h;
  }
  run-Open wr (write_call p ∷ calls) given out h bytes has_room =
      let (wr', returns, opened) =
        write-Open_chunks checksum s w mask min_size max_size size positive wr given out p h
          (All-front (λ x. x < 256) p (written calls) bytes) (omega (arith, pos, fits)) in
      let rest =
        run-Open wr' calls (given ++ p) out opened (All-back (λ x. x < 256) p (written calls) bytes)
          (HasRoom-le min_size max_size (length (given ++ p) + length (written calls))
            (length given + length (p ++ written calls))
            (omega (arith, length-append given p, length-append p (written calls))) has_room) in
      record {
        chunks = rest.chunks;
        after = rest.after;
        returns = rw (returns, rest.returns) refl;
        is_open = rw (← append_assoc given p (written calls)) rest.is_open;
      }
  run-Open wr (next_call ∷ calls) given out h bytes has_room =
      let step = next-Open wr given out h (
        HasRoom-le min_size max_size (length given) (length given + length (written calls))
          (omega arith) has_room) in
      let now : List Chunk = shown step.state step.after in
      let rest =
        run-Open (record wr { core = step.after }) calls given (out ++ now) step.is_open bytes
          has_room in
      record {
        chunks = now ++ rest.chunks;
        after = rest.after;
        returns = rw (step.returns, rest.returns) refl;
        is_open = rw (← append_assoc out now rest.chunks) rest.is_open;
      }

  stream-Open :
      (wr : Writer H Error) (calls : List Call) (fuel : ℕ)
      → OpenAt wr [] []
      → IsBytes (written calls)
      → HasRoom min_size max_size (length (written calls))
      → length (written calls) + 1 < fuel
      → (wr' : Writer H Error) × (run_to_end hits wr calls fuel
          ≡ some (reference_chunks checksum w mask min_size max_size (written calls), wr'))
        × ((p : List ℕ) → write wr' p ≡ some (wr', 0, some err_closed))
  unfolding run_to_end
  stream-Open wr calls fuel h bytes has_room enough =
      let r = run-Open wr calls [] [] h bytes (
        HasRoom-le min_size max_size (0 + length (written calls)) (length (written calls))
          (omega arith) has_room) in
      let (closed, returns, walks, is_eof) =
        close_writer-Walks checksum s w mask min_size max_size size positive r.after (written calls)
          r.chunks r.is_open in
      let d =
        drain-Walks hits checksum s contract w mask min_size max_size size pos small fits short
          positive room fuel closed.core (written calls) r.chunks walks has_room is_eof
          (omega arith) in
      (
        record closed { core = d.after },
        rw (r.returns, returns, d.returns, d.all_chunks) refl,
        λ p. write-eof (record closed { core = d.after }) p d.finished.is_eof,
      )

  -- For a hash whose BatchBoundaries keeps its contract, a window of 1 to 2^32 - 1 bytes, a batch
  -- size from the window to 2^31 bytes, a least and a greatest chunk size of at least 1, whatever
  -- options have set them, and bytes whose length leaves room in an int for a chunk of the least
  -- size and, unless that is math.MaxInt, for one of the greatest (the length plus the size is at
  -- most math.MaxInt), whatever the calls of Write and Next on a new ChunkWriter, in any order,
  -- none panics, and after Close the loop over Next ends within two rounds more than there are
  -- bytes; the chunks handed out on the way and at the end, with their offsets, sums and flags, are
  -- together those of the reference, which cuts the whole stream at the first window that satisfies
  -- the mask and is not too early for the least size, or else at the greatest size, and a later
  -- Write changes nothing and returns 0 and ErrClosed; as in the code, a chunk that ends where the
  -- stream has fewer bytes than a window has sum 0 in the reference, also when more chunks follow,
  -- and a chunk shorter than the least size, which only the greatest size or the end of the stream
  -- cuts, is not marked content-defined, also when its window satisfies the mask.
  pub run_to_end-reference_chunks :
      (hash : H.State) (held : List ℕ) (opts : List ChunkerOption) (calls : List Call) (fuel : ℕ)
      → s.Holds hash held
      → (new_writer {H = H} {Error = Error} hash w mask opts).core.min_size ≡ min_size
      → (new_writer {H = H} {Error = Error} hash w mask opts).core.max_size ≡ max_size
      → (new_writer {H = H} {Error = Error} hash w mask opts).core.batch_size ≡ size
      → IsBytes (written calls)
      → HasRoom min_size max_size (length (written calls))
      → length (written calls) + 1 < fuel
      → (wr' : Writer H Error) × (run_to_end hits (new_writer hash w mask opts) calls fuel
          ≡ some (reference_chunks checksum w mask min_size max_size (written calls), wr'))
        × ((p : List ℕ) → write wr' p ≡ some (wr', 0, some err_closed))
  unfolding new_writer new_core
  run_to_end-reference_chunks hash held opts calls fuel holds emin emax es bytes has_room enough =
      let start : Core H Error = new_core hash w mask 0 max_int in
      let (ew, em, eh) = with_options-keeps opts start in
      stream-Open (new_writer hash w mask opts) calls fuel
        (subst (λ wr. OpenAt wr [] []) (sym (new_writer-reset hash w mask opts))
          (reset_writer-Open checksum s w mask min_size max_size size positive
            (new_writer hash w mask opts) (held, subst (λ d. s.Holds d held) (sym eh) holds) ew em
            emin emax es (omega (arith, pos, fits))))
        bytes has_room enough

  -- Under the conditions of a new chunk writer, any ChunkWriter with that window, mask, sizes and
  -- hash, also a closed one, behaves after a Reset like a new one: whatever the calls of Write and
  -- Next, none panics, after Close the draining loop ends within two rounds more than there are
  -- bytes, and the chunks are together those of the reference for the bytes written since; as in
  -- the code, a chunk that ends where the stream has fewer bytes than a window has sum 0 in the
  -- reference, also when more chunks follow, and a chunk shorter than the least size, which only
  -- the greatest size or the end of the stream cuts, is not marked content-defined, also when its
  -- window satisfies the mask.
  pub reset_writer-reference_chunks :
      (wr : Writer H Error) (held : List ℕ) (calls : List Call) (fuel : ℕ)
      → s.Holds wr.core.hash held
      → wr.core.window ≡ w
      → wr.core.mask ≡ mask
      → wr.core.min_size ≡ min_size
      → wr.core.max_size ≡ max_size
      → wr.core.batch_size ≡ size
      → IsBytes (written calls)
      → HasRoom min_size max_size (length (written calls))
      → length (written calls) + 1 < fuel
      → (wr' : Writer H Error) × (run_to_end hits (reset_writer wr) calls fuel
          ≡ some (reference_chunks checksum w mask min_size max_size (written calls), wr'))
        × ((p : List ℕ) → write wr' p ≡ some (wr', 0, some err_closed))
  reset_writer-reference_chunks wr held calls fuel holds ew em emin emax es bytes has_room enough =
      stream-Open (reset_writer wr) calls fuel
        (reset_writer-Open checksum s w mask min_size max_size size positive wr (held, holds) ew em
          emin emax es (omega (arith, pos, fits)))
        bytes has_room enough
