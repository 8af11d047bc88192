-- ===== src/ChunkReader/Stream.antt =====
-- chunker.go: `chunker` over a whole stream.
use rollinghash.Prelude.{
  ℕ, zero, suc, ◌+◌, ◌^◌, ◌≤◌, ◌<◌, inl, inr, ◌≡◌, refl, sym, ap, ◌∙◌, arith, true, false, List, [],
  ◌∷◌, ◌++◌, append-nil, append_assoc, Option, none, some, length, IsBytes, subst,
}
use rollinghash.Kernel.{max_window}
use rollinghash.Hasher.{Hasher, IsHasher}
use rollinghash.TwoLane.{Hit}
use rollinghash.BatchReader.{Status}
use rollinghash.BatchReader.Fill.{IsReader}
use rollinghash.Chunker.{Core, max_int, new_core, reset, cleared}
use rollinghash.Chunker.Contract.{IsBoundaryRoller}
use rollinghash.Chunker.Output.{current}
use rollinghash.Chunker.Reference.{Chunk, reference_chunks}
use rollinghash.Chunker.Walk.{Walks}
use rollinghash.Chunker.Feed.{reset-Walks}
use rollinghash.Chunker.Wrap.{HasRoom}
use rollinghash.Chunker.Serve.{next-Finished}
use rollinghash.ChunkWriter.{ChunkerOption, with_options}
use rollinghash.ChunkWriter.Stream.{with_options-reset, with_options-keeps}
use rollinghash.ChunkReader.{Reader, new_reader, reset_reader, next_read, drain_reader}
use rollinghash.ChunkReader.Serve.{Going, Done, fed-le, next_read-Answers}
use rollinghash.ChunkReader.Calls.{next_read-done}

module _ {H : Hasher} {Source Error : Type 0} (read : Source → ℕ → Source × List ℕ × Status Error)
    (remaining : Source → List ℕ) (io : IsReader read remaining)
    (hits : H.State → List ℕ → List ℕ → List ℕ → ℕ → ℕ → Option Hit) (checksum : List ℕ → ℕ)
    (s : IsHasher H checksum) (contract : IsBoundaryRoller H checksum s hits)
    (w mask min_size max_size size : ℕ) (pos : 0 < w) (small : w < max_window) (fits : w ≤ size)
    (short : size ≤ 2 ^ 31) (positive : 0 < min_size) (room : 0 < max_size) (stream : List ℕ)
    (stream_bytes : IsBytes stream) (has_room : HasRoom min_size max_size (length stream)) where
  abbrev Goes : Reader H Source Error → List Chunk → Type 0
  Goes =
      Going read remaining io hits checksum s contract w mask min_size max_size size pos small fits
        short positive room stream stream_bytes has_room

  abbrev Finishes : Core H Error → List Chunk → Type 0
  Finishes c out =
      Done read remaining io hits checksum s contract w mask min_size max_size size pos small fits
        short positive room stream stream_bytes has_room c stream out

  -- The loop over `Next` has returned the chunks that were still to come.
  record Drained (calls rounds : ℕ) (r : Reader H Source Error) (out : List Chunk) : Type 0 where
    chunks : List Chunk
    after : Reader H Source Error
    returns : drain_reader read hits calls rounds (suc size) r ≡ some (chunks, after)
    no_error : after.core.err ≡ none
    all_chunks : out ++ chunks ≡ reference_chunks checksum w mask min_size max_size stream

  no_chunk_more :
      (calls rounds : ℕ) (r d : Reader H Source Error) (out : List Chunk)
      → next_read read hits rounds (suc size) r ≡ some (false, d)
      → d.core.err ≡ none
      → out ≡ reference_chunks checksum w mask min_size max_size stream
      → Drained (suc calls) rounds r out
  unfolding drain_reader
  no_chunk_more calls rounds r d out e ok all = record {
    chunks = [];
    after = d;
    returns = rw e refl;
    no_error = ok;
    all_chunks = append-nil out ∙ all;
  }

  one_chunk_more :
      (calls rounds : ℕ) (r d : Reader H Source Error) (out : List Chunk)
      → next_read read hits rounds (suc size) r ≡ some (true, d)
      → Drained calls rounds d (out ++ (current d.core ∷ []))
      → Drained (suc calls) rounds r out
  unfolding drain_reader
  one_chunk_more calls rounds r d out e k = record {
    chunks = current d.core ∷ k.chunks;
    after = k.after;
    returns = rw (e, k.returns) refl;
    no_error = k.no_error;
    all_chunks = sym (append_assoc out (current d.core ∷ []) k.chunks) ∙ k.all_chunks;
  }

  drain-Finished :
      (calls rounds : ℕ) (r : Reader H Source Error) (out : List Chunk)
      → Finishes r.core out
      → 0 < calls
      → Drained calls (suc rounds) r out
  drain-Finished zero rounds r out h enough = absurd (omega arith)
  drain-Finished (suc calls) rounds r out h enough =
      let (returns, still) =
        next-Finished hits checksum s contract w mask min_size max_size size pos small fits short
          positive room r.core stream out h in
      no_chunk_more calls (suc rounds) r (record r { core = cleared r.core }) out
        (next_read-done read hits rounds (suc size) r (cleared r.core) returns) still.no_error
        still.all_chunks

  drain-Going :
      (calls rounds : ℕ) (r : Reader H Source Error) (out : List Chunk)
      → Goes r out
      → length stream + 1 < calls + r.core.chunk_start
      → length stream + 1 < rounds
      → Drained calls rounds r out
  drain-Going zero rounds r out h enough many =
      let within =
        fed-le read remaining io hits checksum s contract w mask min_size max_size size pos small
          fits short positive room stream stream_bytes has_room r out h in
      let start = h.walks.start_le in absurd (omega arith)
  drain-Going (suc calls) zero r out h enough many = absurd (omega arith)
  drain-Going (suc calls) (suc rounds) r out h enough many =
      let within =
        fed-le read remaining io hits checksum s contract w mask min_size max_size size pos small
          fits short positive room stream stream_bytes has_room r out h in
      let start = h.walks.start_le in
      let a =
        next_read-Answers read remaining io hits checksum s contract w mask min_size max_size size
          pos small fits short positive room stream stream_bytes has_room (suc rounds) r out h
          (omega arith, inr (omega arith)) in
      elim a.outcome [
        | inl (e, going, further) ↦
            one_chunk_more calls (suc rounds) r a.after out
              (a.returns ∙ ap (λ b. some (b, a.after)) e)
              (drain-Going calls (suc rounds) a.after (out ++ (current a.after.core ∷ [])) going
                (omega (arith, further)) many)
        | inr (inl (e, finished)) ↦
            one_chunk_more calls (suc rounds) r a.after out
              (a.returns ∙ ap (λ b. some (b, a.after)) e)
              (drain-Finished calls rounds a.after (out ++ (current a.after.core ∷ [])) finished
                (omega arith))
        | inr (inr (e, ok, all)) ↦
            no_chunk_more calls (suc rounds) r a.after out
              (a.returns ∙ ap (λ b. some (b, a.after)) e) ok all
      ]

  -- For a hash whose BatchBoundaries keeps its contract, a window of 1 to 2^32 - 1 bytes, a batch
  -- size from the window to 2^31 bytes, a least and a greatest chunk size of at least 1, whatever
  -- options have set them, a stream whose length leaves room in an int for a chunk of the least
  -- size and, unless that is math.MaxInt, for one of the greatest (the length plus the size is at
  -- most math.MaxInt), and a reader that keeps the contract of io.Reader and does not fail: the
  -- loop over Next of a new Chunker ends without a panic and without an error, within two calls
  -- more than the stream has bytes, each of at most as many rounds, and its chunks, with their
  -- offsets, sums and flags, are those of the reference for the stream, however the reader cuts it;
  -- as in the code, a chunk that ends where the stream has fewer bytes than a window has sum 0 in
  -- the reference, also when more chunks follow, and a chunk shorter than the least size, which
  -- only the greatest size or the end of the stream cuts, is not marked content-defined, also when
  -- its window satisfies the mask.
  pub drain_reader-reference_chunks :
      (source : Source) (hash : H.State) (held : List ℕ) (opts : List ChunkerOption)
      (calls rounds : ℕ)
      → s.Holds hash held
      → (new_reader {H = H} {Error = Error} source hash w mask opts).core.min_size ≡ min_size
      → (new_reader {H = H} {Error = Error} source hash w mask opts).core.max_size ≡ max_size
      → (new_reader {H = H} {Error = Error} source hash w mask opts).core.batch_size ≡ size
      → remaining source ≡ stream
      → length stream + 1 < calls
      → length stream + 1 < rounds
      → (r : Reader H Source Error) × (drain_reader read hits calls rounds
            (suc size)
            (new_reader source hash w mask opts)
          ≡ some (reference_chunks checksum w mask min_size max_size stream, r))
        × (r.core.err ≡ none)
  unfolding new_reader new_core reset
  drain_reader-reference_chunks source hash held opts calls rounds holds emin emax es rest enough
        many =
      let start : Core H Error = new_core hash w mask 0 max_int in
      let c : Core H Error = with_options opts start in
      let (ew, em, eh) = with_options-keeps opts start in
      let fresh : c ≡ reset c = with_options-reset opts start in
      let walks : Walks checksum s w mask min_size max_size size positive c [] [] =
        subst (λ d. Walks checksum s w mask min_size max_size size positive d [] []) (sym fresh)
          (reset-Walks checksum s w mask min_size max_size size positive c
            (held, subst (λ d. s.Holds d held) (sym eh) holds) ew em emin emax es) in
      let d =
        drain-Going calls rounds (new_reader source hash w mask opts) []
          record {
            fed = [];
            walks = walks;
            read_size = omega (arith, es, fits);
            split = inl (ap (λ (d : Core H Error). d.eof) fresh, rest);
          }
          (omega arith) many in
      (d.after, d.returns ∙ ap (λ t. some (t, d.after)) d.all_chunks, d.no_error)

  -- Under the conditions of a new chunker, any Chunker with that window, mask, sizes, read size and
  -- hash, also one at the end of another stream, splits after a Reset a new stream as a new one
  -- does: the loop over Next ends without a panic and without an error, and its chunks are those of
  -- the reference; as in the code, a chunk that ends where the stream has fewer bytes than a window
  -- has sum 0 in the reference, also when more chunks follow, and a chunk shorter than the least
  -- size, which only the greatest size or the end of the stream cuts, is not marked
  -- content-defined, also when its window satisfies the mask.
  pub reset_reader-reference_chunks :
      (r : Reader H Source Error) (source : Source) (held : List ℕ) (calls rounds : ℕ)
      → s.Holds r.core.hash held
      → r.core.window ≡ w
      → r.core.mask ≡ mask
      → r.core.min_size ≡ min_size
      → r.core.max_size ≡ max_size
      → r.core.batch_size ≡ size
      → r.read_size ≡ size
      → remaining source ≡ stream
      → length stream + 1 < calls
      → length stream + 1 < rounds
      → (d : Reader H Source Error) × (drain_reader read hits calls rounds
            (suc size)
            (reset_reader r source)
          ≡ some (reference_chunks checksum w mask min_size max_size stream, d))
        × (d.core.err ≡ none)
  unfolding reset_reader reset
  reset_reader-reference_chunks r source held calls rounds holds ew em emin emax es er rest enough
        many =
      let d =
        drain-Going calls rounds (reset_reader r source) []
          record {
            fed = [];
            walks =
                reset-Walks checksum s w mask min_size max_size size positive r.core (held, holds)
                  ew em emin emax es;
            read_size = er;
            split = inl (refl, rest);
          }
          (omega arith) many in
      (d.after, d.returns ∙ ap (λ t. some (t, d.after)) d.all_chunks, d.no_error)
