-- ===== src/ChunkWriter/Partition.antt =====
-- chunkwriter.go: what the chunks of a writer are for: they make up the bytes written, and their
-- lengths are bounded.
use rollinghash.Prelude.{ℕ, ◌+◌, ◌^◌, ◌≤◌, ◌<◌, ◌≡◌, List, Option, some, length, IsBytes}
use rollinghash.Kernel.{max_window}
use rollinghash.Hasher.{Hasher, IsHasher}
use rollinghash.TwoLane.{Hit}
use rollinghash.BatchWriter.{Call, written}
use rollinghash.Chunker.Contract.{IsBoundaryRoller}
use rollinghash.Chunker.Wrap.{HasRoom}
use rollinghash.Chunker.Reference.{Chunk, reference_chunks}
use rollinghash.Chunker.Partition.{
  rejoined, rejoined-reference_chunks, IsSized, reference_chunks-IsSized,
}
use rollinghash.ChunkWriter.{Writer, ChunkerOption, new_writer, run_to_end}
use rollinghash.ChunkWriter.Stream.{run_to_end-reference_chunks}

module _ {H : Hasher} {Error : Type 0}
    (hits : H.State → List ℕ → List ℕ → List ℕ → ℕ → ℕ → Option Hit) (checksum : List ℕ → ℕ)
    (s : IsHasher H checksum) (contract : IsBoundaryRoller H checksum s hits)
    (w mask min_size max_size size : ℕ) (pos : 0 < w) (small : w < max_window) (fits : w ≤ size)
    (short : size ≤ 2 ^ 31) (positive : 0 < min_size) (room : 0 < max_size) where
  -- For a hash whose BatchBoundaries keeps its contract, a window of 1 to 2^32 - 1 bytes, a batch
  -- size from the window to 2^31 bytes, a least and a greatest chunk size of at least 1, whatever
  -- options have set them, and bytes whose length leaves room in an int for a chunk of the least
  -- size and, unless that is math.MaxInt, for one of the greatest (the length plus the size is at
  -- most math.MaxInt), the chunks that a new ChunkWriter hands out, during any calls of Write and
  -- Next and after Close, are together the bytes written, none lost, repeated or reordered.
  pub run_to_end-rejoined :
      (hash : H.State) (held : List ℕ) (opts : List ChunkerOption) (calls : List Call) (fuel : ℕ)
      → s.Holds hash held
      → (new_writer {H = H} {Error = Error} hash w mask opts).core.min_size ≡ min_size
      → (new_writer {H = H} {Error = Error} hash w mask opts).core.max_size ≡ max_size
      → (new_writer {H = H} {Error = Error} hash w mask opts).core.batch_size ≡ size
      → IsBytes (written calls)
      → HasRoom min_size max_size (length (written calls))
      → length (written calls) + 1 < fuel
      → (chunks : List Chunk) × (wr' : Writer H Error) × (run_to_end hits
            (new_writer hash w mask opts)
            calls
            fuel
          ≡ some (chunks, wr'))
        × (rejoined chunks ≡ written calls)
  run_to_end-rejoined hash held opts calls fuel holds emin emax es bytes has_room enough =
      let (wr', returns, _) =
        run_to_end-reference_chunks hits checksum s contract w mask min_size max_size size pos small
          fits short positive room hash held opts calls fuel holds emin emax es bytes has_room
          enough in
      (
        reference_chunks checksum w mask min_size max_size (written calls),
        wr',
        returns,
        rejoined-reference_chunks checksum w mask min_size max_size room (written calls),
      )

  -- Under the same conditions, and with the least chunk size at most the greatest: every chunk that
  -- the writer hands out has at most the greatest size, which math.MaxInt makes unlimited, and
  -- every chunk but the last of the stream has at least the least size.
  pub run_to_end-IsSized :
      (hash : H.State) (held : List ℕ) (opts : List ChunkerOption) (calls : List Call) (fuel : ℕ)
      → s.Holds hash held
      → (new_writer {H = H} {Error = Error} hash w mask opts).core.min_size ≡ min_size
      → (new_writer {H = H} {Error = Error} hash w mask opts).core.max_size ≡ max_size
      → (new_writer {H = H} {Error = Error} hash w mask opts).core.batch_size ≡ size
      → IsBytes (written calls)
      → HasRoom min_size max_size (length (written calls))
      → length (written calls) + 1 < fuel
      → min_size ≤ max_size
      → (chunks : List Chunk) × (wr' : Writer H Error) × (run_to_end hits
            (new_writer hash w mask opts)
            calls
            fuel
          ≡ some (chunks, wr'))
        × IsSized min_size max_size chunks
  run_to_end-IsSized hash held opts calls fuel holds emin emax es bytes has_room enough le =
      let (wr', returns, _) =
        run_to_end-reference_chunks hits checksum s contract w mask min_size max_size size pos small
          fits short positive room hash held opts calls fuel holds emin emax es bytes has_room
          enough in
      (
        reference_chunks checksum w mask min_size max_size (written calls),
        wr',
        returns,
        reference_chunks-IsSized checksum w mask min_size max_size room (written calls) le,
      )
