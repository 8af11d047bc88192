-- ===== src/Tests/Splits.antt =====
-- The core and the pull side of the chunkers, over bozo32 and a reader of one byte at a time.
use rollinghash.Prelude.{◌∷◌, ℕ, ◌≡◌, refl, arith, List, [], some, none}
use rollinghash.BatchReader.{Status, failed}
use rollinghash.Bozo.{new_from_int}
use rollinghash.Bozo.Digest.{new_from_int-Holds, hasher-IsHasher}
use rollinghash.Chunker.{
  Core, feed, hash_loop, new_core, reset, next, with_boundaries, with_batch_size,
}
use rollinghash.Chunker.Choose.{Outcome}
use rollinghash.Chunker.Feed.{reset-Walks, feed-Walks}
use rollinghash.Chunker.Forward.{Looped, hash_loop-Looped}
use rollinghash.Chunker.Partition.{rejoined, IsSized}
use rollinghash.Chunker.Reference.{Chunk, reference_chunks}
use rollinghash.Chunker.Serve.{next-Outcome}
use rollinghash.Chunker.Walk.{Walks}
use rollinghash.ChunkWriter.{Writer, with_options, new_writer, run_to_end}
use rollinghash.ChunkWriter.Partition.{run_to_end-rejoined, run_to_end-IsSized}
use rollinghash.ChunkReader.{Reader, new_reader, reset_reader, drain_reader}
use rollinghash.ChunkReader.Stream.{drain_reader-reference_chunks, reset_reader-reference_chunks}
use rollinghash.Tests.Chunks.{
  room_left, bozo, checksum, hits, bozo-IsBoundaryRoller, calls, calls-IsBytes, options, writer,
  chosen_min, chosen_max, chosen_size, stream, used-Holds, used-window, used-mask, used-min_size,
  used-max_size, used-batch_size, used,
}
use rollinghash.Tests.Readers.{one_byte, one_byte-IsReader}

run_to_end-rejoined_example :
    (chunks : List Chunk) × (wr' : Writer bozo ℕ) × (run_to_end hits writer calls 11
      ≡ some (chunks, wr'))
    × (rejoined chunks ≡ stream)
run_to_end-rejoined_example =
    run_to_end-rejoined hits checksum (hasher-IsHasher 32 10) bozo-IsBoundaryRoller 2 3 2 4 3
      (omega arith) (omega arith) (omega arith) (omega arith) (omega arith) (omega arith)
      (new_from_int 10) [] options calls 11 (new_from_int-Holds 32 10) chosen_min chosen_max
      chosen_size calls-IsBytes room_left (omega arith)

run_to_end-IsSized_example :
    (chunks : List Chunk) × (wr' : Writer bozo ℕ) × (run_to_end hits writer calls 11
      ≡ some (chunks, wr'))
    × IsSized 2 4 chunks
run_to_end-IsSized_example =
    run_to_end-IsSized hits checksum (hasher-IsHasher 32 10) bozo-IsBoundaryRoller 2 3 2 4 3
      (omega arith) (omega arith) (omega arith) (omega arith) (omega arith) (omega arith)
      (new_from_int 10) [] options calls 11 (new_from_int-Holds 32 10) chosen_min chosen_max
      chosen_size calls-IsBytes room_left (omega arith) (omega arith)

drain_reader-reference_chunks_example :
    (r : Reader bozo (List ℕ) ℕ) × (drain_reader one_byte hits 11 11 4
        (new_reader stream (new_from_int 10) 2 3 options)
      ≡ some (reference_chunks checksum 2 3 2 4 stream, r))
    × (r.core.err ≡ none)
unfolding new_reader new_writer
drain_reader-reference_chunks_example =
    drain_reader-reference_chunks one_byte (λ p. p) one_byte-IsReader hits checksum
      (hasher-IsHasher 32 10) bozo-IsBoundaryRoller 2 3 2 4 3 (omega arith) (omega arith)
      (omega arith) (omega arith) (omega arith) (omega arith) stream calls-IsBytes room_left stream
      (new_from_int 10) [] options 11 11 (new_from_int-Holds 32 10) chosen_min chosen_max
      chosen_size refl (omega arith) (omega arith)

abbrev used_reader : Reader bozo (List ℕ) ℕ
used_reader = record { core = used.core; source = []; read_size = 3 }

reset_reader-reference_chunks_example :
    (r : Reader bozo (List ℕ) ℕ) × (drain_reader one_byte hits 11 11 4
        (reset_reader used_reader stream)
      ≡ some (reference_chunks checksum 2 3 2 4 stream, r))
    × (r.core.err ≡ none)
reset_reader-reference_chunks_example =
    reset_reader-reference_chunks one_byte (λ p. p) one_byte-IsReader hits checksum
      (hasher-IsHasher 32 10) bozo-IsBoundaryRoller 2 3 2 4 3 (omega arith) (omega arith)
      (omega arith) (omega arith) (omega arith) (omega arith) stream calls-IsBytes room_left
      used_reader stream [] 11 11 used-Holds used-window used-mask used-min_size used-max_size
      used-batch_size refl refl (omega arith) (omega arith)

-- A core that was fed the stream, and closed.
abbrev empty_core : Core bozo ℕ
empty_core = reset writer.core

empty_core-Walks : Walks checksum (hasher-IsHasher 32 10) 2 3 2 4 3 (omega arith) empty_core [] []
unfolding new_writer with_options with_boundaries with_batch_size new_core
empty_core-Walks =
    reset-Walks checksum (hasher-IsHasher 32 10) 2 3 2 4 3 (omega arith) writer.core
      ([], new_from_int-Holds 32 10) refl refl chosen_min chosen_max chosen_size

abbrev fed_core :
    (d : Core bozo ℕ) × (feed empty_core stream ≡ some d)
    × Walks checksum (hasher-IsHasher 32 10) 2 3 2 4 3 (omega arith) d stream []
    × (d.eof ≡ empty_core.eof)
fed_core =
    feed-Walks checksum (hasher-IsHasher 32 10) 2 3 2 4 3 (omega arith) empty_core [] [] stream
      empty_core-Walks calls-IsBytes

feed-Walks_example :
    (d : Core bozo ℕ) × (feed empty_core stream ≡ some d)
    × Walks checksum (hasher-IsHasher 32 10) 2 3 2 4 3 (omega arith) d stream []
    × (d.eof ≡ empty_core.eof)
feed-Walks_example =
    feed-Walks checksum (hasher-IsHasher 32 10) 2 3 2 4 3 (omega arith) empty_core [] [] stream
      empty_core-Walks calls-IsBytes

hash_loop-Looped_example :
    Looped hits checksum
      (hasher-IsHasher 32 10)
      bozo-IsBoundaryRoller
      2
      3
      2
      4
      3
      (omega arith)
      (omega arith)
      (omega arith)
      (omega arith)
      (omega arith)
      (hash_loop hits 10 fed_core.0)
      fed_core.0
      stream
      []
hash_loop-Looped_example =
    hash_loop-Looped hits checksum (hasher-IsHasher 32 10) bozo-IsBoundaryRoller 2 3 2 4 3
      (omega arith) (omega arith) (omega arith) (omega arith) (omega arith) 10 fed_core.0 stream []
      fed_core.2 room_left (omega arith)

next-Outcome_example :
    Outcome checksum 2 3 2 4
      (hasher-IsHasher 32 10)
      3
      (omega arith)
      (omega arith)
      (omega arith)
      (omega arith)
      (next hits fed_core.0)
      fed_core.0.eof
      fed_core.0.chunk_start
      stream
      []
next-Outcome_example =
    next-Outcome hits checksum (hasher-IsHasher 32 10) bozo-IsBoundaryRoller 2 3 2 4 3 (omega arith)
      (omega arith) (omega arith) (omega arith) (omega arith) (omega arith) fed_core.0 stream []
      fed_core.2 room_left

-- A reader that gives one byte and an error at once.
abbrev broken_pipe : List ℕ → ℕ → List ℕ × List ℕ × Status ℕ
broken_pipe p n = (p, 9 ∷ [], failed 5)

abbrev waiting : Reader bozo (List ℕ) ℕ
waiting = record { core = empty_core; source = []; read_size = 3 }
