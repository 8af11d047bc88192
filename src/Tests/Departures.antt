-- ===== src/Tests/Departures.antt =====
-- The chunkers over bozo32 on inputs where they depart from their documentation.
use rollinghash.Prelude.{ℕ, ◌-◌, ◌≡◌, refl, List, [], ◌∷◌, Bool, true, false, Option, some, none}
use rollinghash.BatchWriter.{write_call}
use rollinghash.Bozo.{new_from_int}
use rollinghash.Chunker.{max_int}
use rollinghash.Chunker.Reference.{Chunk, next_cut, chunks_from, reference_chunks}
use rollinghash.ChunkWriter.{
  Writer, ChunkerOption, boundaries_option, batch_size_option, new_writer, run_to_end,
}
use rollinghash.Tests.Chunks.{bozo, checksum, hits}

-- The bytes, the sum and the flag of each chunk.
abbrev each : List Chunk → List (List ℕ × ℕ × Bool)
each [] = []
each (k ∷ ks) = (k.bytes, k.sum, k.content_defined) ∷ each ks

abbrev shown_chunks : Option (List Chunk × Writer bozo ℕ) → Option (List (List ℕ × ℕ × Bool))
shown_chunks none = none
shown_chunks (some (chunks, _)) = some (each chunks)

-- One `Write` of the bytes, `Close` and the loop over `Next`, with the mask 1.
abbrev split_with : ℕ → List ChunkerOption → List ℕ → Option (List (List ℕ × ℕ × Bool))
split_with window opts p =
    shown_chunks
      (run_to_end hits (new_writer (new_from_int 10) window 1 opts) (write_call p ∷ []) 9)

-- With the default sizes, the reference cuts after every even byte.
cuts_expected_example :
    each (reference_chunks checksum 1 1 0 max_int (2 ∷ 1 ∷ 4 ∷ 6 ∷ 8 ∷ []))
    ≡ (2 ∷ [], 2, true) ∷ (1 ∷ 4 ∷ [], 4, true) ∷ (6 ∷ [], 6, true) ∷ (8 ∷ [], 8, true) ∷ []
unfolding reference_chunks chunks_from next_cut
cuts_expected_example = refl

-- The writer misses the cuts that it has not hashed when it reaches the last that it has; a greatest
-- size just below `math.MaxInt` wraps and panics at the second chunk, where `math.MaxInt` does not;
-- a chunk that ends before a window has sum 0 without being the last; and a last chunk below the
-- least size may satisfy the mask without being marked.
departures_example :
    (split_with 1 (batch_size_option 2 ∷ []) (2 ∷ 1 ∷ 4 ∷ 6 ∷ 8 ∷ [])
      ≡ some ((2 ∷ [], 2, true) ∷ (1 ∷ 4 ∷ 6 ∷ 8 ∷ [], 8, false) ∷ []))
    × (split_with 1 (boundaries_option 1 (max_int - 1) ∷ []) (1 ∷ 1 ∷ 1 ∷ 2 ∷ 1 ∷ 1 ∷ []) ≡ none)
    × (split_with 1 (boundaries_option 1 max_int ∷ []) (1 ∷ 1 ∷ 1 ∷ 2 ∷ 1 ∷ 1 ∷ [])
        ≡ some ((1 ∷ 1 ∷ 1 ∷ 2 ∷ [], 2, true) ∷ (1 ∷ 1 ∷ [], 1, false) ∷ []))
    × (split_with 4 (boundaries_option 1 2 ∷ []) (1 ∷ 1 ∷ 1 ∷ 1 ∷ 1 ∷ [])
        ≡ some ((1 ∷ 1 ∷ [], 0, false) ∷ (1 ∷ 1 ∷ [], 1111, false) ∷ (1 ∷ [], 1111, false) ∷ []))
    × (split_with 1 (boundaries_option 10 20 ∷ []) (1 ∷ 1 ∷ 2 ∷ [])
        ≡ some ((1 ∷ 1 ∷ 2 ∷ [], 2, false) ∷ []))
unfolding rollinghash.ChunkWriter.with_options rollinghash.ChunkWriter.new_writer
    rollinghash.ChunkWriter.feed_slices rollinghash.ChunkWriter.write_direct
    rollinghash.ChunkWriter.accept rollinghash.ChunkWriter.write
    rollinghash.ChunkWriter.close_writer rollinghash.ChunkWriter.run
    rollinghash.ChunkWriter.run_to_end rollinghash.Chunker.new_core
    rollinghash.Chunker.with_batch_size rollinghash.Chunker.with_boundaries
    rollinghash.Chunker.close rollinghash.Chunker.skip_pre_min rollinghash.Chunker.drop_bytes
    rollinghash.Chunker.drop_bounds rollinghash.Chunker.compact rollinghash.Chunker.commit
    rollinghash.Chunker.feed rollinghash.Chunker.limit rollinghash.Chunker.least
    rollinghash.Chunker.has_candidate rollinghash.Chunker.window_sum rollinghash.Chunker.emit
    rollinghash.Chunker.trailing rollinghash.Chunker.force rollinghash.Chunker.choose
    rollinghash.Chunker.scan rollinghash.Chunker.hash_block rollinghash.Chunker.hash_from
    rollinghash.Chunker.hash_forward rollinghash.Chunker.hash_loop rollinghash.Chunker.next
    rollinghash.Chunker.Output.current rollinghash.Chunker.Output.drain rollinghash.Bozo.reset
    rollinghash.Bozo.new rollinghash.Bozo.write rollinghash.Bozo.batch_boundaries
    rollinghash.TwoLane.warm rollinghash.TwoLane.finish rollinghash.TwoLane.lockstep
    rollinghash.TwoLane.both_lanes rollinghash.TwoLane.two_lanes rollinghash.TwoLane.hit_a
    rollinghash.TwoLane.hit_b rollinghash.TwoLane.batch_boundaries rollinghash.Window.append
    rollinghash.Bozo.sum32 rollinghash.Bozo.rehash rollinghash.TwoLane.advance
    rollinghash.Bozo.power
departures_example = (refl, refl, refl, refl, refl)
