-- ===== src/Tests/Chunks.antt =====
-- The chunkers over bozo32 with the multiplier 10, a window of 2 bytes and chunks of 2 to 4 bytes.
use rollinghash.Prelude.{ℕ, ◌≡◌, refl, arith, inr, List, [], ◌∷◌, Option, some, IsBytes}
use rollinghash.Kernel.{sum_of}
use rollinghash.Hasher.{Hasher, IsHasher}
use rollinghash.TwoLane.{Hit}
use rollinghash.BatchWriter.{err_closed, Call, write_call, next_call, written}
use rollinghash.Bozo.{Bozo, kernel, new_from_int, batch_boundaries}
use rollinghash.Bozo.Digest.{
  Holds, new_from_int-Holds, hasher, hasher-IsHasher, batch_boundaries_bozo,
}
use rollinghash.Chunker.{close, new_core, with_boundaries, with_batch_size}
use rollinghash.Chunker.Contract.{IsBoundaryRoller}
use rollinghash.Chunker.Wrap.{HasRoom}
use rollinghash.Chunker.Reference.{reference_chunks}
use rollinghash.ChunkWriter.{
  Writer, ChunkerOption, boundaries_option, batch_size_option, with_options, new_writer,
  reset_writer, write, run_to_end,
}
use rollinghash.ChunkWriter.Stream.{run_to_end-reference_chunks, reset_writer-reference_chunks}

abbrev pub bozo : Hasher
bozo = hasher 32 10

abbrev pub checksum : List ℕ → ℕ
checksum = sum_of (kernel 32 10)

bozo-IsHasher : IsHasher bozo checksum
bozo-IsHasher = hasher-IsHasher 32 10

abbrev pub hits : Bozo → List ℕ → List ℕ → List ℕ → ℕ → ℕ → Option Hit
hits = batch_boundaries 32

pub bozo-IsBoundaryRoller : IsBoundaryRoller bozo checksum (hasher-IsHasher 32 10) hits
bozo-IsBoundaryRoller = batch_boundaries_bozo 32 10

abbrev pub calls : List Call
calls = write_call (1 ∷ 2 ∷ 3 ∷ 4 ∷ 5 ∷ 6 ∷ []) ∷ next_call ∷ write_call (7 ∷ 8 ∷ 9 ∷ []) ∷ []

pub calls-IsBytes : IsBytes (written calls)
calls-IsBytes = (
  omega arith,
  (
    omega arith,
    (
      omega arith,
      (omega arith, (omega arith, (omega arith, (omega arith, (omega arith, (omega arith, tt)))))),
    ),
  ),
)

abbrev pub options : List ChunkerOption
options = boundaries_option 2 4 ∷ batch_size_option 3 ∷ []

abbrev pub writer : Writer bozo ℕ
writer = new_writer (new_from_int 10) 2 3 options

pub chosen_min : writer.core.min_size ≡ 2
unfolding new_writer with_options with_boundaries with_batch_size new_core
chosen_min = refl

pub chosen_max : writer.core.max_size ≡ 4
unfolding new_writer with_options with_boundaries with_batch_size new_core
chosen_max = refl

pub chosen_size : writer.core.batch_size ≡ 3
unfolding new_writer with_options with_boundaries with_batch_size new_core
chosen_size = refl

abbrev pub stream : List ℕ
stream = 1 ∷ 2 ∷ 3 ∷ 4 ∷ 5 ∷ 6 ∷ 7 ∷ 8 ∷ 9 ∷ []

-- Nine bytes and a chunk of 4 fit an int.
pub room_left : HasRoom 2 4 9
room_left = (omega arith, inr (omega arith))

reference_chunks_example :
    (wr' : Writer bozo ℕ) × (run_to_end hits writer calls 11
      ≡ some (reference_chunks checksum 2 3 2 4 stream, wr'))
    × ((p : List ℕ) → write wr' p ≡ some (wr', 0, some err_closed))
reference_chunks_example =
    run_to_end-reference_chunks hits checksum (hasher-IsHasher 32 10) bozo-IsBoundaryRoller 2 3 2 4
      3 (omega arith) (omega arith) (omega arith) (omega arith) (omega arith) (omega arith)
      (new_from_int 10) [] options calls 11 (new_from_int-Holds 32 10) chosen_min chosen_max
      chosen_size calls-IsBytes room_left (omega arith)

-- A writer in the middle of another stream, closed.
abbrev pub used : Writer bozo ℕ
used = record writer {
  core = close (record writer.core { cbuf = 8 ∷ 9 ∷ []; consumed = 2; hashed_to = 2 });
  pending = [];
}

pub used-window : used.core.window ≡ 2
unfolding close new_writer with_options with_boundaries with_batch_size new_core
used-window = refl

pub used-mask : used.core.mask ≡ 3
unfolding close new_writer with_options with_boundaries with_batch_size new_core
used-mask = refl

pub used-min_size : used.core.min_size ≡ 2
unfolding close new_writer with_options with_boundaries with_batch_size new_core
used-min_size = refl

pub used-max_size : used.core.max_size ≡ 4
unfolding close new_writer with_options with_boundaries with_batch_size new_core
used-max_size = refl

pub used-batch_size : used.core.batch_size ≡ 3
unfolding close new_writer with_options with_boundaries with_batch_size new_core
used-batch_size = refl

pub used-Holds : Holds 32 10 used.core.hash []
unfolding close new_writer with_options with_boundaries with_batch_size new_core
used-Holds = new_from_int-Holds 32 10

reset_chunks_example :
    (wr' : Writer bozo ℕ) × (run_to_end hits (reset_writer used) calls 11
      ≡ some (reference_chunks checksum 2 3 2 4 stream, wr'))
    × ((p : List ℕ) → write wr' p ≡ some (wr', 0, some err_closed))
reset_chunks_example =
    reset_writer-reference_chunks hits checksum (hasher-IsHasher 32 10) bozo-IsBoundaryRoller 2 3 2
      4 3 (omega arith) (omega arith) (omega arith) (omega arith) (omega arith) (omega arith) used
      [] calls 11 used-Holds used-window used-mask used-min_size used-max_size used-batch_size
      calls-IsBytes room_left (omega arith)
