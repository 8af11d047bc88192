-- ===== src/Tests/Batches.antt =====
-- A batch writer over bozo32: a window of 2 bytes, batches of 3, five bytes in two writes with a
-- call of `Next` between them.
use rollinghash.Prelude.{ℕ, inl, ◌≡◌, refl, arith, List, [], ◌∷◌, Option, some, none, IsBytes}
use rollinghash.Kernel.{sum_of, window_sums}
use rollinghash.TwoLane
use rollinghash.TwoLane.Sums.{batch_roll-window_sums}
use rollinghash.Bozo.{kernel}
use rollinghash.Bozo.Horner.{kernel-IsRolling_bozo}
use rollinghash.BatchRoller.{Core, new_core, configured, with_buffer_size, feed, close}
use rollinghash.BatchRoller.Contract.{IsBatchRoll}
use rollinghash.BatchRoller.Walk.{position, Walks, configured-Walks, feed-Walks}
use rollinghash.BatchRoller.Drain.{Drains, drain_lem}
use rollinghash.BatchRoller.Outcome.{Outcome, next_lem}
use rollinghash.BatchWriter.{
  Writer, err_closed, Call, write_call, next_call, new_writer, write, close_writer, reset_writer,
  run_to_end, written,
}
use rollinghash.BatchWriter.Pending.{Open, new_writer-Open, write-Open}
use rollinghash.BatchWriter.Stream.{run_to_end-new_writer, run_to_end-reset_writer}

abbrev batch : List ℕ → List ℕ → ℕ → Option (List ℕ)
batch = TwoLane.batch_roll (kernel 32 10)

abbrev checksum : List ℕ → ℕ
checksum = sum_of (kernel 32 10)

-- The two-lane loop keeps the contract that the batch roller relies on.
batch-IsBatchRoll : IsBatchRoll batch checksum
batch-IsBatchRoll = batch_roll-window_sums (kernel 32 10) (kernel-IsRolling_bozo 32 10)

abbrev calls : List Call
calls = write_call (1 ∷ 2 ∷ 3 ∷ 4 ∷ []) ∷ next_call ∷ write_call (5 ∷ []) ∷ []

calls-IsBytes : IsBytes (written calls)
calls-IsBytes = (omega arith, (omega arith, (omega arith, (omega arith, (omega arith, tt)))))

chosen : (configured {Error = ℕ} 2 (some 3)).batch_size ≡ 3
unfolding configured with_buffer_size new_core
chosen = refl

run_to_end_example :
    (wr' : Writer ℕ) × (run_to_end batch (new_writer 2 (some 3)) calls 9
      ≡ some (window_sums checksum 2 (1 ∷ 2 ∷ 3 ∷ 4 ∷ 5 ∷ []), wr'))
    × ((p : List ℕ) → write wr' p ≡ some (wr', 0, some err_closed))
run_to_end_example =
    run_to_end-new_writer batch checksum batch-IsBatchRoll 2 3 (omega arith) (omega arith)
      (omega arith) (some 3) calls 9 chosen calls-IsBytes (omega arith)

-- A writer in the middle of another stream, closed.
abbrev used : Writer ℕ
used =
    close_writer (record { core = feed (configured 2 (some 3)) (8 ∷ 9 ∷ 7 ∷ []); pending = 6 ∷ [] })

used-window : used.core.window ≡ 2
unfolding close_writer close feed configured with_buffer_size new_core
used-window = refl

used-batch_size : used.core.batch_size ≡ 3
unfolding close_writer close feed configured with_buffer_size new_core
used-batch_size = refl

run_to_end-reset_example :
    (wr' : Writer ℕ) × (run_to_end batch (reset_writer used) calls 9
      ≡ some (window_sums checksum 2 (1 ∷ 2 ∷ 3 ∷ 4 ∷ 5 ∷ []), wr'))
    × ((p : List ℕ) → write wr' p ≡ some (wr', 0, some err_closed))
run_to_end-reset_example =
    run_to_end-reset_writer batch checksum batch-IsBatchRoll 2 3 (omega arith) (omega arith)
      (omega arith) used calls 9 used-window used-batch_size calls-IsBytes (omega arith)

abbrev fed_core : Core ℕ
fed_core = feed (configured 2 (some 3)) (1 ∷ 2 ∷ 3 ∷ 4 ∷ [])

fed_core-Walks : Walks checksum 2 3 fed_core (1 ∷ 2 ∷ 3 ∷ 4 ∷ []) []
fed_core-Walks =
    feed-Walks checksum 2 3 (configured 2 (some 3)) [] [] (1 ∷ 2 ∷ 3 ∷ 4 ∷ [])
      (configured-Walks checksum 2 3 (some 3) chosen)
      (omega arith, (omega arith, (omega arith, (omega arith, tt))))

next_example :
    Outcome batch checksum batch-IsBatchRoll 2 3
      (omega arith)
      (omega arith)
      (omega arith)
      fed_core
      (1 ∷ 2 ∷ 3 ∷ 4 ∷ [])
      []
      (position fed_core)
next_example =
    next_lem batch checksum batch-IsBatchRoll 2 3 (omega arith) (omega arith) (omega arith) fed_core
      (1 ∷ 2 ∷ 3 ∷ 4 ∷ []) [] (inl fed_core-Walks)

drain_example :
    Drains batch checksum batch-IsBatchRoll 2 3
      (omega arith)
      (omega arith)
      (omega arith)
      9
      fed_core
      (1 ∷ 2 ∷ 3 ∷ 4 ∷ [])
      []
drain_example =
    drain_lem batch checksum batch-IsBatchRoll 2 3 (omega arith) (omega arith) (omega arith) 9
      fed_core (1 ∷ 2 ∷ 3 ∷ 4 ∷ []) [] (inl fed_core-Walks) (omega arith) (λ _. omega arith)

write-Open_example :
    (wr' : Writer ℕ) × (write (new_writer 2 (some 3)) (1 ∷ 2 ∷ 3 ∷ 4 ∷ []) ≡ some (wr', 4, none))
    × Open checksum 2 3 wr' (1 ∷ 2 ∷ 3 ∷ 4 ∷ []) []
write-Open_example =
    write-Open checksum 2 3 (new_writer 2 (some 3)) [] [] (1 ∷ 2 ∷ 3 ∷ 4 ∷ [])
      (new_writer-Open checksum 2 3 (some 3) chosen (omega arith))
      (omega arith, (omega arith, (omega arith, (omega arith, tt)))) (omega arith)
