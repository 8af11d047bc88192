-- ===== src/ChunkWriter.antt =====
-- chunkwriter.go: the push side of the chunker. `Write` gathers bytes in `pending` and feeds the
-- core in slices of the batch size.
pub mod Pending
pub mod Stream
pub mod Partition
use rollinghash.Prelude.{
  ℕ, zero, suc, ◌-◌, max, ltb, leb, if◌then◌else◌, true, false, List, [], ◌∷◌, ◌++◌, Option, none,
  some, ◌>>=◌, length, take, drop,
}
use rollinghash.Hasher.{Hasher}
use rollinghash.TwoLane.{Hit}
use rollinghash.BatchWriter.{WriteError, err_closed, Call, write_call, next_call}
use rollinghash.Chunker.{
  Core, max_int, new_core, with_boundaries, with_batch_size, feed, close, reset, next,
}
use rollinghash.Chunker.Output.{shown, drain}
use rollinghash.Chunker.Reference.{Chunk}

pub record Writer (H : Hasher) (Error : Type 0) : Type 0 where
  pub core : Core H Error
  pub pending : List ℕ

-- `chunkerOption`
pub data ChunkerOption : Type 0 where
  boundaries_option : ℕ → ℕ → ChunkerOption
  batch_size_option : ℕ → ChunkerOption

module _ {H : Hasher} {Error : Type 0} where
  -- The options in turn, `for _, opt := range opts`.
  unfoldable pub with_options : List ChunkerOption → Core H Error → Core H Error
  with_options [] c = c
  with_options (boundaries_option min_size max_size ∷ opts) c =
      with_options opts (with_boundaries min_size max_size c)
  with_options (batch_size_option n ∷ opts) c = with_options opts (with_batch_size n c)

  -- `NewChunkWriter`, for a hash that has `BatchBoundaries`
  unfoldable pub new_writer : H.State → ℕ → ℕ → List ChunkerOption → Writer H Error
  new_writer hash window mask opts = record {
    core = with_options opts (new_core hash window mask 0 max_int);
    pending = [];
  }

  -- The loop `for len(p) >= batchSize`, with the rounds that are left: the core and the rest of `p`.
  unfoldable pub feed_slices : ℕ → ℕ → Core H Error → List ℕ → Option (Core H Error × List ℕ)
  feed_slices zero size c p = some (c, p)
  feed_slices (suc left) size c p = elim (leb size (length p)) [
    | true ↦ feed c (take size p) >>= λ c'. feed_slices left size c' (drop size p)
    | false ↦ some (c, p)
  ]

  -- The end of `Write`: whole slices go to the core, the rest is pending.
  unfoldable pub write_direct : ℕ → Core H Error → List ℕ → Option (Writer H Error)
  write_direct size c p = do
    (c', rest) ← feed_slices (length p) size c p
    some (record { core = c'; pending = rest })

  -- `Write` of an open writer whose batch size is `size`: the writer after it, the count and the
  -- error. `none` is a panic.
  unfoldable pub accept :
      ℕ → Writer H Error → List ℕ → Option (Writer H Error × ℕ × Option WriteError)
  accept size w p =
      let need = size - length w.pending in
      if ltb 0 (length w.pending)
      then (if ltb size (length w.pending)
          then none
          else if ltb (length p) need
          then some (record w { pending = w.pending ++ p }, length p, none)
          else (do
            c ← feed w.core (w.pending ++ take need p)
            w' ← write_direct size c (drop need p)
            some (w', length p, none)))
      else (do w' ← write_direct size w.core p; some (w', length p, none))

  -- `Write`
  unfoldable pub write : Writer H Error → List ℕ → Option (Writer H Error × ℕ × Option WriteError)
  write w p =
      if w.core.eof then some (w, 0, some err_closed) else accept (max w.core.batch_size 1) w p

  -- `Close`
  unfoldable pub close_writer : Writer H Error → Option (Writer H Error)
  close_writer w = do
    c ← if ltb 0 (length w.pending) then feed w.core w.pending else some w.core
    some (record { core = close c; pending = [] })

  -- `Reset`
  unfoldable pub reset_writer : Writer H Error → Writer H Error
  reset_writer w = record { core = reset w.core; pending = [] }

  module _ (hits : H.State → List ℕ → List ℕ → List ℕ → ℕ → ℕ → Option Hit) where
    -- A caller: its calls in order, and the chunks that its calls of `Next` return.
    unfoldable pub run : Writer H Error → List Call → Option (List Chunk × Writer H Error)
    run w [] = some ([], w)
    run w (write_call p ∷ calls) = do (w', _, _) ← write w p; run w' calls
    run w (next_call ∷ calls) = do
      (state, c) ← next hits w.core
      (chunks, w') ← run (record w { core = c }) calls
      some (shown state c ++ chunks, w')

    -- A caller that closes the writer after its calls, and then drains it.
    unfoldable pub run_to_end :
        Writer H Error → List Call → ℕ → Option (List Chunk × Writer H Error)
    run_to_end w calls fuel = do
      (chunks, w') ← run w calls
      closed ← close_writer w'
      (rest, c) ← drain hits fuel closed.core
      some (chunks ++ rest, record closed { core = c })
