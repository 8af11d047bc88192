-- ===== src/BatchWriter.antt =====
-- batchwriter.go: the push side of the batch roller. `Write` gathers bytes in `pending` and feeds
-- the core in slices of the batch size.
pub mod Pending
pub mod Stream
use rollinghash.Prelude.{
  ℕ, zero, suc, ◌+◌, ◌-◌, max, ltb, leb, if◌then◌else◌, Bool, true, false, List, [], ◌∷◌, ◌++◌,
  Option, none, some, ◌>>=◌, length, take, drop,
}
use rollinghash.BatchRoller.{Core, CoreState, configured, feed, close, reset, next, handed, drain}

-- `ErrClosed`
pub data WriteError : Type 0 where
  err_closed : WriteError

pub record Writer (Error : Type 0) : Type 0 where
  pub core : Core Error
  pub pending : List ℕ

-- What is called on a writer: `Write` with its bytes, or `Next`.
pub data Call : Type 0 where
  write_call : List ℕ → Call
  next_call : Call

module _ {Error : Type 0} where
  -- `NewBatchWriter`, for a hash that has `BatchRoll`, with an option `WithBufferSize` or none
  unfoldable pub new_writer : ℕ → Option ℕ → Writer Error
  new_writer window option = record { core = configured window option; pending = [] }

  -- The loop `for len(p) >= batchSize`, with the rounds that are left: the core and the rest of `p`.
  unfoldable pub feed_slices : ℕ → ℕ → Core Error → List ℕ → Core Error × List ℕ
  feed_slices zero size c p = (c, p)
  feed_slices (suc left) size c p = elim (leb size (length p)) [
    | true ↦ feed_slices left size (feed c (take size p)) (drop size p)
    | false ↦ (c, p)
  ]

  -- The end of `Write`: whole slices go to the core, the rest is pending.
  unfoldable pub write_direct : ℕ → Core Error → List ℕ → Writer Error
  write_direct size c p =
      let (c', rest) = feed_slices (length p) size c p in record { core = c'; pending = rest }

  -- `Write`: the writer after it, the count and the error. `none` is the panic of a slice bound
  -- `need` below zero.
  unfoldable pub write : Writer Error → List ℕ → Option (Writer Error × ℕ × Option WriteError)
  write w p =
      let size = max w.core.batch_size 1 in
      let need = size - length w.pending in
      if w.core.eof
      then some (w, 0, some err_closed)
      else if ltb 0 (length w.pending)
      then (if ltb size (length w.pending)
          then none
          else if ltb (length p) need
          then some (record w { pending = w.pending ++ p }, length p, none)
          else some (
            write_direct size (feed w.core (w.pending ++ take need p)) (drop need p),
            length p,
            none,
          ))
      else some (write_direct size w.core p, length p, none)

  -- `Close`
  unfoldable pub close_writer : Writer Error → Writer Error
  close_writer w = record {
    core = close (if ltb 0 (length w.pending) then feed w.core w.pending else w.core);
    pending = [];
  }

  -- `Reset`
  unfoldable pub reset_writer : Writer Error → Writer Error
  reset_writer w = record { core = reset w.core; pending = [] }

  module _ (batch : List ℕ → List ℕ → ℕ → Option (List ℕ)) where
    -- A caller: its calls in order, and the sums of the batches that its calls of `Next` return.
    unfoldable pub run : Writer Error → List Call → Option (List ℕ × Writer Error)
    run w [] = some ([], w)
    run w (write_call p ∷ calls) = do (w', _, _) ← write w p; run w' calls
    run w (next_call ∷ calls) = do
      (state, c) ← next batch w.core
      (sums, w') ← run (record w { core = c }) calls
      some (handed state c ++ sums, w')

    -- A caller that closes the writer after its calls, and then drains it.
    unfoldable pub run_to_end : Writer Error → List Call → ℕ → Option (List ℕ × Writer Error)
    run_to_end w calls fuel = do
      (sums, w') ← run w calls
      let closed = close_writer w'
      (rest, c) ← drain batch fuel closed.core
      some (sums ++ rest, record closed { core = c })

-- The bytes that the calls write.
abbrev pub written : List Call → List ℕ
written [] = []
written (write_call p ∷ calls) = p ++ written calls
written (next_call ∷ calls) = written calls
