-- ===== src/ChunkReader.antt =====
-- chunker.go: `chunker`, the pull side, which reads from an `io.Reader` into the core. The reader is
-- a parameter, as for the batch roller, whose loop over `Read` is the same.
pub mod Calls
pub mod Serve
pub mod Failure
pub mod Stream
use rollinghash.Prelude.{
  ℕ, zero, suc, max, if◌then◌else◌, Bool, true, false, List, [], ◌∷◌, Option, none, some, ◌>>=◌,
}
use rollinghash.Hasher.{Hasher}
use rollinghash.TwoLane.{Hit}
use rollinghash.BatchRoller.{need_more, emitted, core_done}
use rollinghash.BatchReader.{Status, read_ok, at_eof, failed, read_block}
use rollinghash.Chunker.{Core, max_int, new_core, compact, commit, close, reset, next}
use rollinghash.Chunker.Output.{current}
use rollinghash.Chunker.Reference.{Chunk}
use rollinghash.ChunkWriter.{ChunkerOption, with_options}

pub record Reader (H : Hasher) (Source Error : Type 0) : Type 0 where
  pub core : Core H Error
  pub source : Source
  pub read_size : ℕ

module _ {H : Hasher} {Source Error : Type 0} where
  -- `NewChunker`, for a hash that has `BatchBoundaries`
  unfoldable pub new_reader : Source → H.State → ℕ → ℕ → List ChunkerOption → Reader H Source Error
  new_reader source hash window mask opts =
      let core = with_options opts (new_core hash window mask 0 max_int) in
      record { core = core; source = source; read_size = max core.batch_size window }

  -- `Reset`
  unfoldable pub reset_reader : Reader H Source Error → Source → Reader H Source Error
  reset_reader s source = record s { core = reset s.core; source = source }

  -- The end of `fillCore`: `commitTail`, and what the error says.
  unfoldable pub filled :
      Reader H Source Error → Source × List ℕ × Status Error → Bool × Reader H Source Error
  filled s (source, p, read_ok) = (true, record s { core = commit s.core p; source = source })
  filled s (source, p, at_eof) =
      (false, record s { core = close (commit s.core p); source = source })
  filled s (source, p, failed err) =
      (false, record s { core = record (commit s.core p) { err = some err }; source = source })

  module _ (read : Source → ℕ → Source × List ℕ × Status Error) where
    -- `fillCore`, on fuel for its loop
    unfoldable pub fill_core : ℕ → Reader H Source Error → Option (Bool × Reader H Source Error)
    fill_core fuel s = if s.core.eof then some (false, s) else (do
      c ← compact s.core
      r ← read_block read fuel s.read_size s.source []
      some (filled (record s { core = c }) r))

    module _ (hits : H.State → List ℕ → List ℕ → List ℕ → ℕ → ℕ → Option Hit) where
      -- `Next`, on fuel for its loop and for that of each call of `fillCore`.
      unfoldable pub next_read :
          ℕ → ℕ → Reader H Source Error → Option (Bool × Reader H Source Error)
      next_read zero fuel s = none
      next_read (suc rounds) fuel s = do
        (state, c) ← next hits s.core
        elim state [
          | emitted ↦ some (true, record s { core = c })
          | core_done ↦ some (false, record s { core = c })
          | need_more ↦ fill_core fuel (record s { core = c }) >>= λ r. elim r.0 [
            | true ↦ next_read rounds fuel r.1
            | false ↦ elim r.1.core.err [
              | some err ↦ some (false, r.1)
              | none ↦ next_read rounds fuel r.1
            ]
          ]
        ]

      -- The loop `for c.Next() { … c.Bytes() … }`, on fuel: the chunks.
      unfoldable pub drain_reader :
          ℕ → ℕ → ℕ → Reader H Source Error → Option (List Chunk × Reader H Source Error)
      drain_reader zero rounds fuel s = none
      drain_reader (suc calls) rounds fuel s = do
        (more, s') ← next_read rounds fuel s
        elim more [
          | true ↦ drain_reader calls rounds fuel s' >>= λ r. some (current s'.core ∷ r.0, r.1)
          | false ↦ some ([], s')
        ]
