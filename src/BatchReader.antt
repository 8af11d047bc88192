-- ===== src/BatchReader.antt =====
-- batchroller.go: `batchRoller`, the pull side, which reads from an `io.Reader` into the core. The
-- reader is a parameter: `read s n` is a call of `Read` with a slice of `n` bytes, with the reader's
-- state after it, the bytes it has put in the slice, and its error.
pub mod Fill
pub mod Serve
pub mod Stream
use rollinghash.Prelude.{
  ℕ, zero, suc, ◌-◌, if◌then◌else◌, Bool, true, false, List, [], ◌++◌, Option, none, some, ◌>>=◌,
  length,
}
use rollinghash.BatchRoller.{
  Core, need_more, emitted, core_done, configured, reset, feed, close, next, handed,
}

-- What `Read` returns beside its count: no error, `io.EOF`, or another error.
pub data Status (Error : Type 0) : Type 0 where
  read_ok : Status Error
  at_eof : Status Error
  failed : Error → Status Error

pub record Reader (Source Error : Type 0) : Type 0 where
  pub core : Core Error
  pub source : Source
  pub read_size : ℕ

module _ {Source Error : Type 0} where
  -- `NewBatchRoller`, for a hash that has `BatchRoll`, with an option `WithBufferSize` or none
  unfoldable pub new_reader : Source → ℕ → Option ℕ → Reader Source Error
  new_reader source window option =
      let core = configured window option in
      record { core = core; source = source; read_size = core.batch_size }

  -- `Reset`
  unfoldable pub reset_reader : Reader Source Error → Source → Reader Source Error
  reset_reader s source = record s { core = reset s.core; source = source }

  module _ (read : Source → ℕ → Source × List ℕ × Status Error) where
    -- The loop of `fillCore`, on fuel, from the room left in the slice and the bytes read so far.
    -- `none` is no fuel.
    unfoldable pub read_block : ℕ → ℕ → Source → List ℕ → Option (Source × List ℕ × Status Error)
    read_block zero room s got = none
    read_block (suc fuel) zero s got = some (s, got, read_ok)
    read_block (suc fuel) (suc room) s got =
        let (s', p, status) = read s (suc room) in
        elim status [
          | read_ok ↦ read_block fuel (suc room - length p) s' (got ++ p)
          | at_eof ↦ some (s', got ++ p, at_eof)
          | failed err ↦ some (s', got ++ p, failed err)
        ]

    -- The end of `fillCore`: `commitTail`, and what the error says.
    unfoldable pub filled :
        Reader Source Error → Source × List ℕ × Status Error → Bool × Reader Source Error
    filled s (source, p, read_ok) = (true, record s { core = feed s.core p; source = source })
    filled s (source, p, at_eof) =
        (false, record s { core = close (feed s.core p); source = source })
    filled s (source, p, failed err) =
        (false, record s { core = record (feed s.core p) { err = some err }; source = source })

    -- `fillCore`
    unfoldable pub fill_core : ℕ → Reader Source Error → Option (Bool × Reader Source Error)
    fill_core fuel s =
        if s.core.eof
        then some (false, s)
        else (read_block fuel s.read_size s.source [] >>= λ r. some (filled s r))

    module _ (batch : List ℕ → List ℕ → ℕ → Option (List ℕ)) where
      -- `Next`, on fuel for its loop and for that of each call of `fillCore`.
      unfoldable pub next_read : ℕ → ℕ → Reader Source Error → Option (Bool × Reader Source Error)
      next_read zero fuel s = none
      next_read (suc rounds) fuel s = do
        (state, c) ← next batch s.core
        elim state [
          | emitted ↦ some (true, record s { core = c })
          | core_done ↦ some (false, record s { core = c })
          | need_more ↦ fill_core fuel (record s { core = c }) >>= λ r. elim r.0 [
            | true ↦ next_read rounds fuel r.1
            | false ↦ elim r.1.core.err [
              | some err ↦ some (false, r.1)
              | none ↦ next_read rounds fuel r.1
            ]
          ]
        ]

      -- The loop `for s.Next() { … s.Sums() … }`, on fuel: the sums of all batches.
      unfoldable pub drain_reader :
          ℕ → ℕ → ℕ → Reader Source Error → Option (List ℕ × Reader Source Error)
      drain_reader zero rounds fuel s = none
      drain_reader (suc calls) rounds fuel s = do
        (more, s') ← next_read rounds fuel s
        elim more [
          | true ↦
              drain_reader calls rounds fuel s' >>= λ r. some (handed emitted s'.core ++ r.0, r.1)
          | false ↦ some ([], s')
        ]
