-- ===== src/BatchRoller.antt =====
-- batchroller.go: `batchRollerCore`, which the batch roller and the batch writer wrap. The hash's
-- `BatchRoll` is the parameter `batch`: the slice `dst` after the call, from `dst`, `data` and
-- `window`.
pub mod Contract
pub mod Walk
pub mod Next
pub mod Outcome
pub mod Drain
use rollinghash.Prelude.{
  ℕ, zero, suc, ◌+◌, ◌-◌, min, max, ltb, ◌==◌, if◌then◌else◌, Bool, true, false, ◌&&◌, ◌||◌, List,
  [], ◌++◌, Option, none, some, ◌>>=◌, length, take, drop, replicate,
}

-- `coreState`
pub data CoreState : Type 0 where
  need_more : CoreState
  emitted : CoreState
  core_done : CoreState

-- `bytes` is the field `data`; a nil slice is `none`. `sums_store` is the whole backing array.
pub record Core (Error : Type 0) : Type 0 where
  pub window : ℕ
  pub batch_size : ℕ
  pub buf : List ℕ
  pub carry : ℕ
  pub prev_n : ℕ
  pub bytes : Option (List ℕ)
  pub sums : Option (List ℕ)
  pub sums_store : List ℕ
  pub offset : ℕ
  pub eof : Bool
  pub done : Bool
  pub err : Option Error

-- `defaultBatchRollerBufSize`
abbrev pub default_buf_size : ℕ
default_buf_size = 65536

module _ {Error : Type 0} where
  -- `newBatchRollerCore`, for a hash that has `BatchRoll`
  unfoldable pub new_core : ℕ → ℕ → Core Error
  new_core window batch_size = record {
    window = window;
    batch_size = max batch_size window;
    buf = [];
    carry = 0;
    prev_n = 0;
    bytes = none;
    sums = none;
    sums_store = [];
    offset = 0;
    eof = false;
    done = false;
    err = none;
  }

  -- `WithBufferSize`
  unfoldable pub with_buffer_size : ℕ → Core Error → Core Error
  with_buffer_size n c = record c { batch_size = n }

  -- The constructors of the wrappers: the default batch size, and then the option, if any.
  unfoldable pub configured : ℕ → Option ℕ → Core Error
  unfolding new_core with_buffer_size
  configured window none = new_core window default_buf_size
  configured window (some n) = with_buffer_size n (new_core window default_buf_size)

  -- `reset`
  unfoldable pub reset : Core Error → Core Error
  reset c = record c {
    buf = [];
    carry = 0;
    prev_n = 0;
    bytes = none;
    sums = none;
    offset = 0;
    eof = false;
    done = false;
    err = none;
  }

  -- `finish`
  unfoldable pub close : Core Error → Core Error
  close c = record c { eof = true }

  -- `feed`
  unfoldable pub feed : Core Error → List ℕ → Core Error
  feed c p = record c { buf = c.buf ++ p }

  -- The part of `next` that drops the bytes of the last batch, all but the carry.
  unfoldable pub drop_emitted : Core Error → Core Error
  drop_emitted c =
      if ltb 0 c.prev_n
      then record c {
        offset = c.offset + (c.prev_n - c.carry);
        buf = drop (c.prev_n - c.carry) c.buf;
        prev_n = 0;
      }
      else c

  -- No batch, and none to come.
  unfoldable pub ended : Core Error → CoreState × Core Error
  ended c = (core_done, record c { done = true; bytes = none; sums = none; offset = 0 })

  abbrev pub is_error : Option Error → Bool
  is_error none = false
  is_error (some err) = true

  -- The sums that a call of `next` hands out.
  abbrev pub handed : CoreState → Core Error → List ℕ
  handed emitted c = elim c.sums [ none ↦ [] | some sums ↦ sums ]
  handed need_more c = []
  handed core_done c = []

  module _ (batch : List ℕ → List ℕ → ℕ → Option (List ℕ)) where
    -- The part of `next` that hashes a batch. A negative number of sums is a panic.
    unfoldable pub emit : Core Error → Option (CoreState × Core Error)
    emit c =
        let n = min (length c.buf) c.batch_size in
        let nsums = n + 1 - c.window in
        let store = if ltb (length c.sums_store) nsums then replicate nsums 0 else c.sums_store in
        let last = c.eof && (n == length c.buf) in
        if ltb (n + 1) c.window then none else (do
          sums ← batch (take nsums store) (take n c.buf) c.window
          some (
            emitted,
            record c {
              bytes = some (take n c.buf);
              sums = some sums;
              sums_store = sums ++ drop nsums store;
              done = if last then true else c.done;
              carry = if last then 0 else c.window - 1;
              prev_n = n;
            },
          ))

    -- The part of `next` after the bytes of the last batch are dropped.
    unfoldable pub next_batch : Core Error → Option (CoreState × Core Error)
    next_batch c =
        if ltb (length c.buf) c.window
        then (if c.eof then some (ended c) else some (need_more, c))
        else emit c

    -- `next`
    unfoldable pub next : Core Error → Option (CoreState × Core Error)
    next c =
        if is_error c.err || c.done
        then some (core_done, record c { bytes = none; sums = none; offset = 0 })
        else next_batch (drop_emitted c)

    -- The loop `for s.Next() { … s.Sums() … }` of a caller, on fuel: the sums of all its batches.
    -- `none` is a panic or no fuel.
    unfoldable pub drain : ℕ → Core Error → Option (List ℕ × Core Error)
    drain zero c = none
    drain (suc fuel) c = do
      (state, c') ← next c
      elim state [
        | emitted ↦ drain fuel c' >>= λ r. some (handed emitted c' ++ r.0, r.1)
        | need_more ↦ some ([], c')
        | core_done ↦ some ([], c')
      ]
