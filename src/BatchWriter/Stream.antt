-- ===== src/BatchWriter/Stream.antt =====
-- batchwriter.go: a whole stream, with any calls of `Write` and `Next`.
use rollinghash.Prelude.{
  ℕ, ◌+◌, ◌≤◌, ◌<◌, inl, inr, ◌≡◌, refl, sym, ◌∙◌, arith, true, List, [], ◌∷◌, ◌++◌, append-nil,
  append_assoc, Option, some, length, IsBytes, All-front, All-back, subst,
}
use rollinghash.Kernel.{window_sums, max_window}
use rollinghash.BatchRoller.{Core, CoreState, configured, need_more, emitted, next, handed, close}
use rollinghash.BatchRoller.Contract.{IsBatchRoll}
use rollinghash.BatchRoller.Walk.{Walks}
use rollinghash.BatchRoller.Next.{handed_emitted}
use rollinghash.BatchRoller.Outcome.{next_lem}
use rollinghash.BatchRoller.Drain.{drain_lem}
use rollinghash.BatchWriter.{
  Writer, err_closed, Call, write_call, next_call, new_writer, write, close_writer, reset_writer,
  run, run_to_end, written,
}
use rollinghash.BatchWriter.Pending.{
  Open, new_writer-Open, reset_writer-Open, write-Open, close_writer-Walks,
}

close_writer-eof : {Error : Type 0} (wr : Writer Error) → (close_writer wr).core.eof ≡ true
unfolding close_writer close
close_writer-eof wr = refl

write-closed :
    {Error : Type 0} (wr : Writer Error) (p : List ℕ)
    → wr.core.eof ≡ true
    → write wr p ≡ some (wr, 0, some err_closed)
unfolding write
write-closed wr p e = rw e refl

module _ {Error : Type 0} (batch : List ℕ → List ℕ → ℕ → Option (List ℕ)) (checksum : List ℕ → ℕ)
    (contract : IsBatchRoll batch checksum) (w size : ℕ) (pos : 0 < w) (small : w < max_window)
    (fits : w ≤ size) where
  -- The calls of a caller on an open writer that was given `given` and has handed out `out`.
  pub record Runs (wr : Writer Error) (calls : List Call) (given out : List ℕ) : Type 0 where
    pub sums : List ℕ
    pub after : Writer Error
    pub returns : run batch wr calls ≡ some (sums, after)
    pub is_open : Open checksum w size after (given ++ written calls) (out ++ sums)

  -- A call of `Next` on an open writer, with the calls after it.
  pub record Steps (wr : Writer Error) (given out : List ℕ) : Type 0 where
    pub state : CoreState
    pub after : Core Error
    pub returns : next batch wr.core ≡ some (state, after)
    pub is_open :
        Open checksum w size (record wr { core = after }) given (out ++ handed state after)

  next-Open :
      (wr : Writer Error) (given out : List ℕ)
      → Open checksum w size wr given out
      → Steps wr given out
  next-Open wr given out h =
      elim (next_lem batch checksum contract w size pos small fits wr.core h.fed out
        (inl h.walks)) [
          | inl e ↦ elim e.handed_out [
            | inl walks ↦ record {
              state = emitted;
              after = e.after;
              returns = e.returns;
              is_open = record {
                fed = h.fed;
                walks =
                    subst (λ t. Walks checksum w size e.after h.fed (out ++ t))
                      (sym (handed_emitted e.after _ e.sums)) walks.0;
                is_open = e.same_eof ∙ h.is_open;
                no_byte_lost = h.no_byte_lost;
                bytes = h.bytes;
                short = h.short;
              };
            }
            | inr finished ↦ absurd (cc (finished.is_eof, e.same_eof, h.is_open))
          ]
          | inr (inl waits) ↦ record {
            state = need_more;
            after = waits.after;
            returns = waits.returns;
            is_open = rw (append-nil out) record {
              fed = h.fed;
              walks = waits.walks;
              is_open = waits.same_eof;
              no_byte_lost = h.no_byte_lost;
              bytes = h.bytes;
              short = h.short;
            };
          }
          | inr (inr ends) ↦ absurd (cc (ends.is_closed, h.is_open))
        ]

  run-Open :
      (wr : Writer Error) (calls : List Call) (given out : List ℕ)
      → Open checksum w size wr given out
      → IsBytes (written calls)
      → Runs wr calls given out
  unfolding run
  run-Open wr [] given out h bytes = record {
    sums = [];
    after = wr;
    returns = refl;
    is_open = rw (append-nil given, append-nil out) h;
  }
  run-Open wr (write_call p ∷ calls) given out h bytes =
      let (wr', returns, opened) =
        write-Open checksum w size wr given out p h
          (All-front (λ x. x < 256) p (written calls) bytes) (omega (arith, pos, fits)) in
      let rest =
        run-Open wr' calls (given ++ p) out opened
          (All-back (λ x. x < 256) p (written calls) bytes) in
      record {
        sums = rest.sums;
        after = rest.after;
        returns = rw (returns, rest.returns) refl;
        is_open = rw (← append_assoc given p (written calls)) rest.is_open;
      }
  run-Open wr (next_call ∷ calls) given out h bytes =
      let step = next-Open wr given out h in
      let handed_now : List ℕ = handed step.state step.after in
      let rest =
        run-Open (record wr { core = step.after }) calls given (out ++ handed_now) step.is_open
          bytes in
      record {
        sums = handed_now ++ rest.sums;
        after = rest.after;
        returns = rw (step.returns, rest.returns) refl;
        is_open = rw (← append_assoc out handed_now rest.sums) rest.is_open;
      }

  stream-Open :
      (wr : Writer Error) (calls : List Call) (fuel : ℕ)
      → Open checksum w size wr [] []
      → IsBytes (written calls)
      → length (written calls) + 1 < fuel
      → (wr' : Writer Error) × (run_to_end batch wr calls fuel
          ≡ some (window_sums checksum w (written calls), wr'))
        × ((p : List ℕ) → write wr' p ≡ some (wr', 0, some err_closed))
  unfolding run_to_end
  stream-Open wr calls fuel h bytes enough =
      let r = run-Open wr calls [] [] h bytes in
      let closed : Writer Error = close_writer r.after in
      let d =
        drain_lem batch checksum contract w size pos small fits fuel closed.core (written calls)
          r.sums (inl (close_writer-Walks checksum w size r.after (written calls) r.sums r.is_open))
          (omega arith) (λ _. omega arith) in
      (
        record closed { core = d.after },
        rw (r.returns, d.returns, d.all_sums) refl,
        λ p.
            write-closed (record closed { core = d.after }) p
              (d.same_eof ∙ close_writer-eof r.after),
      )

  -- For a hash whose `BatchRoll` keeps its contract, a window of 1 to 2 ^ 32 - 1 bytes and a batch
  -- size of at least the window: whatever the calls of `Write` and `Next` on a new batch writer, in
  -- any order, none panics, and after `Close` the draining loop ends within two rounds more than
  -- there are bytes. The sums handed out on the way and at the end are together the checksums of all
  -- windows of the bytes written, in order, and a later `Write` changes nothing and returns 0 and
  -- `ErrClosed`.
  pub run_to_end-new_writer :
      (option : Option ℕ) (calls : List Call) (fuel : ℕ)
      → (configured {Error = Error} w option).batch_size ≡ size
      → IsBytes (written calls)
      → length (written calls) + 1 < fuel
      → (wr' : Writer Error) × (run_to_end batch (new_writer w option) calls fuel
          ≡ some (window_sums checksum w (written calls), wr'))
        × ((p : List ℕ) → write wr' p ≡ some (wr', 0, some err_closed))
  run_to_end-new_writer option calls fuel e bytes enough =
      stream-Open (new_writer w option) calls fuel
        (new_writer-Open checksum w size option e (omega (arith, pos, fits))) bytes enough

  -- For a hash whose `BatchRoll` keeps its contract, a window of 1 to 2 ^ 32 - 1 bytes and a batch
  -- size of at least the window: any batch writer with that window and batch size, also a closed
  -- one, behaves after a `Reset` like a new one. Whatever the calls of `Write` and `Next`, none
  -- panics, after `Close` the draining loop ends within two rounds more than there are bytes, the
  -- sums are together the checksums of all windows of the bytes written since, in order, and a
  -- later `Write` changes nothing and returns 0 and `ErrClosed`.
  pub run_to_end-reset_writer :
      (wr : Writer Error) (calls : List Call) (fuel : ℕ)
      → wr.core.window ≡ w
      → wr.core.batch_size ≡ size
      → IsBytes (written calls)
      → length (written calls) + 1 < fuel
      → (wr' : Writer Error) × (run_to_end batch (reset_writer wr) calls fuel
          ≡ some (window_sums checksum w (written calls), wr'))
        × ((p : List ℕ) → write wr' p ≡ some (wr', 0, some err_closed))
  run_to_end-reset_writer wr calls fuel ew es bytes enough =
      stream-Open (reset_writer wr) calls fuel
        (reset_writer-Open checksum w size wr ew es (omega (arith, pos, fits))) bytes enough
