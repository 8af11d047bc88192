-- ===== src/BatchReader/Stream.antt =====
-- batchroller.go: `batchRoller` over a whole stream.
use rollinghash.Prelude.{
  ℕ, zero, suc, ◌+◌, ◌≤◌, ◌<◌, inl, inr, ◌≡◌, refl, sym, ap, ◌∙◌, arith, List, [], ◌++◌, append-nil,
  append_assoc, Option, none, some, length, IsBytes,
}
use rollinghash.Kernel.{window_sums, max_window}
use rollinghash.BatchRoller.{new_core, with_buffer_size, configured}
use rollinghash.BatchRoller.Contract.{IsBatchRoll}
use rollinghash.BatchRoller.Walk.{position, position-le, Finished, configured-Walks}
use rollinghash.BatchRoller.Next.{handed_emitted}
use rollinghash.BatchRoller.Outcome.{next-Finished}
use rollinghash.BatchReader.{Status, Reader, new_reader, next_read, drain_reader}
use rollinghash.BatchReader.Fill.{IsReader}
use rollinghash.BatchReader.Serve.{Going, Serves, Stops, fed-le, next_read-Going}

module _ {Source Error : Type 0} (read : Source → ℕ → Source × List ℕ × Status Error)
    (remaining : Source → List ℕ) (io : IsReader read remaining)
    (batch : List ℕ → List ℕ → ℕ → Option (List ℕ)) (checksum : List ℕ → ℕ)
    (contract : IsBatchRoll batch checksum) (w size : ℕ) (pos : 0 < w) (small : w < max_window)
    (fits : w ≤ size) (stream : List ℕ) (stream_bytes : IsBytes stream) where
  abbrev Goes : Reader Source Error → List ℕ → Type 0
  Goes s out =
      Going read remaining io batch checksum contract w size pos small fits stream stream_bytes s
        out

  abbrev Serving : ℕ → ℕ → Reader Source Error → List ℕ → ℕ → Type 0
  Serving rounds fuel s out at =
      Serves read remaining io batch checksum contract w size pos small fits stream stream_bytes
        rounds fuel s out at

  abbrev Stopping : ℕ → ℕ → Reader Source Error → List ℕ → Type 0
  Stopping rounds fuel s out =
      Stops read remaining io batch checksum contract w size pos small fits stream stream_bytes
        rounds fuel s out

  -- The loop over `Next` has returned the sums that were still to come.
  pub record Drained (calls rounds : ℕ) (s : Reader Source Error) (out : List ℕ) : Type 0 where
    pub sums : List ℕ
    pub after : Reader Source Error
    pub returns : drain_reader read batch calls (suc (suc rounds)) (suc size) s ≡ some (sums, after)
    pub no_error : after.core.err ≡ none
    pub all_sums : out ++ sums ≡ window_sums checksum w stream

  last_call :
      (calls rounds : ℕ) (s : Reader Source Error) (out : List ℕ)
      → Stopping (suc (suc rounds)) (suc size) s out
      → Drained (suc calls) rounds s out
  unfolding drain_reader
  last_call calls rounds s out h = record {
    sums = [];
    after = h.after;
    returns = rw h.returns refl;
    no_error = h.no_error;
    all_sums = append-nil out ∙ h.all_sums;
  }

  one_batch_more :
      (calls rounds : ℕ) (s : Reader Source Error) (out : List ℕ) (at : ℕ)
      → (e : Serving (suc (suc rounds)) (suc size) s out at)
      → Drained calls rounds e.after (out ++ e.sums)
      → Drained (suc calls) rounds s out
  unfolding drain_reader
  one_batch_more calls rounds s out at e d = record {
    sums = e.sums ++ d.sums;
    after = d.after;
    returns = rw (e.returns, d.returns, handed_emitted e.after.core e.sums e.hands) refl;
    no_error = d.no_error;
    all_sums = sym (append_assoc out e.sums d.sums) ∙ d.all_sums;
  }

  drain-Finished :
      (calls rounds : ℕ) (s : Reader Source Error) (out : List ℕ)
      → Finished checksum w size s.core stream out
      → 0 < calls
      → Drained calls rounds s out
  drain-Finished zero rounds s out h positive = absurd (omega arith)
  drain-Finished (suc calls) rounds s out h positive =
      last_call calls rounds s out (stopped_finished (suc rounds) s out h)
    where
      stopped_finished :
          (rounds : ℕ) (s : Reader Source Error) (out : List ℕ)
          → Finished checksum w size s.core stream out
          → Stopping (suc rounds) (suc size) s out
      stopped_finished rounds s out h =
          let e = next-Finished batch checksum contract w size pos small fits s.core stream out h in
          record {
            after = record s { core = e.after };
            returns = unfold next_read in (rw e.returns refl);
            no_error = e.finished.no_error;
            all_sums = e.finished.all_sums;
          }

  drain-Going :
      (calls rounds : ℕ) (s : Reader Source Error) (out : List ℕ)
      → Goes s out
      → length stream + 1 < calls + position s.core
      → Drained calls rounds s out
  drain-Going zero rounds s out h enough = absurd (
      omega (
        arith,
        fed-le read remaining io batch checksum contract w size pos small fits stream stream_bytes s
            out h,
        position-le checksum w size s.core h.fed out pos h.walks,
      ))
  drain-Going (suc calls) rounds s out h enough =
      elim (next_read-Going read remaining io batch checksum contract w size pos small fits stream
        stream_bytes rounds s out h) [
          | inl e ↦ one_batch_more calls rounds s out (position s.core) e (elim e.then [
            | inl going ↦
                drain-Going calls rounds e.after (out ++ e.sums) going.0
                  (omega (arith, going.1, enough))
            | inr finished ↦ drain-Finished calls rounds e.after (out ++ e.sums) finished (
                omega (
                  arith,
                  enough,
                  fed-le read remaining io batch checksum contract w size pos small fits stream
                      stream_bytes s out h,
                  position-le checksum w size s.core h.fed out pos h.walks,
                ))
          ])
          | inr stops ↦ last_call calls rounds s out stops
        ]

  new_reader-Going :
      (source : Source) (option : Option ℕ)
      → (configured {Error = Error} w option).batch_size ≡ size
      → remaining source ≡ stream
      → Goes (new_reader source w option) []
  unfolding new_reader configured new_core with_buffer_size
  new_reader-Going source none e r = record {
    fed = [];
    walks = configured-Walks checksum w size none e;
    read_size = e;
    split = inl (refl, r);
  }
  new_reader-Going source (some n) e r = record {
    fed = [];
    walks = configured-Walks checksum w size (some n) e;
    read_size = e;
    split = inl (refl, r);
  }

  -- For a hash whose `BatchRoll` keeps its contract, a window of 1 to 2 ^ 32 - 1 bytes, a batch size
  -- of at least the window and a reader that keeps the contract of `io.Reader` and does not fail:
  -- the loop over `Next` of a new batch roller ends without a panic and without an error, within two
  -- calls more than the stream has bytes, each of at most two rounds, and the sums of its batches
  -- are the checksums of all windows of the stream, in order, however the reader cuts it.
  pub drain_reader-new_reader :
      (source : Source) (option : Option ℕ) (calls rounds : ℕ)
      → (configured {Error = Error} w option).batch_size ≡ size
      → remaining source ≡ stream
      → length stream + 1 < calls
      → (s' : Reader Source Error) × (drain_reader read batch calls
            (suc (suc rounds))
            (suc size)
            (new_reader source w option)
          ≡ some (window_sums checksum w stream, s'))
        × (s'.core.err ≡ none)
  drain_reader-new_reader source option calls rounds e r enough =
      let d =
        drain-Going calls rounds (new_reader source w option) []
          (new_reader-Going source option e r) (omega (arith, enough)) in
      (d.after, d.returns ∙ ap (λ t. some (t, d.after)) d.all_sums, d.no_error)
