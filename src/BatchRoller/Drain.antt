-- ===== src/BatchRoller/Drain.antt =====
-- The loop of a caller over `next` of batchroller.go.
use rollinghash.Prelude.{
  ℕ, zero, suc, ◌+◌, ◌≤◌, ◌<◌, inl, inr, ◌≡◌, refl, sym, ◌∙◌, arith, List, [], ◌++◌, append-nil,
  append_assoc, Option, some, length, slice,
}
use rollinghash.Kernel.{window_sums, max_window}
use rollinghash.BatchRoller.{Core, drain}
use rollinghash.BatchRoller.Contract.{IsBatchRoll}
use rollinghash.BatchRoller.Walk.{position, position-le, Walks, Finished}
use rollinghash.BatchRoller.Next.{Emits, Waits, Ends, Holds}
use rollinghash.BatchRoller.Outcome.{next-Finished, next_lem}

module _ {Error : Type 0} (batch : List ℕ → List ℕ → ℕ → Option (List ℕ)) (checksum : List ℕ → ℕ)
    (contract : IsBatchRoll batch checksum) (w size : ℕ) (pos : 0 < w) (small : w < max_window)
    (fits : w ≤ size) where
  -- The loop returns the sums that were still to come, and leaves a state of the stream.
  pub record Drains (fuel : ℕ) (c : Core Error) (fed out : List ℕ) : Type 0 where
    pub sums : List ℕ
    pub after : Core Error
    pub returns : drain batch fuel c ≡ some (sums, after)
    pub all_sums : out ++ sums ≡ window_sums checksum w fed
    pub same_eof : after.eof ≡ c.eof
    pub holds : Holds batch checksum contract w size pos small fits after fed (out ++ sums)

  -- Rounds that are enough from a state of the stream.
  abbrev pub Enough : ℕ → Core Error → List ℕ → Type 0
  Enough fuel c fed = length fed + 1 < fuel + position c

  drained_waiting :
      (fuel : ℕ) (c : Core Error) (fed out : List ℕ)
      → Waits batch checksum contract w size pos small fits c fed out (position c)
      → Drains (suc fuel) c fed out
  unfolding drain
  drained_waiting fuel c fed out h = record {
    sums = [];
    after = h.after;
    returns = rw h.returns refl;
    all_sums = append-nil out ∙ h.all_sums;
    same_eof = h.same_eof ∙ sym h.is_open;
    holds = inl (rw (append-nil out) h.walks);
  }

  drained_at_end :
      (fuel : ℕ) (c : Core Error) (fed out : List ℕ)
      → Ends batch checksum contract w size pos small fits c fed out
      → Drains (suc fuel) c fed out
  unfolding drain
  drained_at_end fuel c fed out h = record {
    sums = [];
    after = h.after;
    returns = rw h.returns refl;
    all_sums = append-nil out ∙ h.finished.all_sums;
    same_eof = h.finished.is_eof ∙ sym h.is_closed;
    holds = inr (rw (append-nil out) h.finished);
  }

  drained_batch :
      (fuel : ℕ) (c : Core Error) (fed out : List ℕ)
      → (e : Emits batch checksum contract w size pos small fits c fed out (position c))
      → Drains fuel e.after fed (out ++ window_sums checksum w (slice (position c) e.count fed))
      → Drains (suc fuel) c fed out
  unfolding drain
  drained_batch fuel c fed out e d =
      let batch_sums : List ℕ = window_sums checksum w (slice (position c) e.count fed) in
      let assoc = append_assoc out batch_sums d.sums in
      record {
        sums = batch_sums ++ d.sums;
        after = d.after;
        returns = rw (e.returns, d.returns, e.sums) refl;
        all_sums = sym assoc ∙ d.all_sums;
        same_eof = d.same_eof ∙ e.same_eof;
        holds = rw (← assoc) d.holds;
      }

  drain-Finished :
      (fuel : ℕ) (c : Core Error) (fed out : List ℕ)
      → Finished checksum w size c fed out
      → 0 < fuel
      → Drains fuel c fed out
  drain-Finished zero c fed out h positive = absurd (omega arith)
  drain-Finished (suc fuel) c fed out h positive =
      drained_at_end fuel c fed out
        (next-Finished batch checksum contract w size pos small fits c fed out h)

  drain-Walks :
      (fuel : ℕ) (c : Core Error) (fed out : List ℕ)
      → Walks checksum w size c fed out
      → Enough fuel c fed
      → Drains fuel c fed out
  drain-Walks zero c fed out h enough =
      let within = position-le checksum w size c fed out pos h in absurd (omega (arith, within))
  drain-Walks (suc fuel) c fed out h enough =
      elim (next_lem batch checksum contract w size pos small fits c fed out (inl h)) [
        | inl e ↦ drained_batch fuel c fed out e (elim e.handed_out [
          | inl walks ↦ drain-Walks fuel e.after fed _ walks.0 (omega (arith, walks.1, enough))
          | inr finished ↦
              drain-Finished fuel e.after fed _ finished
                (omega (arith, e.fits_batch.2, e.fits_batch.0, enough))
        ])
        | inr (inl waits) ↦ drained_waiting fuel c fed out waits
        | inr (inr ends) ↦ drained_at_end fuel c fed out ends
      ]

  -- For a hash whose `BatchRoll` keeps its contract, a window of 1 to 2 ^ 32 - 1 bytes and a batch
  -- size of at least the window: `for s.Next() { … }` ends without a panic after at most two rounds
  -- more than there are bytes to come, and the sums of its batches, after those handed out before,
  -- are the checksums of all windows of the bytes fed, in order, none skipped or repeated.
  pub drain_lem :
      (fuel : ℕ) (c : Core Error) (fed out : List ℕ)
      → Holds batch checksum contract w size pos small fits c fed out
      → 0 < fuel
      → (Walks checksum w size c fed out → Enough fuel c fed)
      → Drains fuel c fed out
  drain_lem fuel c fed out (inl h) positive enough = drain-Walks fuel c fed out h (enough h)
  drain_lem fuel c fed out (inr h) positive enough = drain-Finished fuel c fed out h positive
