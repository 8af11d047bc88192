-- ===== src/BatchReader/Serve.antt =====
-- batchroller.go: `Next` of `batchRoller` in the middle of a stream.
use rollinghash.Prelude.{
  ℕ, suc, ◌+◌, ◌≤◌, ◌<◌, ◌⊎◌, inl, inr, ◌≡◌, refl, sym, ap, ◌∙◌, arith, true, false, List, [], ◌++◌,
  append-nil, append_assoc, Option, none, some, length, length-append, slice, IsBytes, All-front,
  All-back, subst,
}
use rollinghash.Kernel.{window_sums, max_window}
use rollinghash.BatchRoller.{Core, feed, close}
use rollinghash.BatchRoller.Contract.{IsBatchRoll}
use rollinghash.BatchRoller.Walk.{position, position-le, Walks, Finished, feed-Walks, close-Walks}
use rollinghash.BatchRoller.Next.{Emits, Waits, Ends}
use rollinghash.BatchRoller.Outcome.{next_lem}
use rollinghash.BatchReader.{Status, Reader, filled, fill_core, next_read}
use rollinghash.BatchReader.Fill.{IsReader, Blocks, read_block_lem}

module _ {Source Error : Type 0} (read : Source → ℕ → Source × List ℕ × Status Error)
    (remaining : Source → List ℕ) (io : IsReader read remaining)
    (batch : List ℕ → List ℕ → ℕ → Option (List ℕ)) (checksum : List ℕ → ℕ)
    (contract : IsBatchRoll batch checksum) (w size : ℕ) (pos : 0 < w) (small : w < max_window)
    (fits : w ≤ size) (stream : List ℕ) (stream_bytes : IsBytes stream) where
  -- The roller has read a part of `stream`, its reader still has the rest, and `out` is handed out.
  pub record Going (s : Reader Source Error) (out : List ℕ) : Type 0 where
    pub fed : List ℕ
    pub walks : Walks checksum w size s.core fed out
    pub read_size : s.read_size ≡ size
    pub split :
        ((s.core.eof ≡ false) × (fed ++ remaining s.source ≡ stream))
        ⊎ ((s.core.eof ≡ true) × (fed ≡ stream))

  pub fed-le :
      (s : Reader Source Error) (out : List ℕ) → (h : Going s out) → length h.fed ≤ length stream
  fed-le s out h = elim h.split [
    | inl e ↦ omega (arith, ap length e.1, length-append h.fed (remaining s.source))
    | inr e ↦ omega (arith, ap length e.1)
  ]

  -- `Next` hands out a batch.
  pub record Serves (rounds fuel : ℕ) (s : Reader Source Error) (out : List ℕ) (at : ℕ)
      : Type 0 where
    pub after : Reader Source Error
    pub sums : List ℕ
    pub returns : next_read read batch rounds fuel s ≡ some (true, after)
    pub hands : after.core.sums ≡ some sums
    pub then :
        (Going after (out ++ sums) × (at < position after.core))
        ⊎ Finished checksum w size after.core stream (out ++ sums)

  -- `Next` returns false, with no error, after the sums of the whole stream.
  pub record Stops (rounds fuel : ℕ) (s : Reader Source Error) (out : List ℕ) : Type 0 where
    pub after : Reader Source Error
    pub returns : next_read read batch rounds fuel s ≡ some (false, after)
    pub no_error : after.core.err ≡ none
    pub all_sums : out ≡ window_sums checksum w stream

  served :
      (rounds fuel : ℕ) (s : Reader Source Error) (out : List ℕ)
      → (h : Going s out)
      → Emits batch checksum contract w size pos small fits s.core h.fed out (position s.core)
      → Serves (suc rounds) fuel s out (position s.core)
  unfolding next_read
  served rounds fuel s out h e = record {
    after = record s { core = e.after };
    sums = window_sums checksum w (slice (position s.core) e.count h.fed);
    returns = rw e.returns refl;
    hands = e.sums;
    then = elim e.handed_out [
      | inl walks ↦ inl (
        record {
          fed = h.fed;
          walks = walks.0;
          read_size = h.read_size;
          split = elim h.split [
            | inl open_now ↦ inl (e.same_eof ∙ open_now.0, open_now.1)
            | inr closed ↦ inr (e.same_eof ∙ closed.0, closed.1)
          ];
        },
        walks.1,
      )
      | inr finished ↦ inr (elim h.split [
        | inl open_now ↦ absurd (cc (finished.is_eof, e.same_eof, open_now.0))
        | inr closed ↦
            subst
              (λ t.
                Finished checksum w size e.after t
                  (out ++ window_sums checksum w (slice (position s.core) e.count h.fed)))
              closed.1 finished
      ])
    ];
  }

  stopped :
      (rounds fuel : ℕ) (s : Reader Source Error) (out : List ℕ)
      → (h : Going s out) → Ends batch checksum contract w size pos small fits s.core h.fed out
      → Stops (suc rounds) fuel s out
  unfolding next_read
  stopped rounds fuel s out h e = record {
    after = record s { core = e.after };
    returns = rw e.returns refl;
    no_error = e.finished.no_error;
    all_sums =
        e.finished.all_sums
        ∙ ap (window_sums checksum w) (elim h.split [
          | inl open_now ↦ absurd (cc (e.is_closed, open_now.0))
          | inr closed ↦ closed.1
        ]);
  }

  -- With a complete window in the buffer, or after the end of the stream, `Next` does not read.
  next_ready :
      (rounds fuel : ℕ) (s : Reader Source Error) (out : List ℕ)
      → (h : Going s out) → (s.core.eof ≡ true) ⊎ (position s.core + w ≤ length h.fed)
      → Serves (suc rounds) fuel s out (position s.core) ⊎ Stops (suc rounds) fuel s out
  next_ready rounds fuel s out h ready =
      elim (next_lem batch checksum contract w size pos small fits s.core h.fed out (inl h.walks)) [
        | inl e ↦ inl (served rounds fuel s out h e)
        | inr (inl waits) ↦ elim ready [
          | inl at_end ↦ absurd (cc (waits.is_open, at_end))
          | inr enough ↦ absurd (omega (arith, waits.few))
        ]
        | inr (inr ends) ↦ inr (stopped rounds fuel s out h ends)
      ]

  -- The reader after `fillCore` has read a block.
  refilled : Reader Source Error → Core Error → Source × List ℕ × Status Error → Reader Source Error
  refilled s c r = (filled read (record s { core = c }) r).1

  -- A block was read: the rest of the stream is that of the reader, or there is none.
  refilled-Going :
      (s : Reader Source Error) (out : List ℕ)
      → (h : Going s out)
      → (k : Waits batch checksum contract w size pos small fits s.core h.fed out (position s.core))
      → h.fed ++ remaining s.source ≡ stream
      → (b : Blocks read remaining io (suc size) size s.source [])
      → (g : Going (refilled s k.after (b.source, b.bytes, b.status)) out) × ((position
              (refilled s k.after (b.source, b.bytes, b.status)).core
            ≡ position s.core)
          × (((refilled s k.after (b.source, b.bytes, b.status)).core.eof ≡ true)
              ⊎ (position (refilled s k.after (b.source, b.bytes, b.status)).core + w
                  ≤ length g.fed)))
  unfolding refilled filled feed close
  refilled-Going s out h k rest b =
      let joined : (h.fed ++ b.bytes) ++ remaining b.source ≡ stream =
        append_assoc h.fed b.bytes (remaining b.source)
        ∙ ap (λ t. h.fed ++ t) (sym b.gives)
        ∙ rest in
      let bytes : IsBytes b.bytes =
        All-back (λ x. x < 256) h.fed b.bytes
          (All-front (λ x. x < 256) (h.fed ++ b.bytes) (remaining b.source)
            (subst IsBytes (sym joined) stream_bytes)) in
      let walks : Walks checksum w size (feed k.after b.bytes) (h.fed ++ b.bytes) out =
        feed-Walks checksum w size k.after h.fed out b.bytes k.walks bytes in
      elim b.reason [
        | inl full ↦ rw full.0 (
          record {
            fed = h.fed ++ b.bytes;
            walks = walks;
            read_size = h.read_size;
            split = inl (k.same_eof, joined);
          },
          (
            k.same_position,
            inr (
                omega (
                  arith,
                  full.1,
                  length-append h.fed b.bytes,
                  fits,
                  position-le checksum w size k.after h.fed out pos k.walks,
                )),
          ),
        )
        | inr ended ↦ rw ended.0 (
          record {
            fed = h.fed ++ b.bytes;
            walks = close-Walks checksum w size (feed k.after b.bytes) (h.fed ++ b.bytes) out walks;
            read_size = h.read_size;
            split = inr (
              refl,
              sym (append-nil (h.fed ++ b.bytes))
                  ∙ ap (λ t. (h.fed ++ b.bytes) ++ t) (sym ended.1)
                  ∙ joined,
            );
          },
          (k.same_position, inl refl),
        )
      ]

  -- `Next` goes on with the refilled reader.
  next_read-refilled :
      (rounds : ℕ) (s : Reader Source Error) (out : List ℕ)
      → (h : Going s out)
      → (k : Waits batch checksum contract w size pos small fits s.core h.fed out (position s.core))
      → (b : Blocks read remaining io (suc size) size s.source [])
      → next_read read batch (suc rounds) (suc size) s
        ≡ next_read read batch rounds (suc size) (refilled s k.after (b.source, b.bytes, b.status))
  unfolding next_read fill_core refilled filled feed close
  next_read-refilled rounds s out h k b = elim b.reason [
    | inl full ↦ rw (k.returns, k.same_eof, h.read_size, b.returns, full.0) refl
    | inr ended ↦ rw (k.returns, k.same_eof, h.read_size, b.returns, ended.0, k.walks.no_error) refl
  ]

  pub next_read-Going :
      (rounds : ℕ) (s : Reader Source Error) (out : List ℕ)
      → Going s out
      → Serves (suc (suc rounds)) (suc size) s out (position s.core)
        ⊎ Stops (suc (suc rounds)) (suc size) s out
  next_read-Going rounds s out h =
      elim (next_lem batch checksum contract w size pos small fits s.core h.fed out (inl h.walks)) [
        | inl e ↦ inl (served (suc rounds) (suc size) s out h e)
        | inr (inl waits) ↦ elim h.split [
          | inl open_now ↦ next_read-waiting rounds s out h waits open_now.1
          | inr closed ↦ absurd (cc (waits.is_open, closed.0))
        ]
        | inr (inr ends) ↦ inr (stopped (suc rounds) (suc size) s out h ends)
      ]
    where
      next_read-waiting :
          (rounds : ℕ) (s : Reader Source Error) (out : List ℕ)
          → (h : Going s out)
          → Waits batch checksum contract w size pos small fits s.core h.fed out (position s.core)
          → h.fed ++ remaining s.source ≡ stream
          → Serves (suc (suc rounds)) (suc size) s out (position s.core)
            ⊎ Stops (suc (suc rounds)) (suc size) s out
      next_read-waiting rounds s out h k rest =
          let b = read_block_lem read remaining io (suc size) size s.source [] (omega arith) in
          let e = next_read-refilled (suc rounds) s out h k b in
          let (g, (same, ready)) = refilled-Going s out h k rest b in
          elim (next_ready rounds (suc size) _ out g ready) [
            | inl serves ↦ inl record {
              after = serves.after;
              sums = serves.sums;
              returns = e ∙ serves.returns;
              hands = serves.hands;
              then = elim serves.then [
                | inl going ↦ inl (going.0, omega (arith, going.1, same))
                | inr finished ↦ inr finished
              ];
            }
            | inr stops ↦ inr record {
              after = stops.after;
              returns = e ∙ stops.returns;
              no_error = stops.no_error;
              all_sums = stops.all_sums;
            }
          ]
