-- ===== src/BatchRoller/Outcome.antt =====
-- batchroller.go: `next`.
use rollinghash.Prelude.{
  ℕ, ◌≤◌, ◌<◌, min, ltb, ◌==◌, ◌&&◌, Bool-cases, ◌⊎◌, inl, inr, ◌≡◌, refl, sym, ap, ◌∙◌, arith,
  true, false, List, Option, none, some, length, take, slice, subst, length-drop, IsBytes, All-drop,
}
use rollinghash.Kernel.{window_sums, max_window}
use rollinghash.BatchRoller.{Core, drop_emitted, next_batch, next, ended}
use rollinghash.BatchRoller.Contract.{IsBatchRoll}
use rollinghash.BatchRoller.Walk.{position, Walks, Finished, drop_emitted-Walks}
use rollinghash.BatchRoller.Next.{
  Emits, Waits, Ends, Holds, batched, emit_lem, batched-Holds, complete,
}

module _ {Error : Type 0} (batch : List ℕ → List ℕ → ℕ → Option (List ℕ)) (checksum : List ℕ → ℕ)
    (contract : IsBatchRoll batch checksum) (w size : ℕ) (pos : 0 < w) (small : w < max_window)
    (fits : w ≤ size) where
  -- What `next` may do on a core in the stream `fed` that has handed out `out`.
  abbrev pub Outcome : Core Error → List ℕ → List ℕ → ℕ → Type 0
  Outcome c fed out at =
      Emits batch checksum contract w size pos small fits c fed out at
      ⊎ (Waits batch checksum contract w size pos small fits c fed out at
          ⊎ Ends batch checksum contract w size pos small fits c fed out)

  next-running :
      (c : Core Error)
      → c.err ≡ none
      → c.done ≡ false
      → next batch c ≡ next_batch batch (drop_emitted c)
  unfolding next
  next-running c e d = rw (e, d)

  next-Emits :
      (c d : Core Error) (fed out : List ℕ)
      → next batch c ≡ next_batch batch d
      → Walks checksum w size d fed out
      → d.prev_n ≡ 0
      → d.eof ≡ c.eof
      → w ≤ length d.buf
      → Emits batch checksum contract w size pos small fits c fed out d.offset
  unfolding next_batch batched
  next-Emits c d fed out e h none_before same long =
      let n : ℕ = min (length d.buf) size in
      let enough : ltb (length d.buf) d.window ≡ false = ground (arith, h.window) in
      let bytes : IsBytes d.buf =
        subst IsBytes (sym h.buf) (All-drop (λ x. x < 256) d.offset fed h.in_range) in
      let chosen : min (length d.buf) d.batch_size ≡ n = ap (min (length d.buf)) h.batch_size in
      let slice_eq : take n d.buf ≡ slice d.offset n fed = ap (take n) h.buf in
      record {
        after =
            batched batch checksum contract w size pos small fits d n
              (d.eof && (n == length d.buf));
        count = n;
        returns =
            e
            ∙ rw enough (
                emit_lem batch checksum contract w size pos small fits d n h.window chosen
                  (omega arith) (omega arith) bytes);
        at_offset = refl;
        bytes = ap some slice_eq;
        sums = ap (λ t. some (window_sums checksum w t)) slice_eq;
        same_eof = same;
        fits_batch = (
          omega arith,
          omega arith,
          omega (arith, ap length h.buf, length-drop d.offset fed, h.offset_le),
        );
        handed_out =
            batched-Holds batch checksum contract w size pos small fits d fed out n h none_before
              (omega arith) (omega arith);
      }

  next-short :
      (c d : Core Error) (fed out : List ℕ)
      → next batch c ≡ next_batch batch d
      → Walks checksum w size d fed out
      → d.prev_n ≡ 0
      → d.eof ≡ c.eof
      → length d.buf < w
      → Waits batch checksum contract w size pos small fits c fed out d.offset
        ⊎ Ends batch checksum contract w size pos small fits c fed out
  unfolding next_batch ended
  next-short c d fed out e h none_before same short =
      let few : ltb (length d.buf) w ≡ true = ground arith in
      let all : out ≡ window_sums checksum w fed =
        complete batch checksum contract w size pos small fits d fed out h
          (omega (arith, ap length h.buf, length-drop d.offset fed, h.offset_le, none_before)) in
      elim (Bool-cases d.eof) [
        | inl at_end ↦ inr record {
          after = (ended d).1;
          returns = e ∙ rw (h.window, few, at_end) refl;
          is_closed = sym same ∙ at_end;
          nothing = (refl, refl);
          finished = record {
            no_error = h.no_error;
            is_done = refl;
            is_eof = at_end;
            all_sums = all;
          };
        }
        | inr more ↦ inl record {
          after = d;
          returns = e ∙ rw (h.window, few, more) refl;
          is_open = sym same ∙ more;
          same_eof = more;
          walks = h;
          same_position = omega (arith, none_before);
          few = omega (arith, ap length h.buf, length-drop d.offset fed, h.offset_le);
          all_sums = all;
        }
      ]

  next-Walks :
      (c : Core Error) (fed out : List ℕ)
      → Walks checksum w size c fed out
      → Outcome c fed out (position c)
  next-Walks c fed out h =
      let (h', none_before, at, same) = drop_emitted-Walks checksum w size c fed out pos h in
      let d : Core Error = drop_emitted c in
      let e = next-running c h.no_error h.running in
      subst (Outcome c fed out) at (elim (Bool-cases (ltb (length d.buf) w)) [
        | inl short ↦ inr (next-short c d fed out e h' none_before same (ground arith))
        | inr long ↦ inl (next-Emits c d fed out e h' none_before same (ground arith))
      ])

  pub next-Finished :
      (c : Core Error) (fed out : List ℕ)
      → Finished checksum w size c fed out
      → Ends batch checksum contract w size pos small fits c fed out
  unfolding next
  next-Finished c fed out h = record {
    after = record c { bytes = none; sums = none; offset = 0 };
    returns = rw (h.no_error, h.is_done) refl;
    is_closed = h.is_eof;
    nothing = (refl, refl);
    finished = record {
      no_error = h.no_error;
      is_done = h.is_done;
      is_eof = h.is_eof;
      all_sums = h.all_sums;
    };
  }

  -- For a hash whose `BatchRoll` keeps its contract, a window of 1 to 2 ^ 32 - 1 bytes and a batch
  -- size of at least the window: in any state that feeding a stream of bytes and calling `next` can
  -- lead to, `next` does not panic. It hands out the bytes at the next offset with the checksums of
  -- all windows in them; or it asks for more, when all windows of the bytes fed are handed out and
  -- the stream is open; or it reports the end, when all windows are handed out and the stream is
  -- closed.
  pub next_lem :
      (c : Core Error) (fed out : List ℕ)
      → Holds batch checksum contract w size pos small fits c fed out
      → Outcome c fed out (position c)
  next_lem c fed out (inl h) = next-Walks c fed out h
  next_lem c fed out (inr h) = inr (inr (next-Finished c fed out h))
