-- ===== src/BatchRoller/Next.antt =====
-- batchroller.go: the part of `next` that hashes a batch, and the outcomes of `next`.
use rollinghash.Prelude.{
  slice-take, ℕ, zero, suc, ◌+◌, ◌-◌, ◌≤◌, ◌<◌, min, ltb, ◌==◌, if◌then◌else◌, ◌&&◌, Bool-cases,
  ◌⊎◌, inl, inr, ◌≡◌, refl, sym, ap, ◌∙◌, arith, Bool, true, false, List, ◌++◌, Option, none, some,
  length, take, drop, replicate, slice, tabulate, tabulate_ext, tabulate-add, drop-drop,
  length-take, length-drop, IsBytes, All-take,
}
use rollinghash.Kernel.{window_sums, max_window}
use rollinghash.TwoLane.Advance.{length-slice}
use rollinghash.BatchRoller.{handed, Core, need_more, emitted, core_done, emit, next}
use rollinghash.BatchRoller.Contract.{IsBatchRoll}
use rollinghash.BatchRoller.Walk.{position, sums_before, Walks, Finished}

pub handed_emitted :
    {Error : Type 0} (c : Core Error) (sums : List ℕ) → c.sums ≡ some sums → handed emitted c ≡ sums
handed_emitted c sums e = rw e refl

length-replicate : (n a : ℕ) → length (replicate n a) ≡ n
length-replicate zero a = refl
length-replicate (suc n) a = ap suc (length-replicate n a)

-- The storage has room for the sums of a batch.
store_room :
    (store : List ℕ) (n : ℕ)
    → length (take n (if ltb (length store) n then replicate n 0 else store)) ≡ n
store_room store n = elim (Bool-cases (ltb (length store) n)) [
  | inl e ↦ rw e (omega (arith, length-take {A = ℕ} n (replicate n 0), length-replicate n 0))
  | inr e ↦
      rw e (let enough : n ≤ length store = ground arith in omega (arith, length-take n store))
]

module _ (checksum : List ℕ → ℕ) (w : ℕ) where
  -- The sums of a batch of `n` bytes from `at` on follow those of the windows before `at`.
  sums_before-batch :
      (at n : ℕ) (fed : List ℕ)
      → w ≤ n
      → at + n ≤ length fed
      → sums_before checksum w at fed ++ window_sums checksum w (take n (drop at fed))
        ≡ sums_before checksum w (at + (n + 1 - w)) fed
  sums_before-batch at n fed fits short =
      let len : length (take n (drop at fed)) ≡ n = length-slice fed at n short in
      let count : length (take n (drop at fed)) + 1 - w ≡ n + 1 - w = ap (λ k. k + 1 - w) len in
      ap (λ t. sums_before checksum w at fed ++ t)
        (ap (λ k. tabulate k (λ i. checksum (slice i w (take n (drop at fed))))) count
          ∙ tabulate_ext (n + 1 - w) _ _ same)
      ∙ sym (tabulate-add at (n + 1 - w) (λ i. checksum (slice i w fed)))
    where
      same :
          (i : ℕ)
          → i < n + 1 - w
          → checksum (slice i w (take n (drop at fed))) ≡ checksum (slice (at + i) w fed)
      same i h =
          ap checksum
            (slice-take i w n (drop at fed) (omega arith) ∙ ap (take w) (drop-drop i at fed))

module _ {Error : Type 0} (batch : List ℕ → List ℕ → ℕ → Option (List ℕ)) (checksum : List ℕ → ℕ)
    (contract : IsBatchRoll batch checksum) (w size : ℕ) (pos : 0 < w) (small : w < max_window)
    (fits : w ≤ size) where
  -- A core in the stream `fed` that has handed out `out`.
  abbrev pub Holds : Core Error → List ℕ → List ℕ → Type 0
  Holds c fed out = Walks checksum w size c fed out ⊎ Finished checksum w size c fed out

  -- A batch: its bytes are those of the stream at `Offset()`, its sums follow those handed out
  -- before, and the next batch starts further on unless the stream is finished.
  pub record Emits (c : Core Error) (fed out : List ℕ) (at : ℕ) : Type 0 where
    pub after : Core Error
    pub count : ℕ
    pub returns : next batch c ≡ some (emitted, after)
    pub at_offset : after.offset ≡ at
    pub bytes : after.bytes ≡ some (slice at count fed)
    pub sums : after.sums ≡ some (window_sums checksum w (slice at count fed))
    pub same_eof : after.eof ≡ c.eof
    pub fits_batch : (w ≤ count) × (count ≤ size) × (at + count ≤ length fed)
    pub handed_out :
        (Walks checksum w size after fed (out ++ window_sums checksum w (slice at count fed))
          × (at < position after))
        ⊎ Finished checksum w size after fed (out ++ window_sums checksum w (slice at count fed))

  -- A core that needs more bytes: no complete window is left.
  pub record Waits (c : Core Error) (fed out : List ℕ) (at : ℕ) : Type 0 where
    pub after : Core Error
    pub returns : next batch c ≡ some (need_more, after)
    pub is_open : c.eof ≡ false
    pub same_eof : after.eof ≡ false
    pub walks : Walks checksum w size after fed out
    pub same_position : position after ≡ at
    pub few : length fed < at + w
    pub all_sums : out ≡ window_sums checksum w fed

  -- The end of the stream.
  pub record Ends (c : Core Error) (fed out : List ℕ) : Type 0 where
    pub after : Core Error
    pub returns : next batch c ≡ some (core_done, after)
    pub is_closed : c.eof ≡ true
    pub nothing : (after.bytes ≡ none) × (after.sums ≡ none)
    pub finished : Finished checksum w size after fed out

  -- Where no complete window is left, the sums handed out are all of them.
  pub complete :
      (c : Core Error) (fed out : List ℕ)
      → Walks checksum w size c fed out
      → length fed < position c + w
      → out ≡ window_sums checksum w fed
  complete c fed out h short =
      h.out_sums ∙ ap (λ n. sums_before checksum w n fed) (at_end (position c) h.reach short)
    where
      at_end :
          (n : ℕ) → (0 < n → n + w ≤ length fed + 1) → length fed < n + w → n ≡ length fed + 1 - w
      at_end zero r s = omega arith
      at_end (suc n) r s = omega (arith, r (omega arith))

  -- The core after a batch of `n` bytes.
  unfoldable pub batched : Core Error → ℕ → Bool → Core Error
  batched c n last = record c {
    bytes = some (take n c.buf);
    sums = some (window_sums checksum w (take n c.buf));
    sums_store =
        window_sums checksum w (take n c.buf)
        ++ drop (n + 1 - w) (
            if ltb (length c.sums_store) (n + 1 - w)
            then replicate (n + 1 - w) 0
            else c.sums_store);
    done = if last then true else c.done;
    carry = if last then 0 else w - 1;
    prev_n = n;
  }

  pub emit_lem :
      (c : Core Error) (n : ℕ)
      → c.window ≡ w
      → min (length c.buf) c.batch_size ≡ n
      → w ≤ n
      → n ≤ length c.buf
      → IsBytes c.buf
      → emit batch c ≡ some (emitted, batched c n (c.eof && (n == length c.buf)))
  unfolding emit batched
  emit_lem c n ew en long short bytes =
      let enough : ltb (n + 1) w ≡ false = ground arith in
      let len : length (take n c.buf) ≡ n = omega (arith, length-take n c.buf) in
      let nsums = n + 1 - w in
      let dst : List ℕ =
        take nsums (if ltb (length c.sums_store) nsums then replicate nsums 0 else c.sums_store) in
      let sums : batch dst (take n c.buf) w ≡ some (window_sums checksum w (take n c.buf)) =
        contract dst (take n c.buf) w (All-take (λ x. x < 256) n c.buf bytes) pos small
          (omega (arith, len)) (omega (arith, len, store_room c.sums_store nsums)) in
      rw (en, ew, enough, sums) refl

  pub batched-Holds :
      (c : Core Error) (fed out : List ℕ) (n : ℕ)
      → Walks checksum w size c fed out
      → c.prev_n ≡ 0
      → w ≤ n
      → n ≤ length c.buf
      → (Walks checksum w size
            (batched c n (c.eof && (n == length c.buf)))
            fed
            (out ++ window_sums checksum w (slice c.offset n fed))
          × (c.offset < position (batched c n (c.eof && (n == length c.buf)))))
        ⊎ Finished checksum w size
            (batched c n (c.eof && (n == length c.buf)))
            fed
            (out ++ window_sums checksum w (slice c.offset n fed))
  unfolding batched
  batched-Holds c fed out n h none_before long short =
      elim (Bool-cases (c.eof && (n == length c.buf))) [
        | inl e ↦ inr (
            rw e record {
              no_error = h.no_error;
              is_done = refl;
              is_eof = (ground arith);
              all_sums = sums ∙ ap (λ k. sums_before checksum w k fed) (last e);
            })
        | inr e ↦ inl (
            rw e (
              record {
                window = h.window;
                batch_size = h.batch_size;
                no_error = h.no_error;
                running = h.running;
                in_range = h.in_range;
                offset_le = h.offset_le;
                buf = h.buf;
                out_sums = sums ∙ ap (λ k. sums_before checksum w k fed) moved;
                reach = λ p. omega (arith, within);
              },
              (omega arith),
            ))
      ]
    where
      within : c.offset + n ≤ length fed
      within = omega (arith, ap length h.buf, length-drop c.offset fed, h.offset_le)

      at : position c ≡ c.offset
      at = omega arith

      sums :
          out ++ window_sums checksum w (slice c.offset n fed)
          ≡ sums_before checksum w (c.offset + (n + 1 - w)) fed
      sums =
          ap (λ t. t ++ window_sums checksum w (slice c.offset n fed))
            (h.out_sums ∙ ap (λ k. sums_before checksum w k fed) at)
          ∙ sums_before-batch checksum w c.offset n fed long within

      moved : c.offset + (n + 1 - w) ≡ c.offset + (n - (w - 1))
      moved = omega arith

      last : (c.eof && (n == length c.buf)) ≡ true → c.offset + (n + 1 - w) ≡ length fed + 1 - w
      last e =
          let all : n ≡ length c.buf = ground arith in
          omega (arith, all, within, ap length h.buf, length-drop c.offset fed, h.offset_le)
