-- ===== src/BatchRoller/Walk.antt =====
-- batchroller.go: what a core holds between the calls, and the calls that do not hash.
use rollinghash.Prelude.{
  ℕ, ◌+◌, ◌-◌, ◌≤◌, ◌<◌, ltb, Bool-cases, inl, inr, ◌≡◌, refl, sym, ap, ◌∙◌, arith, true, false,
  List, [], ◌++◌, Option, none, some, length, take, drop, slice, tabulate, tabulate_ext, drop-drop,
  take-append_left, drop-append_left, length-append, length-drop, IsBytes, All-append,
}
use rollinghash.Kernel.{window_sums}
use rollinghash.BatchRoller.{
  Core, new_core, with_buffer_size, configured, reset, close, feed, drop_emitted,
}

module _ {Error : Type 0} where
  -- The stream position of the first byte of the next batch.
  abbrev pub position : Core Error → ℕ
  position c = c.offset + (c.prev_n - c.carry)

module _ (checksum : List ℕ → ℕ) (w : ℕ) where
  -- The sums of the windows that start before `n`.
  abbrev pub sums_before : ℕ → List ℕ → List ℕ
  sums_before n fed = tabulate n (λ i. checksum (slice i w fed))

  slice-append_left : (i : ℕ) (p q : List ℕ) → i + w ≤ length p → slice i w (p ++ q) ≡ slice i w p
  slice-append_left i p q h =
      ap (take w) (drop-append_left i p q (omega arith))
      ∙ take-append_left w (drop i p) q (omega (arith, length-drop i p))

  -- More bytes leave the sums of the windows that are complete alone.
  sums_before-append :
      (n : ℕ) (p q : List ℕ)
      → (0 < n → n + w ≤ length p + 1)
      → sums_before n p ≡ sums_before n (p ++ q)
  sums_before-append n p q reach =
      tabulate_ext n _ _
        (λ i h. ap checksum (sym (slice-append_left i p q (omega (arith, reach (omega arith))))))

module _ {Error : Type 0} (checksum : List ℕ → ℕ) (w size : ℕ) where
  -- The core has been fed the bytes `fed`, and has handed out the sums `out`.
  pub record Walks (c : Core Error) (fed out : List ℕ) : Type 0 where
    pub window : c.window ≡ w
    pub batch_size : c.batch_size ≡ size
    pub no_error : c.err ≡ none
    pub running : c.done ≡ false
    pub in_range : IsBytes fed
    pub offset_le : c.offset ≤ length fed
    pub buf : c.buf ≡ drop c.offset fed
    pub out_sums : out ≡ sums_before checksum w (position c) fed
    pub reach : 0 < position c → position c + w ≤ length fed + 1

  -- The core has handed out all sums of the stream.
  pub record Finished (c : Core Error) (fed out : List ℕ) : Type 0 where
    pub no_error : c.err ≡ none
    pub is_done : c.done ≡ true
    pub is_eof : c.eof ≡ true
    pub all_sums : out ≡ window_sums checksum w fed

  pub configured-Walks :
      (option : Option ℕ)
      → (configured {Error = Error} w option).batch_size ≡ size
      → Walks (configured w option) [] []
  unfolding configured new_core with_buffer_size
  configured-Walks none e = record {
    window = refl;
    batch_size = e;
    no_error = refl;
    running = refl;
    in_range = tt;
    offset_le = omega arith;
    buf = refl;
    out_sums = refl;
    reach = λ h. absurd (omega arith);
  }
  configured-Walks (some n) e = record {
    window = refl;
    batch_size = e;
    no_error = refl;
    running = refl;
    in_range = tt;
    offset_le = omega arith;
    buf = refl;
    out_sums = refl;
    reach = λ h. absurd (omega arith);
  }

  pub reset-Walks : (c : Core Error) → c.window ≡ w → c.batch_size ≡ size → Walks (reset c) [] []
  unfolding reset
  reset-Walks c ew es = record {
    window = ew;
    batch_size = es;
    no_error = refl;
    running = refl;
    in_range = tt;
    offset_le = omega arith;
    buf = refl;
    out_sums = refl;
    reach = λ h. absurd (omega arith);
  }

  pub feed-Walks :
      (c : Core Error) (fed out q : List ℕ)
      → Walks c fed out
      → IsBytes q
      → Walks (feed c q) (fed ++ q) out
  unfolding feed
  feed-Walks c fed out q h bytes = record {
    window = h.window;
    batch_size = h.batch_size;
    no_error = h.no_error;
    running = h.running;
    in_range = All-append (λ x. x < 256) fed q h.in_range bytes;
    offset_le = omega (arith, h.offset_le, length-append fed q);
    buf = ap (λ t. t ++ q) h.buf ∙ sym (drop-append_left c.offset fed q h.offset_le);
    out_sums = h.out_sums ∙ sums_before-append checksum w (position c) fed q h.reach;
    reach = λ p. omega (arith, h.reach p, length-append fed q);
  }

  pub close-Walks : (c : Core Error) (fed out : List ℕ) → Walks c fed out → Walks (close c) fed out
  unfolding close
  close-Walks c fed out h = record {
    window = h.window;
    batch_size = h.batch_size;
    no_error = h.no_error;
    running = h.running;
    in_range = h.in_range;
    offset_le = h.offset_le;
    buf = h.buf;
    out_sums = h.out_sums;
    reach = h.reach;
  }

  pub position-le :
      (c : Core Error) (fed out : List ℕ) → 0 < w → Walks c fed out → position c ≤ length fed
  position-le c fed out pos h = elim (Bool-cases (ltb 0 (position c))) [
    | inl p ↦ omega (arith, h.reach (ground arith))
    | inr p ↦ ground arith
  ]

  -- Dropping the emitted bytes moves the core to where the next batch starts.
  pub drop_emitted-Walks :
      (c : Core Error) (fed out : List ℕ)
      → 0 < w
      → Walks c fed out
      → Walks (drop_emitted c) fed out
        × ((drop_emitted c).prev_n ≡ 0)
        × ((drop_emitted c).offset ≡ position c)
        × ((drop_emitted c).eof ≡ c.eof)
  unfolding drop_emitted
  drop_emitted-Walks c fed out pos h = elim (Bool-cases (ltb 0 c.prev_n)) [
    | inl e ↦ rw e (
      record {
        window = h.window;
        batch_size = h.batch_size;
        no_error = h.no_error;
        running = h.running;
        in_range = h.in_range;
        offset_le = within;
        buf = ap (drop (c.prev_n - c.carry)) h.buf ∙ drop-drop (c.prev_n - c.carry) c.offset fed;
        out_sums = h.out_sums ∙ ap (λ n. sums_before checksum w n fed) same;
        reach = λ p. omega (arith, h.reach (omega (arith, same)), same);
      },
      refl,
      refl,
      refl,
    )
    | inr e ↦ rw e (h, none_emitted e, omega (arith, none_emitted e), refl)
  ]
    where
      same : position c ≡ position c + (0 - c.carry)
      same = omega arith

      within : position c ≤ length fed
      within = position-le c fed out pos h

      none_emitted : ltb 0 c.prev_n ≡ false → c.prev_n ≡ 0
      none_emitted e = ground arith
