-- ===== src/Chunker/Emit.antt =====
-- chunker.go: `emit` and `windowSum`, which hand out the bytes and the checksum of a chunk.
use rollinghash.Prelude.{
  ℕ, ◌+◌, ◌-◌, ◌≤◌, ◌<◌, ltb, ◌⊎◌, inl, inr, ◌≡◌, refl, ap, ap₂, ◌∙◌, arith, Bool, true, false,
  Bool-cases, List, [], ◌++◌, Option, some, length, take, drop, slice, drop-drop, length-drop,
  IsBytes, All-take, All-drop,
}
use rollinghash.Kernel.{max_window}
use rollinghash.Hasher.{Hasher, IsHasher}
use rollinghash.TwoLane.Advance.{length-slice}
use rollinghash.BatchRoller.{CoreState, emitted}
use rollinghash.Chunker.{Core, window_sum, emit}
use rollinghash.Chunker.Reference.{Chunk, Cut, sum_before, chunk_at}
use rollinghash.Chunker.Output.{current}
use rollinghash.Chunker.Walk.{slice_arrived}
use rollinghash.Chunker.Hash.{block_bytes}

-- A chunk of bytes that have arrived stays as it is.
pub chunk_at_arrived :
    (checksum : List ℕ → ℕ) (w mask min_size max_size : ℕ) (p q : List ℕ) (start : ℕ) (cut : Cut)
    → start ≤ cut.end
    → cut.end ≤ length p
    → chunk_at checksum w mask min_size max_size (p ++ q) start cut
      ≡ chunk_at checksum w mask min_size max_size p start cut
chunk_at_arrived checksum w mask min_size max_size p q start cut h k =
    ap₂
      (λ xs n. record {
        offset = start;
        bytes = xs;
        sum = n;
        content_defined = cut.content_defined;
      })
      (slice_arrived start (cut.end - start) p q (omega arith))
      (elim (Bool-cases (ltb cut.end w)) [
        | inl e ↦ rw e refl
        | inr e ↦
            let fits : cut.end - w + w ≤ length p = ground arith in
            rw e (ap checksum (slice_arrived (cut.end - w) w p q fits))
      ])

record Summed {H : Hasher} (checksum : List ℕ → ℕ) (s : IsHasher H checksum)
    (r : Option (H.State × ℕ)) (n : ℕ) : Type 0 where
  hash : H.State
  returns : r ≡ some (hash, n)
  holds : (held : List ℕ) × s.Holds hash held

module _ {H : Hasher} {Error : Type 0} (checksum : List ℕ → ℕ) (s : IsHasher H checksum) (w : ℕ)
    (pos : 0 < w) (small : w < max_window) where
  -- The buffer holds the bytes of the stream from the first window of the chunk on.
  pub record Buffered (c : Core H Error) (fed : List ℕ) : Type 0 where
    pub same_w : c.window ≡ w
    pub holds : (held : List ℕ) × s.Holds c.hash held
    pub in_range : IsBytes fed
    pub buf : c.cbuf ≡ drop c.cbuf_base fed
    pub lead_in : (c.cbuf_base ≡ 0) ⊎ (c.cbuf_base + (w - 1) ≤ c.chunk_start)

  -- The core after a chunk.
  abbrev pub handed : Core H Error → ℕ → Bool → H.State → ℕ → Core H Error
  handed c end content_defined hash sumv = record c {
    chunk = some (slice (c.chunk_start - c.cbuf_base) (end - c.chunk_start) c.cbuf);
    offset = c.chunk_start;
    hash = hash;
    sumv = sumv;
    content_defined = content_defined;
    chunk_start = end;
  }

  window_sum-Summed :
      (c : Core H Error) (fed : List ℕ) (mask min_size max_size end : ℕ)
      → Buffered c fed
      → c.chunk_start < end
      → end ≤ length fed
      → Summed checksum s (window_sum c end) (sum_before checksum w mask min_size max_size fed end)
  unfolding window_sum
  window_sum-Summed c fed mask min_size max_size end h further within =
      let same_w : c.window ≡ w = h.same_w in
      let len : length c.cbuf ≡ length fed - c.cbuf_base =
        ap length h.buf ∙ length-drop c.cbuf_base fed in
      elim (Bool-cases (ltb end (c.cbuf_base + c.window))) [
        | inl e ↦
            let few : ltb end w ≡ true = elim h.lead_in [
              | inl l ↦ ground (arith, same_w)
              | inr l ↦ absurd (ground (arith, same_w))
            ] in
            record { hash = c.hash; returns = rw (e, few) refl; holds = h.holds }
        | inr e ↦
            let lt : c.cbuf_base + w ≤ end = ground (arith, same_w) in
            let many : ltb end w ≡ false = ground arith in
            let inside : ltb (length c.cbuf) (end - c.window - c.cbuf_base + c.window) ≡ false =
              ground (arith, same_w, len) in
            let bytes : List ℕ = slice (end - w) w fed in
            let at : c.cbuf_base + (end - c.window - c.cbuf_base) ≡ end - w =
              omega (arith, same_w) in
            let same : slice (end - c.window - c.cbuf_base) c.window c.cbuf ≡ bytes =
              ap₂ (λ n xs. take n (drop (end - c.window - c.cbuf_base) xs)) same_w h.buf
              ∙ ap (take w) (
                  drop-drop (end - c.window - c.cbuf_base) c.cbuf_base fed
                  ∙ ap (λ n. drop n fed) at) in
            let (d, written, holds) =
              s.write_holds (H.reset c.hash) [] bytes (s.reset_holds c.hash h.holds.0 h.holds.1)
                (All-take (λ x. x < 256) w (drop (end - w) fed)
                  (All-drop (λ x. x < 256) (end - w) fed h.in_range))
                (omega (arith, small, length-slice fed (end - w) w (omega arith))) in
            record {
              hash = d;
              returns =
                  rw (e, inside, same, written, many)
                    (ap (λ n. some (d, n)) (s.sum_holds d bytes holds));
              holds = (bytes, holds);
            }
      ]

  pub record Emission (r : Option (CoreState × Core H Error)) (c : Core H Error) (end : ℕ)
      (content_defined : Bool) (chunk : Chunk) : Type 0 where
    pub hash : H.State
    pub sumv : ℕ
    pub returns : r ≡ some (emitted, handed c end content_defined hash sumv)
    pub holds : (held : List ℕ) × s.Holds hash held
    pub shows : current (handed c end content_defined hash sumv) ≡ chunk

  -- `emit` hands out the chunk of the stream, and its checksum.
  pub emit-Emission :
      (c : Core H Error) (fed : List ℕ) (mask min_size max_size end : ℕ) (content_defined : Bool)
      → Buffered c fed
      → c.chunk_start < end
      → end ≤ length fed
      → Emission (emit c end content_defined) c end content_defined (
          chunk_at checksum w mask min_size max_size fed c.chunk_start
            (record { end = end; content_defined = content_defined }))
  unfolding emit current
  emit-Emission c fed mask min_size max_size end content_defined h further within =
      let based : c.cbuf_base ≤ c.chunk_start = elim h.lead_in [
        | inl l ↦ omega arith
        | inr l ↦ omega arith
      ] in
      let len : length c.cbuf ≡ length fed - c.cbuf_base =
        ap length h.buf ∙ length-drop c.cbuf_base fed in
      let after_base : ltb c.chunk_start c.cbuf_base ≡ false = ground arith in
      let ordered : ltb end c.chunk_start ≡ false = ground arith in
      let inside : ltb (length c.cbuf) (end - c.cbuf_base) ≡ false = ground arith in
      let sum = window_sum-Summed c fed mask min_size max_size end h further within in
      record {
        hash = sum.hash;
        sumv = sum_before checksum w mask min_size max_size fed end;
        returns = rw (after_base, ordered, inside, sum.returns) refl;
        holds = sum.holds;
        shows =
            ap
              (λ (xs : List ℕ). record {
                offset = c.chunk_start;
                bytes = xs;
                sum = sum_before checksum w mask min_size max_size fed end;
                content_defined = content_defined;
              })
              (ap (slice (c.chunk_start - c.cbuf_base) (end - c.chunk_start)) h.buf
                ∙ block_bytes c.cbuf_base c.chunk_start end fed based);
      }
