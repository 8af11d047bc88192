-- ===== src/Chunker/Walk.antt =====
-- chunker.go: what a core holds between the calls, and the calls that do not hash.
use rollinghash.Prelude.{
  ℕ, ◌+◌, ◌-◌, ◌≤◌, ◌<◌, ltb, leb, ◌==◌, ◌&&◌, inl, inr, ◌≡◌, refl, sym, ap, ◌∙◌, arith, Bool, true,
  false, Bool-cases, List, ◌++◌, none, length, take, drop, slice, drop-append_left,
  take-append_left, length-drop, IsBytes, bit_and, subst,
}
use rollinghash.Hasher.{Hasher, IsHasher}
use rollinghash.Chunker.{Core, least, skip_pre_min}
use rollinghash.Chunker.Wrap.{least_lem}
use rollinghash.Chunker.Bounds.{Found, Found-skip}
use rollinghash.Chunker.Short.{IsShort}
use rollinghash.Chunker.Reference.{Chunk, is_boundary, chunks_from, reference_chunks}

-- A slice of bytes that have arrived stays as it is.
pub slice_arrived : (i n : ℕ) (p q : List ℕ) → i + n ≤ length p → slice i n (p ++ q) ≡ slice i n p
slice_arrived i n p q h =
    ap (take n) (drop-append_left i p q (omega arith))
    ∙ take-append_left n (drop i p) q (omega (arith, length-drop i p))

module _ (checksum : List ℕ → ℕ) (w mask min_size max_size : ℕ) where
  abbrev pub test : List ℕ → ℕ → Bool
  test = is_boundary checksum w mask min_size max_size

  abbrev pub reference : List ℕ → List Chunk
  reference = reference_chunks checksum w mask min_size max_size

  -- The chunks of the stream `p` from `start` on.
  abbrev pub rest_of : List ℕ → ℕ → List Chunk
  rest_of p start = chunks_from checksum w mask min_size max_size (length p - start) p start

  -- The windows of the bytes that have arrived are tested alike when more arrive.
  pub test_arrived : (p q : List ℕ) (e : ℕ) → e < length p → test p e ≡ test (p ++ q) e
  test_arrived p q e h = elim (Bool-cases (leb w (e + 1))) [
    | inl k ↦
        let fits : e + 1 - w + w ≤ length p = ground arith in
        ap (λ (x : List ℕ). leb w (e + 1) && (bit_and (checksum x) mask == 0))
          (sym (slice_arrived (e + 1 - w) w p q fits))
    | inr k ↦ rw k refl
  ]

module _ {H : Hasher} {Error : Type 0} (checksum : List ℕ → ℕ) (s : IsHasher H checksum)
    (w mask min_size max_size size : ℕ) (positive : 0 < min_size) where
  abbrev pub IsConfigured : Core H Error → Type 0
  IsConfigured c =
      (c.window ≡ w)
      × (c.mask ≡ mask)
      × (c.min_size ≡ min_size)
      × (c.max_size ≡ max_size)
      × (c.batch_size ≡ size)
      × (c.err ≡ none)
      × (c.done ≡ false)

  -- The core has been fed the bytes `fed`, and has handed out the chunks `out`.
  pub record Walks (c : Core H Error) (fed : List ℕ) (out : List Chunk) : Type 0 where
    pub settings : IsConfigured c
    pub holds : (held : List ℕ) × s.Holds c.hash held
    pub in_range : IsBytes fed
    pub buf : c.cbuf ≡ drop c.cbuf_base fed
    pub consumed : c.consumed ≡ length fed
    pub start_le : c.chunk_start ≤ length fed
    pub lead_in :
        0 < c.cbuf_base
        → (c.cbuf_base + (w - 1) ≤ c.chunk_start) × (c.cbuf_base + (w - 1) ≤ c.hashed_to)
    pub bcur_le : c.bcur ≤ length c.bounds
    pub used : IsShort (c.chunk_start + min_size) (take c.bcur c.bounds)
    pub found :
        Found min_size positive
          (test checksum w mask min_size max_size fed)
          (length fed)
          c.chunk_start
          c.hashed_to
          (drop c.bcur c.bounds)
    pub so_far :
        (q : List ℕ)
        → reference checksum w mask min_size max_size (fed ++ q)
          ≡ out ++ rest_of checksum w mask min_size max_size (fed ++ q) c.chunk_start

  -- The core has handed out all chunks of the stream.
  pub record Finished (c : Core H Error) (fed : List ℕ) (out : List Chunk) : Type 0 where
    pub no_error : c.err ≡ none
    pub is_done : c.done ≡ true
    pub is_eof : c.eof ≡ true
    pub all_chunks : out ≡ reference checksum w mask min_size max_size fed

  -- The bytes from `cbuf_base` on are kept.
  pub base_le :
      (c : Core H Error) (fed : List ℕ) (out : List Chunk)
      → Walks c fed out
      → c.cbuf_base ≤ length fed
  base_le c fed out h = elim (Bool-cases (ltb 0 c.cbuf_base)) [
    | inl p ↦ omega (arith, (h.lead_in (ground arith)).0, h.start_le)
    | inr p ↦ ground arith
  ]

  -- A core that is the same but for what `hashForward` changes.
  pub record Keeps (c d : Core H Error) : Type 0 where
    pub start : d.chunk_start ≡ c.chunk_start
    pub base : d.cbuf_base ≡ c.cbuf_base
    pub same_consumed : d.consumed ≡ c.consumed
    pub forward : c.hashed_to ≤ d.hashed_to
    pub same_eof : d.eof ≡ c.eof

  pub Keeps-refl : (c : Core H Error) → Keeps c c
  Keeps-refl c = record {
    start = refl;
    base = refl;
    same_consumed = refl;
    forward = omega arith;
    same_eof = refl;
  }

  pub Keeps-trans : (c d e : Core H Error) → Keeps c d → Keeps d e → Keeps c e
  Keeps-trans c d e h k = record {
    start = k.start ∙ h.start;
    base = k.base ∙ h.base;
    same_consumed = k.same_consumed ∙ h.same_consumed;
    forward = omega (arith, h.forward, k.forward);
    same_eof = k.same_eof ∙ h.same_eof;
  }

  -- `skipPreMin` skips to the first byte that may end the chunk, or nothing where that position wraps.
  pub skip_pre_min-Walks :
      (c : Core H Error) (fed : List ℕ) (out : List Chunk)
      → Walks c fed out
      → Walks (skip_pre_min c) fed out × Keeps c (skip_pre_min c)
  unfolding skip_pre_min
  skip_pre_min-Walks c fed out h = elim (Bool-cases (ltb (c.hashed_to + 1) (least c))) [
    | inl e ↦
        let same : c.min_size ≡ min_size = h.settings.2 in
        let later : 0 < least c = ground arith in
        let to : least c - 1 ≡ c.chunk_start + min_size - 1 =
          omega (arith, least_lem c later, same) in
        let skips : c.hashed_to + 1 < c.chunk_start + min_size =
          ground (arith, least_lem c later, same) in
        rw e (
          record {
            settings = h.settings;
            holds = h.holds;
            in_range = h.in_range;
            buf = h.buf;
            consumed = h.consumed;
            start_le = h.start_le;
            lead_in = λ p. ((h.lead_in p).0, omega (arith, (h.lead_in p).1, skips, to));
            bcur_le = h.bcur_le;
            used = h.used;
            found =
                subst
                  (λ n.
                    Found min_size positive (test checksum w mask min_size max_size fed)
                      (length fed) c.chunk_start n (drop c.bcur c.bounds))
                  (sym to)
                  (Found-skip min_size positive (test checksum w mask min_size max_size fed)
                    (length fed) c.chunk_start c.hashed_to (drop c.bcur c.bounds) h.found skips);
            so_far = h.so_far;
          },
          record {
            start = refl;
            base = refl;
            same_consumed = refl;
            forward = omega (arith, skips, to);
            same_eof = refl;
          },
        )
    | inr e ↦ rw e (h, Keeps-refl c)
  ]
