-- ===== src/Chunker/Block.antt =====
-- chunker.go: `hashForward` on one slice of a stream, after its skip.
use rollinghash.Prelude.{
  ℕ, ◌+◌, ◌-◌, ◌^◌, min, max, ◌≤◌, ◌<◌, ltb, leb, if◌then◌else◌, ◌⊎◌, inl, inr, ◌≡◌, refl, sym, ap,
  ap₂, ◌∙◌, arith, Bool, true, false, Bool-cases, List, [], ◌++◌, map, Option, some, length, take,
  drop, slice, drop-append_left, take-append_left, length-append, length-drop, IsBytes, All-take,
  All-drop, subst,
}
use rollinghash.Kernel.{positions, boundaries, max_window}
use rollinghash.Hasher.{Hasher, IsHasher}
use rollinghash.TwoLane.{Hit}
use rollinghash.TwoLane.Advance.{length-slice}
use rollinghash.Chunker.{Core, reslice, hash_block, hash_from}
use rollinghash.Chunker.Bounds.{Found, Found-forward}
use rollinghash.Chunker.Short.{IsShort}
use rollinghash.Chunker.Contract.{IsBoundaryRoller}
use rollinghash.Chunker.Reference.{Chunk}
use rollinghash.Chunker.Walk.{test, Walks, Keeps, Keeps-refl}
use rollinghash.Chunker.Hash.{map-append, length-reslice, block_bytes, block_bounds}

module _ {H : Hasher} {Error : Type 0}
    (hits : H.State → List ℕ → List ℕ → List ℕ → ℕ → ℕ → Option Hit) (checksum : List ℕ → ℕ)
    (s : IsHasher H checksum) (contract : IsBoundaryRoller H checksum s hits)
    (w mask min_size max_size size : ℕ) (pos : 0 < w) (small : w < max_window) (fits : w ≤ size)
    (short : size ≤ 2 ^ 31) (positive : 0 < min_size) where
  abbrev W : Core H Error → List ℕ → List Chunk → Type 0
  W c fed out = Walks checksum s w mask min_size max_size size positive c fed out

  abbrev K : Core H Error → Core H Error → Type 0
  K c d = Keeps checksum s w mask min_size max_size size positive c d

  -- All windows that end before `hashed_to` have been tested, and those are all that there are.
  abbrev pub IsHashed : Core H Error → List ℕ → Type 0
  IsHashed c fed = (length fed ≤ c.hashed_to) ⊎ (length fed < w)

  -- A step forward, or nothing left to test.
  pub record Hashes (r : Option (Bool × Core H Error)) (c : Core H Error) (fed : List ℕ)
      (out : List Chunk) : Type 0 where
    pub progress : Bool
    pub after : Core H Error
    pub returns : r ≡ some (progress, after)
    pub walks : W after fed out
    pub keeps : K c after
    pub outcome :
        ((progress ≡ true) × (c.hashed_to < after.hashed_to) × (after.hashed_to ≤ length fed))
        ⊎ ((progress ≡ false) × IsHashed after fed)

  -- The core after a block has been hashed up to `end`.
  hashed_block : Core H Error → ℕ → ℕ → ℕ → Hit → Core H Error
  hashed_block c need start end r = record c {
    room = if ltb c.room need then need else c.room;
    la = r.a ++ drop need (if ltb c.room need then [] else c.la);
    lb = r.b ++ drop need (if ltb c.room need then [] else c.lb);
    bounds =
        c.bounds
        ++ (map (λ g. start + g + c.window - 1) (take r.na r.a)
            ++ map (λ g. start + g + c.window - 1) (take r.nb r.b));
    hashed_to = end;
  }

  hashed_block-Walks :
      (c : Core H Error) (fed : List ℕ) (out : List Chunk) (need start end : ℕ) (r : Hit)
      → W c fed out
      → c.hashed_to < end
      → end ≤ length fed
      → take r.na r.a ++ take r.nb r.b ≡ boundaries checksum mask w (slice start (end - start) fed)
      → w ≤ end - start
      → (start + (w - 1) ≡ c.hashed_to) ⊎ ((start ≡ 0) × (c.hashed_to < w))
      → W (hashed_block c need start end r) fed out
  unfolding hashed_block
  hashed_block-Walks c fed out need start end r h further within e long lead =
      let t : ℕ → Bool = test checksum w mask min_size max_size fed in
      let new : List ℕ =
        map (λ g. start + g + c.window - 1) (take r.na r.a)
        ++ map (λ g. start + g + c.window - 1) (take r.nb r.b) in
      let found : new ≡ positions t c.hashed_to (end - c.hashed_to) =
        map-append (λ g. start + g + c.window - 1) (take r.na r.a) (take r.nb r.b)
        ∙ ap₂ (λ v xs. map (λ g. start + g + v - 1) xs) h.settings.0 e
        ∙ block_bounds checksum w mask min_size max_size pos start c.hashed_to end fed within long
            lead in
      record {
        settings = h.settings;
        holds = h.holds;
        in_range = h.in_range;
        buf = h.buf;
        consumed = h.consumed;
        start_le = h.start_le;
        lead_in = λ p. ((h.lead_in p).0, omega (arith, (h.lead_in p).1));
        bcur_le = omega (arith, h.bcur_le, length-append c.bounds new);
        used =
            subst (IsShort (c.chunk_start + min_size))
              (sym (take-append_left c.bcur c.bounds new h.bcur_le)) h.used;
        found =
            subst (Found min_size positive t (length fed) c.chunk_start end)
              (ap (λ x. drop c.bcur c.bounds ++ x) (sym found)
                ∙ sym (drop-append_left c.bcur c.bounds new h.bcur_le))
              (Found-forward min_size positive t (length fed) c.chunk_start c.hashed_to end
                (drop c.bcur c.bounds) h.found (omega arith) within);
        so_far = h.so_far;
      }

  hashed_block-Keeps :
      (c : Core H Error) (need start end : ℕ) (r : Hit)
      → c.hashed_to < end
      → K c (hashed_block c need start end r)
  unfolding hashed_block
  hashed_block-Keeps c need start end r further = record {
    start = refl;
    base = refl;
    same_consumed = refl;
    forward = omega arith;
    same_eof = refl;
  }

  hash_block-Hashes :
      (c : Core H Error) (fed : List ℕ) (out : List Chunk) (buf : List ℕ) (start end : ℕ)
      → W c fed out
      → buf ≡ slice start (end - start) fed
      → c.hashed_to < end
      → end ≤ length fed
      → start ≤ end
      → end - start + 1 ≤ 2 ^ 31 + w
      → (start + (w - 1) ≡ c.hashed_to)
        ⊎ ((start ≡ 0) × (c.hashed_to < w) × ((end ≡ length fed) ⊎ (w ≤ end)))
      → Hashes (hash_block hits c buf start end) c fed out
  unfolding hash_block hashed_block
  hash_block-Hashes c fed out buf start end h e further within ordered few lead =
      let same_w : c.window ≡ w = h.settings.0 in
      let len : length buf ≡ end - start =
        ap length e ∙ length-slice fed start (end - start) (omega arith) in
      elim (Bool-cases (ltb (length buf) c.window)) [
        | inl k ↦ record {
          progress = false;
          after = c;
          returns = rw k refl;
          walks = h;
          keeps = Keeps-refl checksum s w mask min_size max_size size positive c;
          outcome = inr (
            refl,
            inr (elim lead [
              | inl l ↦ absurd (ground (arith, same_w))
              | inr l ↦ elim l.2 [
                | inl m ↦ ground (arith, same_w, l.0)
                | inr m ↦ absurd (ground (arith, same_w, l.0))
              ]
            ]),
          );
        }
        | inr k ↦
            let need : ℕ = length buf + 1 - c.window in
            let long : w ≤ end - start = ground (arith, same_w) in
            let la : List ℕ = reslice need (if ltb c.room need then [] else c.la) in
            let lb : List ℕ = reslice need (if ltb c.room need then [] else c.lb) in
            let bytes : IsBytes buf = subst IsBytes (sym e) (
              All-take (λ x. x < 256) (end - start) (drop start fed)
                (All-drop (λ x. x < 256) start fed h.in_range)) in
            let (r, returns, reported) =
              contract c.hash h.holds.0 la lb buf w mask h.holds.1 bytes pos small
                (omega (arith, len))
                (omega
                  (arith, len, same_w, length-reslice need (if ltb c.room need then [] else c.la)))
                (omega
                  (arith, len, same_w, length-reslice need (if ltb c.room need then [] else c.lb)))
                (omega (arith, len)) in
            let called : hits c.hash la lb buf c.window c.mask ≡ some r =
              ap₂ (hits c.hash la lb buf) same_w h.settings.1 ∙ returns in
            record {
              progress = true;
              after = hashed_block c need start end r;
              returns = rw (k, called) refl;
              walks =
                  hashed_block-Walks c fed out need start end r h further within
                    (reported ∙ ap (boundaries checksum mask w) e) long
                    (elim lead [ inl l ↦ inl l | inr l ↦ inr (l.0, l.1) ]);
              keeps = hashed_block-Keeps c need start end r further;
              outcome = inl (refl, further, within);
            }
      ]

  -- Either nothing was dropped, or the bytes of the window before the next one are there.
  kept :
      (c : Core H Error) (fed : List ℕ) (out : List Chunk)
      → W c fed out
      → (c.cbuf_base ≡ 0) ⊎ (c.cbuf_base + (w - 1) ≤ c.hashed_to)
  kept c fed out h = elim (Bool-cases (ltb 0 c.cbuf_base)) [
    | inl p ↦ inr (h.lead_in (ground arith)).1
    | inr p ↦ inl (ground arith)
  ]

  -- A block starts with the bytes before its first window that the last block has seen.
  leads :
      (c : Core H Error) (fed : List ℕ) (out : List Chunk)
      → W c fed out
      → c.hashed_to < c.consumed
      → (max (c.hashed_to - (c.window - 1)) c.cbuf_base + (w - 1) ≡ c.hashed_to)
        ⊎ ((max (c.hashed_to - (c.window - 1)) c.cbuf_base ≡ 0)
            × (c.hashed_to < w)
            × ((min (c.hashed_to + c.batch_size) c.consumed ≡ length fed)
                ⊎ (w ≤ min (c.hashed_to + c.batch_size) c.consumed)))
  leads c fed out h left =
      let same_w : c.window ≡ w = h.settings.0 in
      let same_size : c.batch_size ≡ size = h.settings.4 in
      elim (Bool-cases (leb (c.cbuf_base + (w - 1)) c.hashed_to)) [
        | inl k ↦
            let room : c.cbuf_base + (w - 1) ≤ c.hashed_to = ground arith in
            inl (omega (arith, same_w, pos))
        | inr k ↦
            let room : c.hashed_to < c.cbuf_base + (w - 1) = ground arith in
            let whole : c.cbuf_base ≡ 0 = elim (kept c fed out h) [
              | inl l ↦ l
              | inr l ↦ absurd (omega arith)
            ] in
            inr (
              omega (arith, same_w),
              omega arith,
              elim (Bool-cases (leb (c.hashed_to + c.batch_size) c.consumed)) [
                | inl m ↦ inr (ground (arith, same_size))
                | inr m ↦ inl (ground (arith, h.consumed))
              ],
            )
      ]

  -- `hashForward` after the skip.
  pub hash_from-Hashes :
      (c : Core H Error) (fed : List ℕ) (out : List Chunk)
      → W c fed out
      → Hashes (hash_from hits c) c fed out
  unfolding hash_from
  hash_from-Hashes c fed out h =
      let same_w : c.window ≡ w = h.settings.0 in
      let same_size : c.batch_size ≡ size = h.settings.4 in
      let len : length c.cbuf ≡ length fed - c.cbuf_base =
        ap length h.buf ∙ length-drop c.cbuf_base fed in
      let start : ℕ = max (c.hashed_to - (c.window - 1)) c.cbuf_base in
      let end : ℕ = min (c.hashed_to + c.batch_size) c.consumed in
      elim (Bool-cases (leb c.consumed c.hashed_to)) [
        | inl k ↦ record {
          progress = false;
          after = c;
          returns = rw k refl;
          walks = h;
          keeps = Keeps-refl checksum s w mask min_size max_size size positive c;
          outcome = inr (refl, inl (ground (arith, h.consumed)));
        }
        | inr k ↦
            let within : end ≤ length fed = omega (arith, h.consumed) in
            let enough : ltb (length c.cbuf) (end - c.cbuf_base) ≡ false = ground arith in
            let further : c.hashed_to < end = ground (arith, same_size, fits, pos) in
            let lead_in : (c.cbuf_base ≡ 0) ⊎ (c.cbuf_base + (w - 1) ≤ c.hashed_to) =
              kept c fed out h in
            let based : c.cbuf_base ≤ c.hashed_to = elim lead_in [
              | inl l ↦ omega arith
              | inr l ↦ omega arith
            ] in
            let bounded : c.cbuf_base ≤ start = omega arith in
            let ordered : ltb end start ≡ false = ground arith in
            rw (k, ordered, enough)
              (hash_block-Hashes c fed out (slice (start - c.cbuf_base) (end - start) c.cbuf) start
                end h
                (ap (slice (start - c.cbuf_base) (end - start)) h.buf
                  ∙ block_bytes c.cbuf_base start end fed bounded)
                further within (omega arith) (omega (arith, same_w, same_size, short))
                (leads c fed out h (ground arith)))
      ]
