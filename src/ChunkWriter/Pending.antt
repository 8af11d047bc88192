-- ===== src/ChunkWriter/Pending.antt =====
-- chunkwriter.go: an open writer, `Write` and `Close`.
use rollinghash.Prelude.{
  ℕ, zero, suc, ◌-◌, max, ltb, leb, ◌≤◌, ◌<◌, Bool-cases, true, false, inl, inr, ◌≡◌, refl, sym, ap,
  ap₂, if◌then◌else◌, ◌∙◌, arith, List, [], ◌∷◌, ◌++◌, append-nil, append_assoc, none, some, length,
  take, drop, take-append-drop, length-append, length-drop, IsBytes, All-append, All-take, All-drop,
  subst,
}
use rollinghash.Hasher.{Hasher, IsHasher}
use rollinghash.BatchWriter.{err_closed}
use rollinghash.Chunker.{Core, feed, close, reset}
use rollinghash.Chunker.Reference.{Chunk}
use rollinghash.Chunker.Walk.{Walks}
use rollinghash.Chunker.Feed.{feed-Walks, close-Walks, reset-Walks}
use rollinghash.ChunkWriter.{
  Writer, feed_slices, write_direct, accept, write, close_writer, reset_writer,
}

length-zero : (xs : List ℕ) → length xs ≤ 0 → xs ≡ []
length-zero [] l = refl
length-zero (x ∷ xs) l = absurd (omega arith)

module _ {H : Hasher} {Error : Type 0} (checksum : List ℕ → ℕ) (s : IsHasher H checksum)
    (w mask min_size max_size size : ℕ) (positive : 0 < min_size) where
  abbrev W : Core H Error → List ℕ → List Chunk → Type 0
  W c fed out = Walks checksum s w mask min_size max_size size positive c fed out

  -- An open writer that was given the bytes `given`, whose calls of `Next` have handed out `out`.
  pub record Open (wr : Writer H Error) (given : List ℕ) (out : List Chunk) : Type 0 where
    pub fed : List ℕ
    pub walks : W wr.core fed out
    pub is_open : wr.core.eof ≡ false
    pub no_byte_lost : fed ++ wr.pending ≡ given
    pub bytes : IsBytes wr.pending
    pub short : length wr.pending < size

  given_eq :
      (wr : Writer H Error) (out : List Chunk) {a b : List ℕ}
      → a ≡ b
      → Open wr a out
      → Open wr b out
  given_eq wr out e h = subst (λ t. Open wr t out) e h

  fed_all :
      (wr : Writer H Error) (given : List ℕ) (out : List Chunk)
      → (h : Open wr given out) → ltb 0 (length wr.pending) ≡ false
      → h.fed ≡ given
  fed_all wr given out h e =
      sym (append-nil h.fed)
      ∙ ap (λ t. h.fed ++ t) (sym (length-zero wr.pending (ground arith)))
      ∙ h.no_byte_lost

  -- Whole slices are fed, without a panic.
  feed_slices-Open :
      (left : ℕ) (c : Core H Error) (fed : List ℕ) (out : List Chunk) (p : List ℕ)
      → W c fed out
      → c.eof ≡ false
      → IsBytes p
      → length p ≤ left
      → 0 < size
      → (d : Core H Error) × (rest : List ℕ) × (feed_slices left size c p ≡ some (d, rest))
        × Open (record { core = d; pending = rest }) (fed ++ p) out
  unfolding feed_slices
  feed_slices-Open zero c fed out p h opened bytes enough pos = (
    c,
    p,
    refl,
    record {
      fed = fed;
      walks = h;
      is_open = opened;
      no_byte_lost = refl;
      bytes = bytes;
      short = omega arith;
    },
  )
  feed_slices-Open (suc left) c fed out p h opened bytes enough pos =
      elim (Bool-cases (leb size (length p))) [
        | inl e ↦
            let long : size ≤ length p = ground arith in
            let joined : (fed ++ take size p) ++ drop size p ≡ fed ++ p =
              append_assoc fed (take size p) (drop size p)
              ∙ ap (λ t. fed ++ t) (take-append-drop size p) in
            let (c', fed_it, walks, same_eof) =
              feed-Walks checksum s w mask min_size max_size size positive c fed out (take size p) h
                (All-take (λ x. x < 256) size p bytes) in
            let (d, rest, returns, is_open) =
              feed_slices-Open left c' (fed ++ take size p) out (drop size p) walks
                (same_eof ∙ opened) (All-drop (λ x. x < 256) size p bytes)
                (omega (arith, length-drop size p)) pos in
            (d, rest, rw (feed_slices, e, fed_it) returns, given_eq _ out joined is_open)
        | inr e ↦ (
          c,
          p,
          rw (feed_slices, e) refl,
          record {
            fed = fed;
            walks = h;
            is_open = opened;
            no_byte_lost = refl;
            bytes = bytes;
            short = (ground arith);
          },
        )
      ]

  write_direct-Open :
      (c : Core H Error) (fed : List ℕ) (out : List Chunk) (p : List ℕ)
      → W c fed out
      → c.eof ≡ false
      → IsBytes p
      → 0 < size
      → (wr : Writer H Error) × (write_direct size c p ≡ some wr) × Open wr (fed ++ p) out
  unfolding write_direct
  write_direct-Open c fed out p h opened bytes pos =
      let (d, rest, returns, is_open) =
        feed_slices-Open (length p) c fed out p h opened bytes (omega arith) pos in
      (record { core = d; pending = rest }, rw returns refl, is_open)

  pub reset_writer-Open :
      (wr : Writer H Error)
      → (held : List ℕ) × s.Holds wr.core.hash held
      → wr.core.window ≡ w
      → wr.core.mask ≡ mask
      → wr.core.min_size ≡ min_size
      → wr.core.max_size ≡ max_size
      → wr.core.batch_size ≡ size
      → 0 < size
      → Open (reset_writer wr) [] []
  unfolding reset_writer reset
  reset_writer-Open wr holds ew em emin emax es pos = record {
    fed = [];
    walks =
        reset-Walks checksum s w mask min_size max_size size positive wr.core holds ew em emin emax
          es;
    is_open = refl;
    no_byte_lost = refl;
    bytes = tt;
    short = pos;
  }

  -- The pending bytes are topped up to a whole slice, and the rest follows.
  topped_up :
      (wr : Writer H Error) (given : List ℕ) (out : List Chunk) (p : List ℕ)
      → (h : Open wr given out) → IsBytes p
      → 0 < size
      → (c : Core H Error) × (wr' : Writer H Error) × (feed wr.core
            (wr.pending ++ take (size - length wr.pending) p)
          ≡ some c)
        × (write_direct size c (drop (size - length wr.pending) p) ≡ some wr')
        × Open wr' (given ++ p) out
  topped_up wr given out p h bytes pos =
      let need : ℕ = size - length wr.pending in
      let head : List ℕ = wr.pending ++ take need p in
      let joined : (h.fed ++ head) ++ drop need p ≡ given ++ p =
        append_assoc h.fed head (drop need p)
        ∙ ap (λ t. h.fed ++ t)
            (append_assoc wr.pending (take need p) (drop need p)
              ∙ ap (λ t. wr.pending ++ t) (take-append-drop need p))
        ∙ sym (append_assoc h.fed wr.pending p)
        ∙ ap (λ t. t ++ p) h.no_byte_lost in
      let (c, fed_it, walks, same_eof) =
        feed-Walks checksum s w mask min_size max_size size positive wr.core h.fed out head h.walks
          (All-append (λ x. x < 256) wr.pending (take need p) h.bytes
            (All-take (λ x. x < 256) need p bytes)) in
      let (wr', returns, is_open) =
        write_direct-Open c (h.fed ++ head) out (drop need p) walks (same_eof ∙ h.is_open)
          (All-drop (λ x. x < 256) need p bytes) pos in
      (c, wr', fed_it, returns, given_eq wr' out joined is_open)

  accept-Open :
      (wr : Writer H Error) (given : List ℕ) (out : List Chunk) (p : List ℕ)
      → Open wr given out
      → IsBytes p
      → 0 < size
      → (wr' : Writer H Error) × (accept size wr p ≡ some (wr', length p, none))
        × Open wr' (given ++ p) out
  unfolding accept
  accept-Open wr given out p h bytes pos = elim (Bool-cases (ltb 0 (length wr.pending))) [
    | inl e ↦ elim (Bool-cases (ltb (length p) (size - length wr.pending))) [
      | inl few ↦ (
        record wr { pending = wr.pending ++ p },
        rw (e, not_over, few) refl,
        record {
          fed = h.fed;
          walks = h.walks;
          is_open = h.is_open;
          no_byte_lost = sym (append_assoc h.fed wr.pending p) ∙ ap (λ t. t ++ p) h.no_byte_lost;
          bytes = All-append (λ x. x < 256) wr.pending p h.bytes bytes;
          short = (ground (arith, length-append wr.pending p, h.short));
        },
      )
      | inr many ↦
          let (c, wr', fed_it, returns, is_open) = topped_up wr given out p h bytes pos in
          (wr', rw (e, not_over, many, fed_it, returns) refl, is_open)
    ]
    | inr e ↦
        let (wr', returns, is_open) =
          write_direct-Open wr.core h.fed out p h.walks h.is_open bytes pos in
        (
          wr',
          rw (e, returns) refl,
          given_eq wr' out (ap (λ t. t ++ p) (fed_all wr given out h e)) is_open,
        )
  ]
    where
      not_over : ltb size (length wr.pending) ≡ false
      not_over = ground (arith, h.short)

  -- With a positive batch size, a Write of bytes to an open ChunkWriter does not panic, returns the
  -- number of bytes and no error, and leaves the writer open.
  pub write-Open_chunks :
      (wr : Writer H Error) (given : List ℕ) (out : List Chunk) (p : List ℕ)
      → Open wr given out
      → IsBytes p
      → 0 < size
      → (wr' : Writer H Error) × (write wr p ≡ some (wr', length p, none))
        × Open wr' (given ++ p) out
  unfolding write
  write-Open_chunks wr given out p h bytes pos =
      let same : max wr.core.batch_size 1 ≡ size = omega (arith, h.walks.settings.4, pos) in
      let (wr', returns, is_open) = accept-Open wr given out p h bytes pos in
      (
        wr',
        ap₂ (λ b n. if b then some (wr, 0, some err_closed) else accept n wr p) h.is_open same
            ∙ returns,
        is_open,
      )

  -- `Close` flushes what is pending.
  pub close_writer-Walks :
      (wr : Writer H Error) (given : List ℕ) (out : List Chunk)
      → Open wr given out
      → (wr' : Writer H Error) × (close_writer wr ≡ some wr')
        × W wr'.core given out
        × (wr'.core.eof ≡ true)
  unfolding close_writer close
  close_writer-Walks wr given out h = elim (Bool-cases (ltb 0 (length wr.pending))) [
    | inl e ↦
        let (c, returns, walks, _) =
          feed-Walks checksum s w mask min_size max_size size positive wr.core h.fed out wr.pending
            h.walks h.bytes in
        (
          record { core = close c; pending = [] },
          rw (e, returns) refl,
          close-Walks checksum s w mask min_size max_size size positive c given out
              (subst (λ t. W c t out) h.no_byte_lost walks),
          refl,
        )
    | inr e ↦ (
      record { core = close wr.core; pending = [] },
      rw e refl,
      close-Walks checksum s w mask min_size max_size size positive wr.core given out
          (subst (λ t. W wr.core t out) (fed_all wr given out h e) h.walks),
      refl,
    )
  ]
