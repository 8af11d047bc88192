-- ===== src/BatchWriter/Pending.antt =====
-- batchwriter.go: an open writer, `Write` and `Close`.
use rollinghash.Prelude.{
  ℕ, zero, suc, ◌-◌, max, ltb, leb, ◌≤◌, ◌<◌, Bool-cases, true, false, inl, inr, ◌≡◌, refl, sym, ap,
  ◌∙◌, arith, List, [], ◌∷◌, ◌++◌, append-nil, append_assoc, Option, none, some, length, take, drop,
  take-append-drop, length-append, length-drop, IsBytes, All-append, All-take, All-drop, subst,
}
use rollinghash.BatchRoller.{Core, feed, reset, new_core, configured, with_buffer_size}
use rollinghash.BatchRoller.Walk.{Walks, feed-Walks, close-Walks, configured-Walks, reset-Walks}
use rollinghash.BatchWriter.{
  Writer, new_writer, feed_slices, write_direct, write, close_writer, reset_writer,
}

length-zero : (xs : List ℕ) → length xs ≤ 0 → xs ≡ []
length-zero [] l = refl
length-zero (x ∷ xs) l = absurd (omega arith)

module _ {Error : Type 0} (checksum : List ℕ → ℕ) (w size : ℕ) where
  -- An open writer that was given the bytes `given`, whose calls of `Next` have handed out `out`.
  pub record Open (wr : Writer Error) (given out : List ℕ) : Type 0 where
    pub fed : List ℕ
    pub walks : Walks checksum w size wr.core fed out
    pub is_open : wr.core.eof ≡ false
    pub no_byte_lost : fed ++ wr.pending ≡ given
    pub bytes : IsBytes wr.pending
    pub short : length wr.pending < size

  given_eq :
      (wr : Writer Error) (out : List ℕ) {a b : List ℕ} → a ≡ b → Open wr a out → Open wr b out
  given_eq wr out e h = subst (λ t. Open wr t out) e h

  fed_all :
      (wr : Writer Error) (given out : List ℕ)
      → (h : Open wr given out) → ltb 0 (length wr.pending) ≡ false
      → h.fed ≡ given
  fed_all wr given out h e =
      sym (append-nil h.fed)
      ∙ ap (λ t. h.fed ++ t) (sym (length-zero wr.pending (ground arith)))
      ∙ h.no_byte_lost

  feed_slices-Open :
      (left : ℕ) (c : Core Error) (fed out p : List ℕ)
      → Walks checksum w size c fed out
      → c.eof ≡ false
      → IsBytes p
      → length p ≤ left
      → 0 < size
      → Open
          (record { core = (feed_slices left size c p).0; pending = (feed_slices left size c p).1 })
          (fed ++ p)
          out
  unfolding feed_slices feed
  feed_slices-Open zero c fed out p h opened bytes enough pos = record {
    fed = fed;
    walks = h;
    is_open = opened;
    no_byte_lost = refl;
    bytes = bytes;
    short = omega arith;
  }
  feed_slices-Open (suc left) c fed out p h opened bytes enough pos =
      elim (Bool-cases (leb size (length p))) [
        | inl e ↦
            rw (feed_slices, e)
              (given_eq _ out joined (
                feed_slices-Open left (feed c (take size p)) (fed ++ take size p) out (drop size p)
                  (feed-Walks checksum w size c fed out (take size p) h
                    (All-take (λ x. x < 256) size p bytes))
                  opened (All-drop (λ x. x < 256) size p bytes)
                  (omega (arith, length-drop size p, long e)) pos))
        | inr e ↦
            rw (feed_slices, e)
              record {
                fed = fed;
                walks = h;
                is_open = opened;
                no_byte_lost = refl;
                bytes = bytes;
                short = (ground arith);
              }
      ]
    where
      long : leb size (length p) ≡ true → size ≤ length p
      long e = ground arith

      joined : (fed ++ take size p) ++ drop size p ≡ fed ++ p
      joined =
          append_assoc fed (take size p) (drop size p)
          ∙ ap (λ t. fed ++ t) (take-append-drop size p)

  write_direct-Open :
      (c : Core Error) (fed out p : List ℕ)
      → Walks checksum w size c fed out
      → c.eof ≡ false
      → IsBytes p
      → 0 < size
      → Open (write_direct size c p) (fed ++ p) out
  unfolding write_direct
  write_direct-Open c fed out p h opened bytes pos =
      feed_slices-Open (length p) c fed out p h opened bytes (omega arith) pos

  pub new_writer-Open :
      (option : Option ℕ)
      → (configured {Error = Error} w option).batch_size ≡ size
      → 0 < size
      → Open (new_writer w option) [] []
  unfolding new_writer configured new_core with_buffer_size
  new_writer-Open option e pos = record {
    fed = [];
    walks = configured-Walks checksum w size option e;
    is_open = configured-eof option;
    no_byte_lost = refl;
    bytes = tt;
    short = pos;
  }
    where
      configured-eof : (o : Option ℕ) → (configured {Error = Error} w o).eof ≡ false
      configured-eof none = refl
      configured-eof (some n) = refl

  pub reset_writer-Open :
      (wr : Writer Error)
      → wr.core.window ≡ w
      → wr.core.batch_size ≡ size
      → 0 < size
      → Open (reset_writer wr) [] []
  unfolding reset_writer reset
  reset_writer-Open wr ew es pos = record {
    fed = [];
    walks = reset-Walks checksum w size wr.core ew es;
    is_open = refl;
    no_byte_lost = refl;
    bytes = tt;
    short = pos;
  }

  -- The pending bytes are topped up to a whole slice, and the rest follows.
  topped_up :
      (wr : Writer Error) (given out p : List ℕ)
      → (h : Open wr given out) → IsBytes p
      → 0 < size
      → Open
          (write_direct size
            (feed wr.core (wr.pending ++ take (size - length wr.pending) p))
            (drop (size - length wr.pending) p))
          (given ++ p)
          out
  unfolding feed
  topped_up wr given out p h bytes pos =
      let need : ℕ = size - length wr.pending in
      let head : List ℕ = wr.pending ++ take need p in
      let joined : (h.fed ++ head) ++ drop need p ≡ given ++ p =
        append_assoc h.fed head (drop need p)
        ∙ ap (λ t. h.fed ++ t)
            (append_assoc wr.pending (take need p) (drop need p)
              ∙ ap (λ t. wr.pending ++ t) (take-append-drop need p))
        ∙ sym (append_assoc h.fed wr.pending p)
        ∙ ap (λ t. t ++ p) h.no_byte_lost in
      given_eq _ out joined (
        write_direct-Open (feed wr.core head) (h.fed ++ head) out (drop need p)
          (feed-Walks checksum w size wr.core h.fed out head h.walks (
            All-append (λ x. x < 256) wr.pending (take need p) h.bytes
              (All-take (λ x. x < 256) need p bytes)))
          h.is_open (All-drop (λ x. x < 256) need p bytes) pos)

  -- With a positive batch size, a Write of bytes to an open BatchWriter does not panic, returns
  -- the number of bytes and no error, and leaves the writer open, with no byte lost or repeated
  -- between the core and pending, and less than a batch pending.
  pub write-Open :
      (wr : Writer Error) (given out p : List ℕ)
      → Open wr given out
      → IsBytes p
      → 0 < size
      → (wr' : Writer Error) × (write wr p ≡ some (wr', length p, none)) × Open wr' (given ++ p) out
  unfolding write
  write-Open wr given out p h bytes pos =
      let same : max wr.core.batch_size 1 ≡ size = omega (arith, h.walks.batch_size, pos) in
      elim (Bool-cases (ltb 0 (length wr.pending))) [
        | inl e ↦ elim (Bool-cases (ltb (length p) (size - length wr.pending))) [
          | inl few ↦ (
            record wr { pending = wr.pending ++ p },
            rw (h.is_open, same, e, not_over, few) refl,
            record {
              fed = h.fed;
              walks = h.walks;
              is_open = h.is_open;
              no_byte_lost =
                  sym (append_assoc h.fed wr.pending p) ∙ ap (λ t. t ++ p) h.no_byte_lost;
              bytes = All-append (λ x. x < 256) wr.pending p h.bytes bytes;
              short = (ground (arith, length-append wr.pending p, h.short));
            },
          )
          | inr many ↦ (
            _,
            rw (h.is_open, same, e, not_over, many) refl,
            topped_up wr given out p h bytes pos,
          )
        ]
        | inr e ↦ (
          _,
          rw (h.is_open, same, e) refl,
          given_eq _ out (ap (λ t. t ++ p) (fed_all wr given out h e))
              (write_direct-Open wr.core h.fed out p h.walks h.is_open bytes pos),
        )
      ]
    where
      not_over : ltb size (length wr.pending) ≡ false
      not_over = ground (arith, h.short)

  -- `Close` flushes what is pending.
  pub close_writer-Walks :
      (wr : Writer Error) (given out : List ℕ)
      → Open wr given out
      → Walks checksum w size (close_writer wr).core given out
  unfolding close_writer
  close_writer-Walks wr given out h = elim (Bool-cases (ltb 0 (length wr.pending))) [
    | inl e ↦ rw e (
        close-Walks checksum w size (feed wr.core wr.pending) given out (
          subst (λ t. Walks checksum w size (feed wr.core wr.pending) t out) h.no_byte_lost
            (feed-Walks checksum w size wr.core h.fed out wr.pending h.walks h.bytes)))
    | inr e ↦ rw e (
        close-Walks checksum w size wr.core given out
          (subst (λ t. Walks checksum w size wr.core t out) (fed_all wr given out h e) h.walks))
  ]
