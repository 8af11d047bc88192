-- ===== src/Chunker/Choose.antt =====
-- chunker.go: the part of `next` that cuts a chunk, by a boundary, by force or at the end.
use rollinghash.Prelude.{
  ℕ, ◌+◌, ◌≤◌, ◌<◌, ltb, ◌⊎◌, inl, inr, ◌≡◌, refl, sym, ap, ◌∙◌, arith, Bool, true, false,
  Bool-cases, List, [], ◌∷◌, ◌++◌, append_assoc, append-nil, Option, some, length, take, drop,
  length-append,
}
use rollinghash.Kernel.{max_window}
use rollinghash.Hasher.{Hasher, IsHasher}
use rollinghash.BatchRoller.{CoreState, need_more, emitted, core_done}
use rollinghash.Chunker.{Core, emit, trailing, cleared}
use rollinghash.Chunker.Bounds.{Found}
use rollinghash.Chunker.Short.{IsShort}
use rollinghash.Chunker.Reference.{Chunk, Cut, latest, next_cut, chunk_at}
use rollinghash.Chunker.Walk.{test, reference, rest_of, Walks, Finished}
use rollinghash.Chunker.Cuts.{rest_of-step, rest_of-end}
use rollinghash.Chunker.Output.{current}
use rollinghash.Chunker.Emit.{chunk_at_arrived, Buffered, handed, emit-Emission}

module _ (checksum : List ℕ → ℕ) (w mask min_size max_size : ℕ) where
  abbrev pub T : List ℕ → ℕ → Bool
  T = test checksum w mask min_size max_size

  abbrev pub L : List ℕ → ℕ → ℕ
  L = latest checksum w mask min_size max_size

  abbrev pub N : List ℕ → ℕ → Cut
  N = next_cut checksum w mask min_size max_size

  abbrev C : List ℕ → ℕ → Cut → Chunk
  C = chunk_at checksum w mask min_size max_size

  module _ {H : Hasher} {Error : Type 0} (s : IsHasher H checksum) (size : ℕ) (pos : 0 < w)
      (small : w < max_window) (positive : 0 < min_size) (room : 0 < max_size) where
    abbrev pub W : Core H Error → List ℕ → List Chunk → Type 0
    W c fed out = Walks checksum s w mask min_size max_size size positive c fed out

    abbrev pub Done : Core H Error → List ℕ → List Chunk → Type 0
    Done c fed out = Finished checksum s w mask min_size max_size size positive c fed out

    -- What a call of `next` does: it hands out a chunk, or it waits for more bytes, or it ends.
    pub record Outcome (r : Option (CoreState × Core H Error)) (eof : Bool) (start : ℕ)
        (fed : List ℕ) (out : List Chunk) : Type 0 where
      pub state : CoreState
      pub after : Core H Error
      pub returns : r ≡ some (state, after)
      pub outcome :
          ((state ≡ emitted)
            × (start < after.chunk_start)
            × W after fed (out ++ (current after ∷ []))
            × (after.eof ≡ eof))
          ⊎ ((state ≡ emitted) × Done after fed (out ++ (current after ∷ [])) × (eof ≡ true))
          ⊎ ((state ≡ need_more)
              × W after fed out
              × (after.eof ≡ false)
              × (eof ≡ false)
              × (after.chunk_start ≡ start))
          ⊎ ((state ≡ core_done) × Done after fed out × (eof ≡ true))

    -- A buffer, whatever bounds have been used.
    buffered :
        (c : Core H Error) (fed : List ℕ) (out : List Chunk) (bcur : ℕ) (done : Bool)
        → W c fed out
        → Buffered checksum s w pos small (record c { bcur = bcur; done = done }) fed
    buffered c fed out bcur done h = record {
      same_w = h.settings.0;
      holds = h.holds;
      in_range = h.in_range;
      buf = h.buf;
      lead_in = elim (Bool-cases (ltb 0 c.cbuf_base)) [
        | inl p ↦ inr (h.lead_in (ground arith)).0
        | inr p ↦ inl (ground arith)
      ];
    }

    -- The chunks of any longer stream, after a chunk that is the next of it.
    so_far-cut :
        (c : Core H Error) (fed : List ℕ) (out : List Chunk) (cut : Cut) (q : List ℕ)
        → W c fed out
        → c.chunk_start < cut.end
        → cut.end ≤ length fed
        → N (fed ++ q) c.chunk_start ≡ cut
        → reference checksum w mask min_size max_size (fed ++ q)
          ≡ (out ++ (C fed c.chunk_start cut ∷ []))
            ++ rest_of checksum w mask min_size max_size (fed ++ q) cut.end
    so_far-cut c fed out cut q h further inside e =
        h.so_far q
        ∙ ap (λ rest. out ++ rest)
            (rest_of-step checksum w mask min_size max_size (fed ++ q) c.chunk_start room
                (omega (arith, length-append fed q))
              ∙ ap
                  (λ x.
                    C (fed ++ q) c.chunk_start x
                    ∷ rest_of checksum w mask min_size max_size (fed ++ q) x.end)
                  e
              ∙ ap (λ x. x ∷ rest_of checksum w mask min_size max_size (fed ++ q) cut.end)
                  (chunk_at_arrived checksum w mask min_size max_size fed q c.chunk_start cut
                    (omega arith) inside))
        ∙ sym (
            append_assoc out (C fed c.chunk_start cut ∷ [])
              (rest_of checksum w mask min_size max_size (fed ++ q) cut.end))

    -- A chunk that is the next of the stream, however it goes on.
    pub emit-Outcome :
        (c : Core H Error) (fed : List ℕ) (out : List Chunk) (bcur end : ℕ) (content_defined : Bool)
        → W c fed out
        → c.chunk_start < end
        → end ≤ length fed
        → bcur ≤ length c.bounds
        → IsShort (end + min_size) (take bcur c.bounds)
        → Found min_size positive (T fed) (length fed) end c.hashed_to (drop bcur c.bounds)
        → ((q : List ℕ)
            → N (fed ++ q) c.chunk_start ≡ record { end = end; content_defined = content_defined })
        → Outcome (emit (record c { bcur = bcur }) end content_defined) c.eof c.chunk_start fed out
    emit-Outcome c fed out bcur end content_defined h further inside bcur_le used found cut =
        let e =
          emit-Emission checksum s w pos small (record c { bcur = bcur }) fed mask min_size max_size
            end content_defined (buffered c fed out bcur c.done h) further inside in
        let after : Core H Error =
          handed checksum s w pos small (record c { bcur = bcur }) end content_defined e.hash
            e.sumv in
        let walks : W after fed (out ++ (current after ∷ [])) = record {
          settings = h.settings;
          holds = e.holds;
          in_range = h.in_range;
          buf = h.buf;
          consumed = h.consumed;
          start_le = inside;
          lead_in = λ p. (omega (arith, (h.lead_in p).0), (h.lead_in p).1);
          bcur_le = bcur_le;
          used = used;
          found = found;
          so_far = λ q.
              so_far-cut c fed out (record { end = end; content_defined = content_defined }) q h
                further inside (cut q)
              ∙ ap
                  (λ k.
                    (out ++ (k ∷ [])) ++ rest_of checksum w mask min_size max_size (fed ++ q) end)
                  (sym e.shows);
        } in
        record {
          state = emitted;
          after = after;
          returns = e.returns;
          outcome = inl (refl, further, walks, refl);
        }

    -- The end of the stream.
    pub trailing-Outcome :
        (c : Core H Error) (fed : List ℕ) (out : List Chunk)
        → W c fed out
        → (c.chunk_start < length fed
            → N fed c.chunk_start ≡ record { end = length fed; content_defined = false })
        → Outcome (trailing c) c.eof c.chunk_start fed out
    unfolding trailing cleared
    trailing-Outcome c fed out h cut = elim (Bool-cases c.eof) [
      | inr open_ ↦ record {
        state = need_more;
        after = c;
        returns = rw open_ refl;
        outcome = inr (inr (inl (refl, h, open_, open_, refl)));
      }
      | inl closed ↦ elim (Bool-cases (ltb c.chunk_start c.consumed)) [
        | inr k ↦ record {
          state = core_done;
          after = cleared (record c { done = true });
          returns = rw (closed, k) refl;
          outcome = inr (
              inr (
                inr (
                  refl,
                  record {
                    no_error = h.settings.5;
                    is_done = refl;
                    is_eof = closed;
                    all_chunks =
                        sym (append-nil out)
                        ∙ ap (λ rest. out ++ rest)
                            (sym (
                              rest_of-end checksum w mask min_size max_size (fed ++ [])
                                c.chunk_start (ground (arith, h.consumed, length-append fed []))))
                        ∙ sym (h.so_far [])
                        ∙ ap (reference checksum w mask min_size max_size) (append-nil fed);
                  },
                  closed,
                )));
        }
        | inl k ↦
            let all : c.consumed ≡ length fed = h.consumed in
            let further : c.chunk_start < length fed = ground (arith, all) in
            let e =
              emit-Emission checksum s w pos small (record c { done = true }) fed mask min_size
                max_size (length fed) false (buffered c fed out c.bcur true h) further
                (omega arith) in
            let after : Core H Error =
              handed checksum s w pos small (record c { done = true }) (length fed) false e.hash
                e.sumv in
            let last : Cut = record { end = length fed; content_defined = false } in
            let whole : (q : List ℕ) → q ≡ [] → N (fed ++ q) c.chunk_start ≡ last = λ q e.
              ap (λ t. N (fed ++ t) c.chunk_start) e
              ∙ ap (λ t. N t c.chunk_start) (append-nil fed)
              ∙ cut further in
            record {
              state = emitted;
              after = after;
              returns =
                  step closed k ∙ ap (λ n. emit (record c { done = true }) n false) all ∙ e.returns;
              outcome = inr (
                  inl (
                    refl,
                    record {
                      no_error = h.settings.5;
                      is_done = refl;
                      is_eof = closed;
                      all_chunks =
                          ap (λ x. out ++ (x ∷ [])) e.shows
                          ∙ sym (append-nil (out ++ (C fed c.chunk_start last ∷ [])))
                          ∙ ap (λ rest. (out ++ (C fed c.chunk_start last ∷ [])) ++ rest)
                              (sym (
                                rest_of-end checksum w mask min_size max_size (fed ++ [])
                                  (length fed) (omega (arith, length-append fed []))))
                          ∙ sym
                              (so_far-cut c fed out last [] h further (omega arith) (whole [] refl))
                          ∙ ap (reference checksum w mask min_size max_size) (append-nil fed);
                    },
                    closed,
                  ));
            }
      ]
    ]
      where
        step :
            c.eof ≡ true
            → ltb c.chunk_start c.consumed ≡ true
            → trailing c ≡ emit (record c { done = true }) c.consumed false
        step closed k = rw (closed, k) refl
