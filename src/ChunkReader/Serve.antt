-- ===== src/ChunkReader/Serve.antt =====
-- chunker.go: `Next` of `chunker` in the middle of a stream.
use rollinghash.Prelude.{
  ℕ, zero, suc, ◌+◌, ◌^◌, ◌≤◌, ◌<◌, ◌⊎◌, inl, inr, ◌≡◌, refl, sym, ap, ◌∙◌, arith, Bool, true,
  false, List, [], ◌∷◌, ◌++◌, append-nil, append_assoc, Option, none, some, length, length-append,
  IsBytes, All-front, All-back, subst,
}
use rollinghash.Kernel.{max_window}
use rollinghash.Hasher.{Hasher, IsHasher}
use rollinghash.TwoLane.{Hit}
use rollinghash.BatchReader.{Status, read_block}
use rollinghash.BatchReader.Fill.{IsReader, read_block_lem}
use rollinghash.Chunker.{Core, commit, close}
use rollinghash.Chunker.Contract.{IsBoundaryRoller}
use rollinghash.Chunker.Output.{current}
use rollinghash.Chunker.Reference.{Chunk}
use rollinghash.Chunker.Walk.{reference, Walks, Finished}
use rollinghash.Chunker.Feed.{compact-Walks, commit-Walks, close-Walks}
use rollinghash.Chunker.Wrap.{HasRoom, HasRoom-le}
use rollinghash.Chunker.Serve.{next-Outcome}
use rollinghash.ChunkReader.{Reader, filled, fill_core, next_read}
use rollinghash.ChunkReader.Calls.{
  fill_core-block, next_read-refilled, next_read-emitted, next_read-done,
}

module _ {H : Hasher} {Source Error : Type 0} (read : Source → ℕ → Source × List ℕ × Status Error)
    (remaining : Source → List ℕ) (io : IsReader read remaining)
    (hits : H.State → List ℕ → List ℕ → List ℕ → ℕ → ℕ → Option Hit) (checksum : List ℕ → ℕ)
    (s : IsHasher H checksum) (contract : IsBoundaryRoller H checksum s hits)
    (w mask min_size max_size size : ℕ) (pos : 0 < w) (small : w < max_window) (fits : w ≤ size)
    (short : size ≤ 2 ^ 31) (positive : 0 < min_size) (room : 0 < max_size) (stream : List ℕ)
    (stream_bytes : IsBytes stream) (has_room : HasRoom min_size max_size (length stream)) where
  abbrev W : Core H Error → List ℕ → List Chunk → Type 0
  W c fed out = Walks checksum s w mask min_size max_size size positive c fed out

  abbrev pub Done : Core H Error → List ℕ → List Chunk → Type 0
  Done c fed out = Finished checksum s w mask min_size max_size size positive c fed out

  -- The chunker has read a part of `stream`, its reader still has the rest, and `out` is handed out.
  pub record Going (r : Reader H Source Error) (out : List Chunk) : Type 0 where
    pub fed : List ℕ
    pub walks : W r.core fed out
    pub read_size : r.read_size ≡ size
    pub split :
        ((r.core.eof ≡ false) × (fed ++ remaining r.source ≡ stream))
        ⊎ ((r.core.eof ≡ true) × (fed ≡ stream))

  pub fed-le :
      (r : Reader H Source Error) (out : List Chunk)
      → (h : Going r out) → length h.fed ≤ length stream
  fed-le r out h = elim h.split [
    | inl e ↦ omega (arith, ap length e.1, length-append h.fed (remaining r.source))
    | inr e ↦ omega (arith, ap length e.1)
  ]

  -- `Next` hands out a chunk, or returns false with no error after the last.
  pub record Answers (result : Option (Bool × Reader H Source Error)) (start : ℕ) (out : List Chunk)
      : Type 0 where
    pub more : Bool
    pub after : Reader H Source Error
    pub returns : result ≡ some (more, after)
    pub outcome :
        ((more ≡ true)
          × Going after (out ++ (current after.core ∷ []))
          × (start < after.core.chunk_start))
        ⊎ ((more ≡ true) × Done after.core stream (out ++ (current after.core ∷ [])))
        ⊎ ((more ≡ false)
            × (after.core.err ≡ none)
            × (out ≡ reference checksum w mask min_size max_size stream))

  -- Rounds that are enough for one call of `Next`: one for each byte that is not read.
  abbrev pub Enough : ℕ → Reader H Source Error → List ℕ → Type 0
  Enough rounds r fed =
      (0 < rounds) × ((r.core.eof ≡ true) ⊎ (length stream + 1 < rounds + length fed))

  -- A refilled reader, with more bytes or at the end.
  record Refills (fuel : ℕ) (r : Reader H Source Error) (fed : List ℕ) (out : List Chunk)
      : Type 0 where
    goes_on : Bool
    after : Reader H Source Error
    returns : fill_core read fuel r ≡ some (goes_on, after)
    no_error : after.core.err ≡ none
    going : Going after out
    same_start : after.core.chunk_start ≡ r.core.chunk_start
    further : (after.core.eof ≡ true) ⊎ (length fed < length going.fed)

  fill_core-Refills :
      (r : Reader H Source Error) (fed : List ℕ) (out : List Chunk)
      → W r.core fed out
      → r.read_size ≡ size
      → r.core.eof ≡ false
      → fed ++ remaining r.source ≡ stream
      → Refills (suc size) r fed out
  unfolding filled close commit
  fill_core-Refills r fed out h same_size opened rest =
      let b = read_block_lem read remaining io (suc size) size r.source [] (omega arith) in
      let k = compact-Walks checksum s w mask min_size max_size size positive r.core fed out h in
      let c : Core H Error = k.after in
      let got : read_block read (suc size) r.read_size r.source []
          ≡ some (b.source, b.bytes, b.status) =
        ap (λ n. read_block read (suc size) n r.source []) same_size ∙ b.returns in
      let e =
        fill_core-block read (suc size) r c (b.source, b.bytes, b.status) opened k.returns got in
      let joined : (fed ++ b.bytes) ++ remaining b.source ≡ stream =
        append_assoc fed b.bytes (remaining b.source) ∙ ap (λ t. fed ++ t) (sym b.gives) ∙ rest in
      let bytes : IsBytes b.bytes =
        All-back (λ x. x < 256) fed b.bytes
          (All-front (λ x. x < 256) (fed ++ b.bytes) (remaining b.source)
            (subst IsBytes (sym joined) stream_bytes)) in
      let more : W (commit c b.bytes) (fed ++ b.bytes) out =
        commit-Walks checksum s w mask min_size max_size size positive c fed out b.bytes k.walks
          bytes in
      elim b.reason [
        | inl full ↦ record {
          goes_on = true;
          after = record r { core = commit c b.bytes; source = b.source };
          returns =
              e ∙ ap (λ t. some (filled (record r { core = c }) (b.source, b.bytes, t))) full.0;
          no_error = more.settings.5;
          going = record {
            fed = fed ++ b.bytes;
            walks = more;
            read_size = same_size;
            split = inl (k.same_eof ∙ opened, joined);
          };
          same_start = k.same_start;
          further = inr (omega (arith, full.1, length-append fed b.bytes, pos, fits));
        }
        | inr ended ↦ record {
          goes_on = false;
          after = record r { core = close (commit c b.bytes); source = b.source };
          returns =
              e ∙ ap (λ t. some (filled (record r { core = c }) (b.source, b.bytes, t))) ended.0;
          no_error = more.settings.5;
          going = record {
            fed = fed ++ b.bytes;
            walks =
                close-Walks checksum s w mask min_size max_size size positive (commit c b.bytes)
                  (fed ++ b.bytes) out more;
            read_size = same_size;
            split = inr (
              refl,
              sym (append-nil (fed ++ b.bytes))
                  ∙ ap (λ t. (fed ++ b.bytes) ++ t) (sym ended.1)
                  ∙ joined,
            );
          };
          same_start = k.same_start;
          further = inl refl;
        }
      ]

  -- An answer after a fill is an answer of the call.
  answered_later :
      (rounds : ℕ) (r d : Reader H Source Error) (out : List Chunk)
      → next_read read hits (suc rounds) (suc size) r ≡ next_read read hits rounds (suc size) d
      → d.core.chunk_start ≡ r.core.chunk_start
      → Answers (next_read read hits rounds (suc size) d) d.core.chunk_start out
      → Answers (next_read read hits (suc rounds) (suc size) r) r.core.chunk_start out
  answered_later rounds r d out e same a = record {
    more = a.more;
    after = a.after;
    returns = e ∙ a.returns;
    outcome = elim a.outcome [
      | inl (yes_, going, further) ↦ inl (yes_, going, omega (arith, further, same))
      | inr o ↦ inr o
    ];
  }

  -- `Next` reads until there is a chunk, or the stream has ended.
  pub next_read-Answers :
      (rounds : ℕ) (r : Reader H Source Error) (out : List Chunk)
      → (h : Going r out) → Enough rounds r h.fed
      → Answers (next_read read hits rounds (suc size) r) r.core.chunk_start out
  next_read-Answers zero r out h enough = absurd (let e = enough.0 in omega arith)
  next_read-Answers (suc rounds) r out h enough =
      let o =
        next-Outcome hits checksum s contract w mask min_size max_size size pos small fits short
          positive room r.core h.fed out h.walks
          (HasRoom-le min_size max_size (length h.fed) (length stream) (fed-le r out h) has_room) in
      elim o.outcome [
        | inl (e, further, walks, same_eof) ↦ record {
          more = true;
          after = record r { core = o.after };
          returns =
              next_read-emitted read hits rounds (suc size) r o.after
                (o.returns ∙ ap (λ t. some (t, o.after)) e);
          outcome = inl (
            refl,
            record {
              fed = h.fed;
              walks = walks;
              read_size = h.read_size;
              split = elim h.split [
                | inl (opened, rest) ↦ inl (same_eof ∙ opened, rest)
                | inr (closed, all) ↦ inr (same_eof ∙ closed, all)
              ];
            },
            further,
          );
        }
        | inr (inl (e, finished, closed)) ↦ record {
          more = true;
          after = record r { core = o.after };
          returns =
              next_read-emitted read hits rounds (suc size) r o.after
                (o.returns ∙ ap (λ t. some (t, o.after)) e);
          outcome = inr (
              inl (
                refl,
                subst (λ t. Done o.after t (out ++ (current o.after ∷ []))) (whole r out h closed)
                    finished,
              ));
        }
        | inr (inr (inr (e, finished, closed))) ↦ record {
          more = false;
          after = record r { core = o.after };
          returns =
              next_read-done read hits rounds (suc size) r o.after
                (o.returns ∙ ap (λ t. some (t, o.after)) e);
          outcome = inr (
              inr (
                refl,
                finished.no_error,
                finished.all_chunks
                    ∙ ap (reference checksum w mask min_size max_size) (whole r out h closed),
              ));
        }
        | inr (inr (inl (e, walks, opened, was_open, same_start))) ↦ elim h.split [
          | inr (closed, _) ↦ absurd (cc (was_open, closed))
          | inl (_, rest) ↦
              let f =
                fill_core-Refills (record r { core = o.after }) h.fed out walks h.read_size opened
                  rest in
              answered_later rounds r f.after out
                (next_read-refilled read hits rounds (suc size) r o.after f.goes_on f.after
                  (o.returns ∙ ap (λ t. some (t, o.after)) e) f.returns f.no_error)
                (f.same_start ∙ same_start)
                (next_read-Answers rounds f.after out f.going (elim enough.1 [
                  | inl closed ↦ absurd (cc (was_open, closed))
                  | inr many ↦ (
                    omega (arith, fed-le r out h),
                    elim f.further [ inl closed ↦ inl closed | inr longer ↦ inr (omega arith) ],
                  )
                ]))
        ]
      ]
    where
      whole :
          (r : Reader H Source Error) (out : List Chunk)
          → (h : Going r out) → r.core.eof ≡ true
          → h.fed ≡ stream
      whole r out h closed = elim h.split [
        | inl (opened, _) ↦ absurd (cc (opened, closed))
        | inr (_, all) ↦ all
      ]
