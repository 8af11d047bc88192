-- ===== src/Chunker/Next.antt =====
-- chunker.go: `next` after the hashing loop, the scan of the bounds.
use rollinghash.Prelude.{
  ℕ, ◌+◌, ◌-◌, ◌≤◌, ◌<◌, leb, ◌⊎◌, inl, inr, ◌≡◌, refl, sym, ap, ◌∙◌, arith, Bool, true, false,
  Bool-cases, List, [], ◌∷◌, ◌++◌, append-nil, Option, none, some, length, get_elem?, take, drop,
  drop-drop, length-append, length-drop, get_elem?-drop, lt_of_get_elem?, All-append, All-get_elem?,
  take-append-drop, subst,
}
use rollinghash.Kernel.{positions, max_window}
use rollinghash.Kernel.Positions.{First, Nothing, search_positions}
use rollinghash.Hasher.{Hasher, IsHasher}
use rollinghash.BatchRoller.{CoreState}
use rollinghash.Chunker.{Core, least, short_count, within, limit, has_candidate, emit, choose, scan}
use rollinghash.Chunker.Bounds.{Found, Found-scan, Found-cut, Found-used, Found-known}
use rollinghash.Chunker.Short.{IsShort, IsShort-le, short_count-IsShort}
use rollinghash.Chunker.Reference.{Chunk}
use rollinghash.Chunker.Wrap.{HasRoom, Reaches, HasRoom-Reaches, least-HasRoom}
use rollinghash.Chunker.Walk.{test, test_arrived}
use rollinghash.Chunker.Cuts.{latest_le, next_cut-first}
use rollinghash.Chunker.Choose.{emit-Outcome}
use rollinghash.Chunker.Scan.{V, O, Quiet, force-Outcome}
use rollinghash.Chunker.Range.{
  take_add, short_count_le, choose-none, choose-some, in_range, out_of_range, reached,
}

module _ {H : Hasher} {Error : Type 0} (checksum : List ℕ → ℕ) (w mask min_size max_size : ℕ)
    (s : IsHasher H checksum) (size : ℕ) (pos : 0 < w) (small : w < max_window)
    (positive : 0 < min_size) (room : 0 < max_size) where
  abbrev AtStream : Core H Error → List ℕ → List Chunk → Type 0
  AtStream = V checksum w mask min_size max_size s size pos small positive room

  abbrev Result : Option (CoreState × Core H Error) → Bool → ℕ → List ℕ → List Chunk → Type 0
  Result = O checksum w mask min_size max_size s size pos small positive room

  least-start :
      (c : Core H Error) (fed : List ℕ) (out : List Chunk)
      → AtStream c fed out
      → HasRoom min_size max_size (length fed)
      → least c ≡ c.chunk_start + min_size
  least-start c fed out h has_room =
      let same : c.chunk_start + c.min_size ≡ c.chunk_start + min_size =
        ap (λ m. c.chunk_start + m) h.settings.2 in
      least-HasRoom c (omega (arith, same, has_room.0, h.start_le)) ∙ same

  abbrev Unused : Core H Error → List ℕ → Type 0
  Unused c fed =
      drop c.bcur c.bounds
      ≡ positions (test checksum w mask min_size max_size fed) (c.chunk_start + (min_size - 1))
          (c.hashed_to - (c.chunk_start + (min_size - 1)))

  -- The first bound that is not too short is in range.
  cut-Outcome :
      (c : Core H Error) (fed : List ℕ) (out : List Chunk)
      → AtStream c fed out
      → Unused c fed
      → (f : First
          (test checksum w mask min_size max_size fed)
          (c.chunk_start + (min_size - 1))
          c.hashed_to)
      → get_elem? c.bounds c.bcur ≡ some f.at
      → f.at < length fed
      → c.hashed_to ≤ length fed
      → within (f.at + 1) (limit c) ≡ true
      → Reaches c
      → Result (emit (record c { bcur = c.bcur + 1 }) (f.at + 1) true) c.eof c.chunk_start fed out
  cut-Outcome c fed out h unused f e inside known k reaches =
      let t : ℕ → Bool = test checksum w mask min_size max_size fed in
      let head : drop c.bcur c.bounds ≡ f.at ∷ positions t (f.at + 1) (c.hashed_to - (f.at + 1)) =
        unused ∙ f.found in
      let one : take (c.bcur + 1) c.bounds ≡ take c.bcur c.bounds ++ (f.at ∷ []) =
        take_add c.bcur 1 c.bounds ∙ ap (λ xs. take c.bcur c.bounds ++ take 1 xs) head in
      let rest : drop (c.bcur + 1) c.bounds ≡ positions t (f.at + 1) (c.hashed_to - (f.at + 1)) =
        sym (drop-drop 1 c.bcur c.bounds) ∙ ap (drop 1) head in
      emit-Outcome checksum w mask min_size max_size s size pos small positive room c fed out
        (c.bcur + 1) (f.at + 1) true h (omega (arith, f.lo_le)) (omega arith)
        (omega (arith, lt_of_get_elem? c.bounds c.bcur f.at e))
        (subst (IsShort (f.at + 1 + min_size)) (sym one) (
          All-append (λ e. e + 1 < f.at + 1 + min_size) (take c.bcur c.bounds) (f.at ∷ [])
            (IsShort-le (c.chunk_start + min_size) (f.at + 1 + min_size) (take c.bcur c.bounds)
              (omega (arith, f.lo_le)) h.used)
            (omega arith, tt)))
        (subst (Found min_size positive t (length fed) (f.at + 1) c.hashed_to) (sym rest)
          (Found-used min_size positive t (length fed) c.chunk_start c.hashed_to f known))
        (λ q.
          next_cut-first checksum w mask min_size max_size (fed ++ q) c.chunk_start f.at
            (sym (test_arrived checksum w mask min_size max_size fed q f.at inside) ∙ f.passes)
            f.lo_le
            (λ i a b.
              sym (test_arrived checksum w mask min_size max_size fed q i (omega arith))
              ∙ f.none_before i a b)
            (in_range checksum w mask min_size max_size c (fed ++ q) f.at reaches h.settings.3
              (omega (arith, length-append fed q)) k))

  abbrev pub IsReady : Core H Error → List ℕ → Type 0
  IsReady c fed =
      (c.chunk_start + max_size ≤ c.hashed_to)
      ⊎ (has_candidate c ≡ true)
      ⊎ ((length fed ≤ c.hashed_to) ⊎ (length fed < w))

  -- Without a bound left, no boundary of the bytes that have arrived can end the chunk.
  Nothing-Quiet :
      (c : Core H Error) (fed : List ℕ) (out : List Chunk)
      → AtStream c fed out
      → Unused c fed
      → Nothing
          (test checksum w mask min_size max_size fed)
          (c.chunk_start + (min_size - 1))
          c.hashed_to
      → IsReady c fed
      → HasRoom min_size max_size (length fed)
      → Quiet checksum w mask min_size max_size fed c.chunk_start
  unfolding has_candidate
  Nothing-Quiet c fed out h unused n ready has_room i a b = elim ready [
    | inl k ↦ n.all_fail i a (
        omega (
          arith,
          reached checksum w mask min_size max_size fed c.chunk_start c.hashed_to
              (omega (arith, has_room.0)) k,
        ))
    | inr (inl k) ↦
        let all : c.bounds ≡ take c.bcur c.bounds =
          sym (take-append-drop c.bcur c.bounds)
          ∙ ap (λ xs. take c.bcur c.bounds ++ xs) (unused ∙ n.found)
          ∙ append-nil (take c.bcur c.bounds) in
        absurd (no_candidate (subst (IsShort (c.chunk_start + min_size)) (sym all) h.used) k)
    | inr (inr (inl k)) ↦
        n.all_fail i a
          (omega (arith, latest_le checksum w mask min_size max_size fed c.chunk_start))
    | inr (inr (inr k)) ↦
        let few : leb w (i + 1) ≡ false =
          (let le = latest_le checksum w mask min_size max_size fed c.chunk_start in
            ground arith) in
        rw few refl
  ]
    where
      starts : least c ≡ c.chunk_start + min_size
      starts = least-start c fed out h has_room

      candidate :
          IsShort (c.chunk_start + min_size) c.bounds
          → (o : Option ℕ) → get_elem? c.bounds (length c.bounds - 1) ≡ o
          → elim o [ some e ↦ leb (least c) (e + 1) | none ↦ false ] ≡ true
          → ⊥
      candidate short none e k = cc k
      candidate short (some at) e k =
          let lt =
            All-get_elem? (λ e. e + 1 < c.chunk_start + min_size) c.bounds (length c.bounds - 1) at
              short e in
          absurd (ground (arith, lt, starts))

      no_candidate : IsShort (c.chunk_start + min_size) c.bounds → has_candidate c ≡ true → ⊥
      no_candidate short k = candidate short (get_elem? c.bounds (length c.bounds - 1)) refl k

  -- `next` after the bounds that are too short.
  choose-Outcome :
      (c : Core H Error) (fed : List ℕ) (out : List Chunk)
      → AtStream c fed out
      → Unused c fed
      → IsReady c fed
      → HasRoom min_size max_size (length fed)
      → Result (choose c) c.eof c.chunk_start fed out
  choose-Outcome c fed out h unused ready has_room =
      let t : ℕ → Bool = test checksum w mask min_size max_size fed in
      let reaches : Reaches c =
        HasRoom-Reaches min_size max_size (length fed) c has_room h.start_le h.settings.3 in
      let lo : ℕ = c.chunk_start + (min_size - 1) in
      let at_head : (o : Option ℕ)
          → get_elem? (drop c.bcur c.bounds) 0 ≡ o
          → get_elem? c.bounds c.bcur ≡ o =
        λ o e.
          (let n : c.bcur + 0 ≡ c.bcur = omega arith in
            sym (get_elem?-drop c.bcur 0 c.bounds ∙ ap (get_elem? c.bounds) n) ∙ e) in
      elim (search_positions t (c.hashed_to - lo) lo c.hashed_to (omega arith)) [
        | inr n ↦
            subst (λ r. Result r c.eof c.chunk_start fed out)
              (sym (choose-none c (at_head none (ap (λ xs. get_elem? xs 0) (unused ∙ n.found)))))
              (force-Outcome checksum w mask min_size max_size s size pos small positive room c fed
                out h has_room unused (Nothing-Quiet c fed out h unused n ready has_room))
        | inl f ↦
            let e : get_elem? c.bounds c.bcur ≡ some f.at =
              at_head (some f.at) (ap (λ xs. get_elem? xs 0) (unused ∙ f.found)) in
            let known : c.hashed_to ≤ length fed =
              Found-known min_size positive t (length fed) c.chunk_start c.hashed_to
                (drop c.bcur c.bounds) h.found f in
            elim (Bool-cases (within (f.at + 1) (limit c))) [
              | inl k ↦
                  subst (λ r. Result r c.eof c.chunk_start fed out)
                    (sym (choose-some c f.at true e k))
                    (cut-Outcome c fed out h unused f e (omega (arith, f.below)) known k reaches)
              | inr k ↦
                  subst (λ r. Result r c.eof c.chunk_start fed out)
                    (sym (choose-some c f.at false e k))
                    (force-Outcome checksum w mask min_size max_size s size pos small positive room
                      c fed out h has_room unused
                      (λ i a b. f.none_before i a (
                        omega (
                          arith,
                          out_of_range checksum w mask min_size max_size c fed f.at reaches
                              h.settings.3 k,
                        ))))
            ]
      ]

  -- The scan of the bounds.
  pub scan-Outcome :
      (c : Core H Error) (fed : List ℕ) (out : List Chunk)
      → AtStream c fed out
      → IsReady c fed
      → HasRoom min_size max_size (length fed)
      → Result (scan c) c.eof c.chunk_start fed out
  unfolding scan least has_candidate
  scan-Outcome c fed out h ready has_room =
      let t : ℕ → Bool = test checksum w mask min_size max_size fed in
      let rest : List ℕ = drop c.bcur c.bounds in
      let n : ℕ = short_count (least c) rest in
      let same : least c ≡ c.chunk_start + min_size = least-start c fed out h has_room in
      let scanned : drop (c.bcur + n) c.bounds
          ≡ positions t (c.chunk_start + (min_size - 1))
              (c.hashed_to - (c.chunk_start + (min_size - 1))) =
        sym (drop-drop n c.bcur c.bounds)
        ∙ ap (λ m. drop (short_count m rest) rest) same
        ∙ Found-scan min_size positive t (length fed) c.chunk_start c.hashed_to rest h.found in
      choose-Outcome (record c { bcur = c.bcur + n }) fed out
        (record {
          settings = h.settings;
          holds = h.holds;
          in_range = h.in_range;
          buf = h.buf;
          consumed = h.consumed;
          start_le = h.start_le;
          lead_in = h.lead_in;
          bcur_le =
              omega (arith, h.bcur_le, short_count_le (least c) rest, length-drop c.bcur c.bounds);
          used = subst (IsShort (c.chunk_start + min_size)) (sym (take_add c.bcur n c.bounds)) (
              All-append (λ e. e + 1 < c.chunk_start + min_size) (take c.bcur c.bounds)
                (take n rest) h.used
                (subst (λ m. IsShort m (take n rest)) same (short_count-IsShort (least c) rest)));
          found =
              subst (Found min_size positive t (length fed) c.chunk_start c.hashed_to) (sym scanned)
                (Found-cut min_size positive t (length fed) c.chunk_start c.hashed_to c.chunk_start
                  rest h.found (omega arith) (λ i a b. absurd (omega arith)));
          so_far = h.so_far;
        })
        scanned ready has_room
