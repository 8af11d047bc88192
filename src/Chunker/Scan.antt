-- ===== src/Chunker/Scan.antt =====
-- chunker.go: the part of `next` after the hashing loop.
use rollinghash.Prelude.{
  ℕ, ◌+◌, ◌-◌, ◌≤◌, ◌<◌, leb, ◌==◌, if◌then◌else◌, inl, inr, ◌≡◌, refl, sym, ap, ◌∙◌, arith, Bool,
  true, false, Bool-cases, List, ◌++◌, Option, none, some, length, take, drop, length-append, subst,
}
use rollinghash.Kernel.{positions, max_window}
use rollinghash.Hasher.{Hasher, IsHasher}
use rollinghash.BatchRoller.{CoreState}
use rollinghash.Chunker.{Core, max_int, limit, emit, trailing, force}
use rollinghash.Chunker.Bounds.{Found, Found-cut}
use rollinghash.Chunker.Short.{IsShort-le}
use rollinghash.Chunker.Reference.{Chunk, latest, next_cut}
use rollinghash.Chunker.Wrap.{HasRoom, HasRoom-Reaches, limit-cases}
use rollinghash.Chunker.Walk.{test, test_arrived}
use rollinghash.Chunker.Cuts.{next_cut-none}
use rollinghash.Chunker.Choose.{W, Outcome, emit-Outcome, trailing-Outcome}

-- `force` in the two cases of `limit`.
module _ {H : Hasher} {Error : Type 0} where
  force-none : (c : Core H Error) → limit c ≡ none → force c ≡ trailing c
  unfolding force
  force-none c e =
      ap
        (λ o. elim o [
          | none ↦ trailing c
          | some end ↦ if leb end c.consumed then emit c end false else trailing c
        ])
        e

  force-some :
      (c : Core H Error) (end : ℕ)
      → limit c ≡ some end
      → force c ≡ (if leb end c.consumed then emit c end false else trailing c)
  unfolding force
  force-some c end e =
      ap
        (λ o. elim o [
          | none ↦ trailing c
          | some n ↦ if leb n c.consumed then emit c n false else trailing c
        ])
        e

module _ (checksum : List ℕ → ℕ) (w mask min_size max_size : ℕ) where
  -- No boundary of the bytes that have arrived can end the chunk.
  abbrev pub Quiet : List ℕ → ℕ → Type 0
  Quiet fed start =
      (i : ℕ)
      → start + (min_size - 1) ≤ i
      → i < latest checksum w mask min_size max_size fed start
      → test checksum w mask min_size max_size fed i ≡ false

  -- Without a boundary the chunk ends at its longest, as soon as those bytes have arrived, whatever
  -- arrives after them.
  forced-next :
      (fed q : List ℕ) (start : ℕ)
      → (max_size == max_int) ≡ false
      → start + max_size ≤ length fed
      → Quiet fed start
      → next_cut checksum w mask min_size max_size (fed ++ q) start
        ≡ record { end = start + max_size; content_defined = false }
  forced-next fed q start bounded fits quiet =
      let here : latest checksum w mask min_size max_size fed start ≡ start + max_size =
        rw bounded (omega arith) in
      let there : latest checksum w mask min_size max_size (fed ++ q) start ≡ start + max_size =
        rw bounded (omega (arith, length-append fed q)) in
      next_cut-none checksum w mask min_size max_size (fed ++ q) start (λ i a b.
        sym (test_arrived checksum w mask min_size max_size fed q i (omega (arith, there)))
        ∙ quiet i a (omega (arith, here, there)))
      ∙ ap (λ n. record { end = n; content_defined = false }) there

module _ {H : Hasher} {Error : Type 0} (checksum : List ℕ → ℕ) (w mask min_size max_size : ℕ)
    (s : IsHasher H checksum) (size : ℕ) (pos : 0 < w) (small : w < max_window)
    (positive : 0 < min_size) (room : 0 < max_size) where
  abbrev pub V : Core H Error → List ℕ → List Chunk → Type 0
  V = W checksum w mask min_size max_size s size pos small positive room

  abbrev pub O : Option (CoreState × Core H Error) → Bool → ℕ → List ℕ → List Chunk → Type 0
  O = Outcome checksum w mask min_size max_size s size pos small positive room

  -- `next` without a boundary in range.
  pub force-Outcome :
      (c : Core H Error) (fed : List ℕ) (out : List Chunk)
      → V c fed out
      → HasRoom min_size max_size (length fed)
      → drop c.bcur c.bounds
        ≡ positions
            (test checksum w mask min_size max_size fed)
            (c.chunk_start + (min_size - 1))
            (c.hashed_to - (c.chunk_start + (min_size - 1)))
      → Quiet checksum w mask min_size max_size fed c.chunk_start
      → O (force c) c.eof c.chunk_start fed out
  unfolding force
  force-Outcome c fed out h has_room unused quiet =
      elim (limit-cases c
        (HasRoom-Reaches min_size max_size (length fed) c has_room h.start_le h.settings.3)) [
          | inl (e, none_) ↦
              let same : max_size ≡ c.max_size = sym h.settings.3 in
              let endless : (max_size == max_int) ≡ true = ap (λ n. n == max_int) same ∙ e in
              subst (λ r. O r c.eof c.chunk_start fed out) (sym (force-none c none_))
                (trailing-Outcome checksum w mask min_size max_size s size pos small positive room c
                  fed out h
                  (λ k.
                    next_cut-none checksum w mask min_size max_size fed c.chunk_start quiet
                    ∙ ap (λ n. record { end = n; content_defined = false }) (rw endless refl)))
          | inr (e, some_) ↦
              let same : c.max_size ≡ max_size = h.settings.3 in
              let bounded : (max_size == max_int) ≡ false = ap (λ n. n == max_int) (sym same) ∙ e in
              let at : c.chunk_start + c.max_size ≡ c.chunk_start + max_size =
                ap (λ n. c.chunk_start + n) same in
              let to : limit c ≡ some (c.chunk_start + max_size) = some_ ∙ ap some at in
              elim (Bool-cases (leb (c.chunk_start + max_size) c.consumed)) [
                | inr k ↦
                    let branch : (if leb (c.chunk_start + max_size) c.consumed
                          then emit c (c.chunk_start + max_size) false
                          else trailing c)
                        ≡ trailing c =
                      rw k refl in
                    let last : latest checksum w mask min_size max_size fed c.chunk_start
                        ≡ length fed =
                      rw bounded (ground (arith, h.consumed)) in
                    subst (λ r. O r c.eof c.chunk_start fed out)
                      (sym (force-some c (c.chunk_start + max_size) to ∙ branch))
                      (trailing-Outcome checksum w mask min_size max_size s size pos small positive
                        room c fed out h
                        (λ _.
                          next_cut-none checksum w mask min_size max_size fed c.chunk_start quiet
                          ∙ ap (λ n. record { end = n; content_defined = false }) last))
                | inl k ↦
                    let branch : (if leb (c.chunk_start + max_size) c.consumed
                          then emit c (c.chunk_start + max_size) false
                          else trailing c)
                        ≡ emit c (c.chunk_start + max_size) false =
                      rw k refl in
                    let fits : c.chunk_start + max_size ≤ length fed = ground (arith, h.consumed) in
                    let here : latest checksum w mask min_size max_size fed c.chunk_start
                        ≡ c.chunk_start + max_size =
                      rw bounded (omega arith) in
                    subst (λ r. O r c.eof c.chunk_start fed out)
                      (sym (force-some c (c.chunk_start + max_size) to ∙ branch))
                      (emit-Outcome checksum w mask min_size max_size s size pos small positive room
                        c fed out c.bcur (c.chunk_start + max_size) false h (omega arith) fits
                        h.bcur_le
                        (IsShort-le (c.chunk_start + min_size) (c.chunk_start + max_size + min_size)
                          (take c.bcur c.bounds) (omega arith) h.used)
                        (subst
                          (Found min_size positive (test checksum w mask min_size max_size fed)
                            (length fed) (c.chunk_start + max_size) c.hashed_to)
                          (sym unused)
                          (Found-cut min_size positive (test checksum w mask min_size max_size fed)
                            (length fed) c.chunk_start c.hashed_to (c.chunk_start + max_size)
                            (drop c.bcur c.bounds) h.found (omega arith)
                            (λ i a b. quiet i a (omega (arith, here)))))
                        (λ q.
                          forced-next checksum w mask min_size max_size fed q c.chunk_start bounded
                            fits quiet))
              ]
        ]
