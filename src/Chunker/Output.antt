-- ===== src/Chunker/Output.antt =====
-- chunker.go: what a caller of `Next` sees of a core.
use rollinghash.Prelude.{ℕ, zero, suc, List, [], ◌∷◌, Option, none, some, ◌>>=◌}
use rollinghash.Hasher.{Hasher}
use rollinghash.TwoLane.{Hit}
use rollinghash.BatchRoller.{CoreState, need_more, emitted, core_done}
use rollinghash.Chunker.{Core, next}
use rollinghash.Chunker.Reference.{Chunk}

abbrev bytes_of : Option (List ℕ) → List ℕ
bytes_of none = []
bytes_of (some xs) = xs

-- What `Bytes`, `Offset`, `Sum` and `ContentDefined` return.
unfoldable pub current : {H : Hasher} {Error : Type 0} → Core H Error → Chunk
current c = record {
  offset = c.offset;
  bytes = bytes_of c.chunk;
  sum = c.sumv;
  content_defined = c.content_defined;
}

-- The chunk that is read after a call of `next`, if it returned `emitted`.
abbrev pub shown : {H : Hasher} {Error : Type 0} → CoreState → Core H Error → List Chunk
shown emitted c = current c ∷ []
shown need_more c = []
shown core_done c = []

-- The loop `for c.Next() { … }` of a caller, on fuel: its chunks. `none` is a panic or no fuel.
unfoldable pub drain :
    {H : Hasher} {Error : Type 0}
    → (H.State → List ℕ → List ℕ → List ℕ → ℕ → ℕ → Option Hit)
    → ℕ
    → Core H Error
    → Option (List Chunk × Core H Error)
drain hits zero c = none
drain hits (suc fuel) c = do
  (state, c') ← next hits c
  elim state [
    | emitted ↦ drain hits fuel c' >>= λ r. some (current c' ∷ r.0, r.1)
    | need_more ↦ some ([], c')
    | core_done ↦ some ([], c')
  ]
