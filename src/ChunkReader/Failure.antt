-- ===== src/ChunkReader/Failure.antt =====
-- chunker.go: `Next` of `chunker` when the reader fails.
use rollinghash.Prelude.{
  ℕ, suc, ◌^◌, ◌≤◌, ◌<◌, ◌⊎◌, ◌≡◌, drop, Bool, true, false, List, [], ◌∷◌, ◌++◌, Option, some,
  length,
}
use rollinghash.Kernel.{max_window}
use rollinghash.Hasher.{Hasher, IsHasher}
use rollinghash.TwoLane.{Hit}
use rollinghash.BatchReader.{Status}
use rollinghash.Chunker.{Core, commit, cleared}
use rollinghash.Chunker.Contract.{IsBoundaryRoller}
use rollinghash.Chunker.Output.{current}
use rollinghash.Chunker.Reference.{Chunk}
use rollinghash.Chunker.Walk.{Walks}
use rollinghash.ChunkReader.{Reader, next_read}

module _ {H : Hasher} {Source Error : Type 0} (read : Source → ℕ → Source × List ℕ × Status Error)
    (hits : H.State → List ℕ → List ℕ → List ℕ → ℕ → ℕ → Option Hit) where
  -- `fillCore` of a reader that fails after the bytes `p`.
  abbrev pub broken :
      Reader H Source Error → Core H Error → Source → List ℕ → Error → Reader H Source Error
  broken r c source p err = record r {
    core = record (commit c p) { err = some err };
    source = source;
  }

module _ {H : Hasher} {Source Error : Type 0} (read : Source → ℕ → Source × List ℕ × Status Error)
    (hits : H.State → List ℕ → List ℕ → List ℕ → ℕ → ℕ → Option Hit) (checksum : List ℕ → ℕ)
    (s : IsHasher H checksum) (contract : IsBoundaryRoller H checksum s hits)
    (w mask min_size max_size size : ℕ) (pos : 0 < w) (small : w < max_window) (fits : w ≤ size)
    (short : size ≤ 2 ^ 31) (positive : 0 < min_size) (room : 0 < max_size) where
  abbrev W : Core H Error → List ℕ → List Chunk → Type 0
  W c fed out = Walks checksum s w mask min_size max_size size positive c fed out

  -- `Next` hands out a chunk that needs no more bytes, or it stops with the error for good.
  pub record Fails (rounds fuel : ℕ) (r : Reader H Source Error) (fed p : List ℕ) (out : List Chunk)
      (err : Error) : Type 0 where
    pub more : Bool
    pub after : Reader H Source Error
    pub returns : next_read read hits rounds fuel r ≡ some (more, after)
    pub outcome :
        ((more ≡ true)
          × W after.core fed (out ++ (current after.core ∷ []))
          × (r.core.chunk_start < after.core.chunk_start))
        ⊎ ((more ≡ false)
            × (after.core.err ≡ some err)
            × (after.core.cbuf ≡ drop after.core.cbuf_base (fed ++ p))
            × (after.core.cbuf_base ≤ after.core.chunk_start)
            × (after.core.chunk_start ≡ r.core.chunk_start)
            × (after.core.consumed ≡ length (fed ++ p))
            × ((later : ℕ)
                → next_read read hits (suc later) fuel after
                  ≡ some (false, record after { core = cleared after.core })))
