-- ===== src/Chunker/Reference.antt =====
-- The reference for chunker.go: the chunks of a whole stream, cut one after the other at the first
-- window that satisfies the mask, or at the longest chunk, or at the end of the stream.
use rollinghash.Prelude.{
  ℕ, zero, suc, ◌+◌, ◌-◌, min, ltb, leb, ◌==◌, if◌then◌else◌, Bool, true, false, ◌&&◌, List, [],
  ◌∷◌, length, slice, bit_and,
}
use rollinghash.Kernel.{positions}
use rollinghash.Chunker.{max_int}

-- What `Bytes`, `Offset`, `Sum` and `ContentDefined` return of a chunk.
pub record Chunk : Type 0 where
  pub offset : ℕ
  pub bytes : List ℕ
  pub sum : ℕ
  pub content_defined : Bool

-- The end of a chunk and whether the mask cut it.
pub record Cut : Type 0 where
  pub end : ℕ
  pub content_defined : Bool

-- Chunks of `min_size` to `max_size` bytes, with `max_int` for no longest chunk.
module _ (checksum : List ℕ → ℕ) (w mask min_size max_size : ℕ) where
  -- The window that ends with byte `e` satisfies the mask.
  abbrev pub is_boundary : List ℕ → ℕ → Bool
  is_boundary p e = leb w (e + 1) && (bit_and (checksum (slice (e + 1 - w) w p)) mask == 0)

  -- The checksum of the window before `end`, or 0 where the stream has no window there.
  abbrev pub sum_before : List ℕ → ℕ → ℕ
  sum_before p end = if ltb end w then 0 else checksum (slice (end - w) w p)

  -- Where a chunk from `start` ends at the latest.
  abbrev pub latest : List ℕ → ℕ → ℕ
  latest p start = if max_size == max_int then length p else min (start + max_size) (length p)

  -- The first byte that may be the last of a chunk from `start`.
  abbrev pub earliest : ℕ → ℕ
  earliest start = start + (min_size - 1)

  abbrev pub cut_first : ℕ → List ℕ → Cut
  cut_first end [] = record { end = end; content_defined = false }
  cut_first end (e ∷ es) = record { end = e + 1; content_defined = true }

  unfoldable pub next_cut : List ℕ → ℕ → Cut
  next_cut p start =
      cut_first (latest p start)
        (positions (is_boundary p) (earliest start) (latest p start - earliest start))

  abbrev pub chunk_at : List ℕ → ℕ → Cut → Chunk
  chunk_at p start cut = record {
    offset = start;
    bytes = slice start (cut.end - start) p;
    sum = sum_before p cut.end;
    content_defined = cut.content_defined;
  }

  -- The chunks from `start` on, at most `left` of them.
  unfoldable pub chunks_from : ℕ → List ℕ → ℕ → List Chunk
  chunks_from zero p start = []
  chunks_from (suc left) p start = elim (leb (length p) start) [
    | true ↦ []
    | false ↦ chunk_at p start (next_cut p start) ∷ chunks_from left p (next_cut p start).end
  ]

  -- The chunks of a stream: no more than its bytes.
  unfoldable pub reference_chunks : List ℕ → List Chunk
  unfolding chunks_from
  reference_chunks p = chunks_from (length p) p 0
