-- ===== src/Chunker.antt =====
-- chunker.go: `chunkerCore`, which the chunker and the chunk writer wrap. The hash is a `Hasher` of
-- the interface, and its `BatchBoundaries` the parameter `hits`. A position of a last byte, `e` in
-- the source, is mostly kept as `e + 1`, the end of the chunk, which is never below zero.
pub mod Reference
pub mod Contract
pub mod Short
pub mod Wrap
pub mod Bounds
pub mod Walk
pub mod Feed
pub mod Hash
pub mod Block
pub mod Forward
pub mod Cuts
pub mod Partition
pub mod Emit
pub mod Choose
pub mod Scan
pub mod Range
pub mod Next
pub mod Output
pub mod Serve
use rollinghash.Prelude.{
  ℕ, zero, suc, ◌+◌, ◌-◌, min, max, ltb, leb, ◌==◌, if◌then◌else◌, Bool, true, false, ◌||◌, List,
  [], ◌∷◌, ◌++◌, Option, none, some, ◌>>=◌, length, get_elem?, take, drop, slice, replicate, map,
}
use rollinghash.Hasher.{Hasher}
use rollinghash.TwoLane.{Hit}
use rollinghash.BatchRoller.{CoreState, need_more, emitted, core_done, is_error}

-- `chunkerBatchSize`
abbrev pub chunker_batch_size : ℕ
chunker_batch_size = 16384

-- `math.MaxInt`: no forced cuts.
abbrev pub max_int : ℕ
max_int = 9223372036854775807

-- `room` is the capacity of `la` and of `lb`, which are only allocated together; `la` and `lb` are
-- what was written in them. A nil chunk is `none`.
pub record Core (H : Hasher) (Error : Type 0) : Type 0 where
  pub hash : H.State
  pub window : ℕ
  pub mask : ℕ
  pub min_size : ℕ
  pub max_size : ℕ
  pub room : ℕ
  pub la : List ℕ
  pub lb : List ℕ
  pub batch_size : ℕ
  pub cbuf : List ℕ
  pub cbuf_base : ℕ
  pub chunk_start : ℕ
  pub consumed : ℕ
  pub bounds : List ℕ
  pub bcur : ℕ
  pub hashed_to : ℕ
  pub eof : Bool
  pub done : Bool
  pub err : Option Error
  pub chunk : Option (List ℕ)
  pub sumv : ℕ
  pub content_defined : Bool
  pub offset : ℕ

-- The first `n` elements of an allocated slice of which `xs` has been written.
abbrev pub reslice : ℕ → List ℕ → List ℕ
reslice n xs = take n (xs ++ replicate n 0)

-- The number of leading bounds that end before `end`, which are too short for the chunk.
abbrev pub short_count : ℕ → List ℕ → ℕ
short_count end [] = 0
short_count end (e ∷ bounds) = elim (ltb (e + 1) end) [
  | true ↦ suc (short_count end bounds)
  | false ↦ 0
]

-- `n < hashLimit` and `e <= maxByte`, where `none` is `math.MaxInt`.
abbrev pub below : ℕ → Option ℕ → Bool
below n none = true
below n (some limit) = ltb n limit

abbrev pub within : ℕ → Option ℕ → Bool
within end none = true
within end (some limit) = leb end limit

module _ {H : Hasher} {Error : Type 0} where
  -- `newChunkerCore`, for a hash that has `BatchBoundaries`
  unfoldable pub new_core : H.State → ℕ → ℕ → ℕ → ℕ → Core H Error
  new_core hash window mask min_size max_size = record {
    hash = hash;
    window = window;
    mask = mask;
    min_size = min_size;
    max_size = max_size;
    room = 0;
    la = [];
    lb = [];
    batch_size = chunker_batch_size;
    cbuf = [];
    cbuf_base = 0;
    chunk_start = 0;
    consumed = 0;
    bounds = [];
    bcur = 0;
    hashed_to = 0;
    eof = false;
    done = false;
    err = none;
    chunk = none;
    sumv = 0;
    content_defined = false;
    offset = 0;
  }

  -- `WithBoundaries` and `WithBatchSize`
  unfoldable pub with_boundaries : ℕ → ℕ → Core H Error → Core H Error
  with_boundaries min_size max_size c = record c { min_size = min_size; max_size = max_size }

  unfoldable pub with_batch_size : ℕ → Core H Error → Core H Error
  with_batch_size n c = record c { batch_size = n }

  -- `reset`
  unfoldable pub reset : Core H Error → Core H Error
  reset c = record c {
    cbuf = [];
    cbuf_base = 0;
    chunk_start = 0;
    consumed = 0;
    bounds = [];
    bcur = 0;
    hashed_to = 0;
    eof = false;
    done = false;
    err = none;
    chunk = none;
    sumv = 0;
    content_defined = false;
    offset = 0;
  }

  -- `finish`
  unfoldable pub close : Core H Error → Core H Error
  close c = record c { eof = true }

  -- `chunkStart + min - 1`, one more. It is an `int`, and wraps to a negative number above
  -- `math.MaxInt`, which is below every position: 0 stands for it.
  unfoldable pub least : Core H Error → ℕ
  least c = let end = c.chunk_start + c.min_size in if ltb (max_int + 1) end then 0 else end

  -- `skipPreMin`
  unfoldable pub skip_pre_min : Core H Error → Core H Error
  skip_pre_min c =
      if ltb (c.hashed_to + 1) (least c) then record c { hashed_to = least c - 1 } else c

  -- `compact`, of the bytes before `keep` and of the bounds that were used. `none` is a slice bound
  -- out of range.
  unfoldable pub drop_bytes : ℕ → Core H Error → Option (Core H Error)
  drop_bytes keep c =
      if ltb c.cbuf_base keep
      then (if ltb (length c.cbuf) (keep - c.cbuf_base)
          then none
          else some (record c { cbuf = drop (keep - c.cbuf_base) c.cbuf; cbuf_base = keep }))
      else some c

  unfoldable pub drop_bounds : Core H Error → Core H Error
  drop_bounds c = if ltb 0 c.bcur then record c { bounds = drop c.bcur c.bounds; bcur = 0 } else c

  unfoldable pub compact : Core H Error → Option (Core H Error)
  compact c = do
    let c' = skip_pre_min c
    kept ← drop_bytes (min c'.chunk_start c'.hashed_to - (c'.window - 1)) c'
    some (drop_bounds kept)

  -- The bytes `p` after those of the buffer, which `feed` appends, or which were read into the tail of
  -- the buffer before `commitTail`.
  unfoldable pub commit : Core H Error → List ℕ → Core H Error
  commit c p = record c { cbuf = c.cbuf ++ p; consumed = c.consumed + length p }

  -- `feed`
  unfoldable pub feed : Core H Error → List ℕ → Option (Core H Error)
  feed c p = do c' ← compact c; some (commit c' p)

  -- `maxByte`, one more. `none` is `math.MaxInt`, where `hashLimit` stays at `maxByte`. The sum is an
  -- `int`, and wraps to a negative number above `math.MaxInt`, for which 0 stands: it is below every
  -- position, and before the start of the chunk, as that of the wrapped sum is.
  unfoldable pub limit : Core H Error → Option ℕ
  limit c =
      let end = c.chunk_start + c.max_size in
      if c.max_size == max_int
      then none
      else if end == max_int + 1
      then none
      else some (if ltb (max_int + 1) end then 0 else end)

  -- `n > 0 && c.bounds[n-1] >= minByte`
  unfoldable pub has_candidate : Core H Error → Bool
  has_candidate c = elim (get_elem? c.bounds (length c.bounds - 1)) [
    | some e ↦ leb (least c) (e + 1)
    | none ↦ false
  ]

  -- No chunk, and none to come.
  unfoldable pub cleared : Core H Error → Core H Error
  cleared c = record c { chunk = none; sumv = 0; content_defined = false; offset = 0 }

  -- `windowSum`, of the window that ends before `end`: the hash after it and the sum.
  unfoldable pub window_sum : Core H Error → ℕ → Option (H.State × ℕ)
  window_sum c end =
      let off = end - c.window - c.cbuf_base in
      if ltb end (c.cbuf_base + c.window)
      then some (c.hash, 0)
      else if ltb (length c.cbuf) (off + c.window)
      then none
      else (do
        (hash, _) ← H.write (H.reset c.hash) (slice off c.window c.cbuf)
        some (hash, H.sum hash))

  -- `emit`, of the chunk that ends before `end`.
  unfoldable pub emit : Core H Error → ℕ → Bool → Option (CoreState × Core H Error)
  emit c end content_defined =
      if (ltb c.chunk_start c.cbuf_base || ltb end c.chunk_start)
        || ltb (length c.cbuf) (end - c.cbuf_base)
      then none
      else (do
        (hash, sumv) ← window_sum c end
        some (
          emitted,
          record c {
            chunk = some (slice (c.chunk_start - c.cbuf_base) (end - c.chunk_start) c.cbuf);
            offset = c.chunk_start;
            hash = hash;
            sumv = sumv;
            content_defined = content_defined;
            chunk_start = end;
          },
        ))

  -- The end of `next`: what is left at the end of the stream.
  unfoldable pub trailing : Core H Error → Option (CoreState × Core H Error)
  trailing c =
      if c.eof
      then (if ltb c.chunk_start c.consumed
          then emit (record c { done = true }) c.consumed false
          else some (core_done, cleared (record c { done = true })))
      else some (need_more, c)

  -- `next` without a boundary in range: a forced cut, once its bytes exist.
  unfoldable pub force : Core H Error → Option (CoreState × Core H Error)
  force c = elim (limit c) [
    | none ↦ trailing c
    | some end ↦ if leb end c.consumed then emit c end false else trailing c
  ]

  -- `next` after the bounds that are too short.
  unfoldable pub choose : Core H Error → Option (CoreState × Core H Error)
  choose c = elim (get_elem? c.bounds c.bcur) [
    | none ↦ force c
    | some e ↦
        if within (e + 1) (limit c)
        then emit (record c { bcur = c.bcur + 1 }) (e + 1) true
        else force c
  ]

  -- The loop of `next` over the bounds.
  unfoldable pub scan : Core H Error → Option (CoreState × Core H Error)
  scan c =
      let short = short_count (least c) (drop c.bcur c.bounds) in
      choose (record c { bcur = c.bcur + short })

  module _ (hits : H.State → List ℕ → List ℕ → List ℕ → ℕ → ℕ → Option Hit) where
    -- The part of `hashForward` that hashes `buf`, which starts at `start`, up to `end`.
    unfoldable pub hash_block : Core H Error → List ℕ → ℕ → ℕ → Option (Bool × Core H Error)
    hash_block c buf start end =
        let need = length buf + 1 - c.window in
        if ltb (length buf) c.window then some (false, c) else (do
          let la = if ltb c.room need then [] else c.la
          let lb = if ltb c.room need then [] else c.lb
          r ← hits c.hash (reslice need la) (reslice need lb) buf c.window c.mask
          some (
            true,
            record c {
              room = if ltb c.room need then need else c.room;
              la = r.a ++ drop need la;
              lb = r.b ++ drop need lb;
              bounds =
                  c.bounds
                  ++ (map (λ g. start + g + c.window - 1) (take r.na r.a)
                      ++ map (λ g. start + g + c.window - 1) (take r.nb r.b));
              hashed_to = end;
            },
          ))

    -- `hashForward` after `skipPreMin`. `start` is `bufStart`, which is `hashedTo` less the `lead`.
    unfoldable pub hash_from : Core H Error → Option (Bool × Core H Error)
    hash_from c =
        let start = max (c.hashed_to - (c.window - 1)) c.cbuf_base in
        let end = min (c.hashed_to + c.batch_size) c.consumed in
        if leb c.consumed c.hashed_to
        then some (false, c)
        else if ltb end start || ltb (length c.cbuf) (end - c.cbuf_base)
        then none
        else hash_block c (slice (start - c.cbuf_base) (end - start) c.cbuf) start end

    -- `hashForward`
    unfoldable pub hash_forward : Core H Error → Option (Bool × Core H Error)
    hash_forward c = hash_from (skip_pre_min c)

    -- The hashing loop of `next`, on fuel: `none` is a panic or no fuel.
    unfoldable pub hash_loop : ℕ → Core H Error → Option (Core H Error)
    hash_loop zero c = none
    hash_loop (suc fuel) c = elim (below c.hashed_to (limit c)) [
      | false ↦ some c
      | true ↦ elim (has_candidate c) [
        | true ↦ some c
        | false ↦ hash_forward c >>= λ r. elim r.0 [ true ↦ hash_loop fuel r.1 | false ↦ some r.1 ]
      ]
    ]

    -- `next`
    unfoldable pub next : Core H Error → Option (CoreState × Core H Error)
    next c =
        if is_error c.err || c.done
        then some (core_done, cleared c)
        else (hash_loop (suc c.consumed) c >>= scan)
