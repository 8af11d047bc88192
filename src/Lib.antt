-- ===== src/Lib.antt =====
-- Verification of github.com/chmduquesne/rollinghash, a Go library of rolling checksums.
--
-- The program. Each hash package (bozo32/bozo32.go, bozo64/bozo64.go, adler32/adler32.go,
-- buzhash32/buzhash32.go, buzhash64/buzhash64.go, gearhash64/gearhash64.go,
-- rabinkarp64/rabinkarp64.go) keeps a circular window of bytes and the checksum of that window.
-- `Write` appends to the window and hashes it again, `Roll` replaces the oldest byte and updates
-- the checksum, `BatchRoll` and `BatchBoundaries` hash every window of a slice in two lanes that
-- run side by side. internal/window/window.go rearranges and outputs the circular window.
-- batchroller.go cuts a stream into batches that overlap by a window less one byte and calls
-- `BatchRoll` on each; batchwriter.go is fed by `Write`, and batchroller.go's `batchRoller` reads
-- from an `io.Reader`. chunker.go cuts a stream into chunks of bounded length where the checksum of
-- a window satisfies a mask: its core calls `BatchBoundaries` on slices of the stream, as late as
-- it can, and keeps a queue of the boundaries that it has found; chunkwriter.go is fed by `Write`,
-- and chunker.go's `chunker` reads from an `io.Reader`.
--
-- The files.
--   Prelude: Boolean tests, lists over the native numbers, arithmetic modulo a word, bit operations.
--   Window: `MoveLeft`, `reverse` and `Write` of internal/window, and `Circular`, the fields `window`
--     and `oldest` of a digest with what `Write` (`append`) and `Roll` (`enter`) do to them.
--   Kernel: what the hash packages plug into the loops (`start`, `absorb`, `roll`, `value`), and the
--     specifications of the loops: `window_sums`, `boundaries`.
--   TwoLane: the loops of `BatchRoll` and `BatchBoundaries`, once for all packages: warm-up, the
--     guard, the lockstep loop, the two finishing loops, with a sink that stores a checksum
--     (`dst[i] = v`) or tests it and stores its position.
--   Hasher: the interface `Hash` of rollinghash.go as a record with its contract.
--   Bozo, Bozo64, Adler32, Buzhash, Buzhash64, Gearhash64: the packages. Bozo and Buzhash take the
--     number of bits of the word, 32 or 64. Their modules Digest fill the interface and instantiate
--     the loops.
--   Rabin: rabinkarp64, with its tables (Reduction: the checksum is linear over F_2; Rolling: so the
--     tables take the leaving byte out and reduce by the polynomial; Cache: `tablesFor`).
--   BatchRoller: `batchRollerCore` (`feed`, `finish`, `next`, `reset`), with `BatchRoll` of the hash as
--     a parameter (its contract is in BatchRoller/Contract).
--   BatchWriter: `Write`, `Close`, `Next`, `Reset` of `batchWriter`, and callers of them.
--   BatchReader: `batchRoller`, with its `io.Reader` as a parameter.
--   Chunker: `chunkerCore` (`feed`, `finish`, `reset`, `next` and what they call), with
--     `BatchBoundaries` of the hash as a parameter (its contract is in Chunker/Contract).
--     Chunker/Reference has the specification, which cuts a whole stream without a buffer or a
--     queue. Walk, Feed, Hash, Block, Forward, Emit, Choose, Scan, Range, Next follow the code with
--     the invariant `Walks`; Wrap is about the sums that wrap, Short and Bounds are about the queue, Cuts and Partition about the
--     specification.
--   ChunkWriter: `chunkWriter` with its options, and callers of it.
--   ChunkReader: `chunker`, with its `io.Reader` as a parameter.
--   Tests: runs at concrete inputs.
--
-- Conventions. Numbers are naturals; a word wraps by `% 2 ^ bits`, and a wrapping difference adds
-- the modulus first. `none` is a run-time panic: an index out of range, an empty window in `Roll`.
-- A byte is a number below 256, and a table `[256]uint` is a function of the byte. The loops
-- recurse on the number of rounds that are left. The loops over `Next` and `Read` have fuel: each
-- round of the first hands out at least one window or chunk, each round of the second reads at
-- least one byte. Windows are shorter than 2 ^ 32 (`max_window`) and not empty, so that `uint32(window)` of
-- adler32 is the length, and `BatchBoundaries` has at most 2 ^ 31 windows, the range of its int32
-- positions. A window size is not negative, nor are a batch size and the sizes of chunks; the
-- slices of the chunkers have at most 2 ^ 31 bytes. Offsets in a stream stay below 2 ^ 63 by more
-- than such a slice. The sums that `next` of the chunkers makes of an offset and a size may reach
-- 2 ^ 63, and then wrap (`least`, `limit`): the theorems suppose that they do not (`HasRoom` of
-- Chunker/Wrap). A slice of a buffer beyond its length is `none`, also where its capacity would
-- allow it. What a batch hands out is valid until the next call of `next`, so it is kept as a
-- value, not as an alias.
--
-- Parameters. hash/adler32 of the standard library is a function `vanilla` with its documented
-- contract (`IsVanilla`); an `io.Writer` is a function with the contract of its documentation
-- (`IsWriter`), and an `io.Reader` one with its (`IsReader`); `bits.RotateLeft` is written out from
-- its documentation. Random tables (`GenerateHashes`) are arbitrary tables. `Mod` and `Deg` of a
-- polynomial over F_2 are functions with the contract `IsReduction`: the remainder has a lower
-- degree, leaves a polynomial of lower degree alone, and of a sum is the sum. The polynomial of
-- rabinkarp64 has a degree of 8 to 56, so that a shift by a byte stays in the word.
--
-- Not modelled: `BatchBoundaries` of the buzhash and gearhash packages, which gathers hits 64
-- positions at a time; the mutex of the cache of rabinkarp64, and rabinkarp64/polynomials.go, which comes
-- from github.com/restic/chunker; and rollstat, a benchmark. The theorems on the chunkers suppose a
-- least chunk size of at least 1: with the default 0 the chunk writer differs from the specification.
-- Tests/Departures runs that, a greatest size that wraps, and chunks of which the comments of the
-- source say otherwise.
pub mod Prelude
pub mod Window
pub mod Kernel
pub mod TwoLane
pub mod Hasher
pub mod Bozo
pub mod Bozo64
pub mod Adler32
pub mod Gearhash64
pub mod Buzhash
pub mod Buzhash64
pub mod Rabin
pub mod BatchRoller
pub mod BatchReader
pub mod BatchWriter
pub mod Chunker
pub mod ChunkWriter
pub mod ChunkReader
pub mod Tests
