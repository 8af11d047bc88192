-- ===== src/TwoLane.antt =====
-- The loops of `BatchRoll` and `BatchBoundaries`, which the packages adler32, bozo32, bozo64,
-- buzhash32, buzhash64, gearhash64 and rabinkarp64 share: two lanes that walk the halves of the
-- slice, and a sink that is told the checksum of each window.
-- `leaving[i]` of some packages is `data[i]`, and `entering[i]` is `data[i+window]`.
pub mod Advance
pub mod Run
pub mod Sums
pub mod Hits
use rollinghash.Prelude.{
  ℕ, zero, suc, ◌+◌, ◌-◌, ◌/◌, min, ltb, leb, if◌then◌else◌, ◌||◌, List, Option, none, some, ◌>>=◌,
  length, get_elem?, set?, bit_and, ◌%◌, ◌^◌, ◌==◌, Bool,
}
use rollinghash.Kernel.{Kernel}

module _ (k : Kernel) where
  -- `for j := range window { v = absorb(v, data[at+j]) }`
  unfoldable pub warm : List ℕ → ℕ → ℕ → k.Lane → Option k.Lane
  warm p at zero v = some v
  warm p at (suc left) v = do c ← get_elem? p at; warm p (at + 1) left (k.absorb v c)

  -- One rolling step, from the window at `i` to the one at `i + 1`.
  unfoldable pub advance : List ℕ → ℕ → ℕ → k.Lane → Option k.Lane
  advance p w i v = do
    leave ← get_elem? p i
    enter ← get_elem? p (i + w)
    some (k.roll w v leave enter)

  -- The state of the lockstep loop.
  pub record Pair (T : Type 0) : Type 0 where
    pub ia : ℕ
    pub ib : ℕ
    pub va : k.Lane
    pub vb : k.Lane
    pub sink : T

module _ (k : Kernel) {T : Type 0} where
  -- A loop over one lane, with the rounds that are left: it emits the windows after `i`.
  unfoldable pub finish : (ℕ → ℕ → T → Option T) → List ℕ → ℕ → ℕ → ℕ → k.Lane → T → Option T
  finish emit p w zero i v t = some t
  finish emit p w (suc left) i v t = do
    v' ← advance k p w i v
    t' ← emit (i + 1) (k.value v') t
    finish emit p w left (i + 1) v' t'

module _ (k : Kernel) {T : Type 0} (emit_a emit_b : ℕ → ℕ → T → Option T) where
  -- The lockstep loop, `for ia < half-1 && ib < n`, with the rounds that are left.
  unfoldable pub lockstep : List ℕ → ℕ → ℕ → Pair k T → Option (Pair k T)
  lockstep p w zero l = some l
  lockstep p w (suc left) l = do
    va ← advance k p w l.ia l.va
    t ← emit_a (l.ia + 1) (k.value va) l.sink
    vb ← advance k p w l.ib l.vb
    t ← emit_b (l.ib + 1) (k.value vb) t
    lockstep p w left (record { ia = l.ia + 1; ib = l.ib + 1; va = va; vb = vb; sink = t })

  -- Both lanes: lane A has emitted its first window, and lane B starts at `half`.
  unfoldable pub both_lanes : List ℕ → ℕ → ℕ → ℕ → k.Lane → T → Option T
  both_lanes p w n half va t = do
    vb ← warm k p half w k.start
    t ← emit_b half (k.value vb) t
    l ←
        lockstep p w (min (half - 1) (n - half))
          (record { ia = 0; ib = half; va = va; vb = vb; sink = t })
    t ← finish k emit_a p w (half - 1 - l.ia) l.ia l.va l.sink
    finish k emit_b p w (n - l.ib) l.ib l.vb t

  -- The whole function, from the guard on.
  unfoldable pub two_lanes : List ℕ → ℕ → T → Option T
  two_lanes p w t = if leb w 0 || ltb (length p) w then some t else do
    let n = length p - w
    let half = (n + 2) / 2
    va ← warm k p 0 w k.start
    t ← emit_a 0 (k.value va) t
    (if ltb n half then finish k emit_a p w n 0 va t else both_lanes p w n half va t)

-- `dst[i] = sum`
abbrev pub put : ℕ → ℕ → List ℕ → Option (List ℕ)
put i v dst = set? dst i v

-- `BatchRoll`: the slice `dst` after the call.
unfoldable pub batch_roll : Kernel → List ℕ → List ℕ → ℕ → Option (List ℕ)
batch_roll k dst p w = two_lanes k put put p w dst

-- The hit buffers of the lanes with their counts. An int32 is its bit pattern.
pub record Hit : Type 0 where
  pub a : List ℕ
  pub b : List ℕ
  pub na : ℕ
  pub nb : ℕ

-- `sum & mask == 0`
abbrev pub is_hit : ℕ → ℕ → Bool
is_hit mask v = bit_and v mask == 0

-- `if sum & mask == 0 { a[na] = int32(i); na++ }`, and the same for lane B.
unfoldable pub hit_a : ℕ → ℕ → ℕ → Hit → Option Hit
hit_a mask i v s =
    if is_hit mask v
    then (do x ← set? s.a s.na (i % 2 ^ 32); some (record s { a = x; na = s.na + 1 }))
    else some s

unfoldable pub hit_b : ℕ → ℕ → ℕ → Hit → Option Hit
hit_b mask i v s =
    if is_hit mask v
    then (do x ← set? s.b s.nb (i % 2 ^ 32); some (record s { b = x; nb = s.nb + 1 }))
    else some s

-- `BatchBoundaries`: the hit buffers and the counts `na`, `nb` after the call.
unfoldable pub batch_boundaries : Kernel → ℕ → List ℕ → List ℕ → List ℕ → ℕ → Option Hit
batch_boundaries k mask a b p w =
    two_lanes k (hit_a mask) (hit_b mask) p w (record { a = a; b = b; na = 0; nb = 0 })
