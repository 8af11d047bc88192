-- ===== src/Chunker/Wrap.antt =====
-- chunker.go: `minByte` and `maxByte` of `next`, which are sums of ints, and when they do not wrap.
use rollinghash.Prelude.{
  ℕ, ◌+◌, ◌≤◌, ◌<◌, ltb, ◌==◌, ◌⊎◌, inl, inr, ◌≡◌, refl, ◌∙◌, arith, true, false, Bool-cases, none,
  some,
}
use rollinghash.Hasher.{Hasher}
use rollinghash.Chunker.{Core, max_int, least, limit}

-- The sums of `next` do not wrap on a stream of `n` bytes: it leaves room in an int for a chunk of the
-- least size, and for one of the greatest, unless that is `math.MaxInt`.
abbrev pub HasRoom : ℕ → ℕ → ℕ → Type 0
HasRoom min_size max_size n =
    (n + min_size ≤ max_int) × ((max_size ≡ max_int) ⊎ (n + max_size ≤ max_int))

pub HasRoom-le :
    (min_size max_size m n : ℕ) → m ≤ n → HasRoom min_size max_size n → HasRoom min_size max_size m
HasRoom-le min_size max_size m n le (a, b) =
    (omega arith, elim b [ inl endless ↦ inl endless | inr fits ↦ inr (omega arith) ])

module _ {H : Hasher} {Error : Type 0} where
  -- Where it is not 0, `least` is the end of the shortest chunk.
  pub least_lem : (c : Core H Error) → 0 < least c → least c ≡ c.chunk_start + c.min_size
  unfolding least
  least_lem c later = elim (Bool-cases (ltb (max_int + 1) (c.chunk_start + c.min_size))) [
    | inl e ↦ absurd (let z : least c ≡ 0 = rw e refl in omega (arith, z))
    | inr e ↦ rw e refl
  ]

  pub least-HasRoom :
      (c : Core H Error)
      → c.chunk_start + c.min_size ≤ max_int
      → least c ≡ c.chunk_start + c.min_size
  unfolding least
  least-HasRoom c fits =
      let e : ltb (max_int + 1) (c.chunk_start + c.min_size) ≡ false = ground arith in rw e refl

  -- The end of the longest chunk does not wrap.
  abbrev pub Reaches : Core H Error → Type 0
  Reaches c = (c.max_size ≡ max_int) ⊎ (c.chunk_start + c.max_size ≤ max_int)

  pub HasRoom-Reaches :
      (min_size max_size n : ℕ) (c : Core H Error)
      → HasRoom min_size max_size n
      → c.chunk_start ≤ n
      → c.max_size ≡ max_size
      → Reaches c
  HasRoom-Reaches min_size max_size n c (_, b) start same = elim b [
    | inl endless ↦ inl (same ∙ endless)
    | inr fits ↦ inr (omega arith)
  ]

  -- The cases of `limit`.
  pub limit-cases :
      (c : Core H Error)
      → Reaches c
      → ((c.max_size == max_int ≡ true) × (limit c ≡ none))
        ⊎ ((c.max_size == max_int ≡ false) × (limit c ≡ some (c.chunk_start + c.max_size)))
  unfolding limit
  limit-cases c fits = elim (Bool-cases (c.max_size == max_int)) [
    | inl e ↦ inl (e, rw e refl)
    | inr e ↦
        let within : c.chunk_start + c.max_size ≤ max_int = elim fits [
          | inl endless ↦ absurd (ground arith)
          | inr fits ↦ fits
        ] in
        let whole : (c.chunk_start + c.max_size == max_int + 1) ≡ false = ground arith in
        let low : ltb (max_int + 1) (c.chunk_start + c.max_size) ≡ false = ground arith in
        inr (e, rw (e, whole, low) refl)
  ]
