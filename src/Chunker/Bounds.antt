-- ===== src/Chunker/Bounds.antt =====
-- chunker.go: the bounds that are not used yet, against the positions that pass a test.
use rollinghash.Prelude.{
  ℕ, ◌+◌, ◌-◌, min, max, ◌≤◌, ◌<◌, ltb, ◌⊎◌, inl, inr, ◌≡◌, refl, sym, ap, ap₂, ◌∙◌, arith, Bool,
  false, Bool-cases, List, [], ◌++◌, append_assoc, append-nil, drop, All-append, subst,
}
use rollinghash.Kernel.{positions, positions-add}
use rollinghash.Kernel.Positions.{positions_ext, positions-All, positions_skip, First}
use rollinghash.Chunker.{short_count}
use rollinghash.Chunker.Short.{IsShort, All_lt-IsShort, short_count-append, short_count-positions}

module _ (min_size : ℕ) (positive : 0 < min_size) where
  -- The bounds `rest` of a chunk from `start`, where the windows that end before `hashed_to` have
  -- been tested as far as they matter, and `count` bytes have been fed.
  pub record Found (t : ℕ → Bool) (count start hashed_to : ℕ) (rest : List ℕ) : Type 0 where
    pub junk : List ℕ
    pub from : ℕ
    pub split : rest ≡ junk ++ positions t from (hashed_to - from)
    pub junk_short : IsShort (start + min_size) junk
    pub from_le : from ≤ hashed_to
    pub early : from ≤ start + (min_size - 1)
    pub known : (hashed_to ≤ count) ⊎ (from ≡ hashed_to)

  pub Found-start : (t : ℕ → Bool) (count : ℕ) → Found t count 0 0 []
  Found-start t count = record {
    junk = [];
    from = 0;
    split = refl;
    junk_short = tt;
    from_le = omega arith;
    early = omega arith;
    known = inr refl;
  }

  -- `skipPreMin`
  pub Found-skip :
      (t : ℕ → Bool) (count start hashed_to : ℕ) (rest : List ℕ)
      → Found t count start hashed_to rest
      → hashed_to + 1 < start + min_size
      → Found t count start (start + min_size - 1) rest
  Found-skip t count start h rest f skip =
      let to : ℕ = start + min_size - 1 in
      let nothing : to - to ≡ 0 = omega arith in
      record {
        junk = rest;
        from = to;
        split = sym (ap (λ n. rest ++ positions t to n) nothing ∙ append-nil rest);
        junk_short = subst (IsShort (start + min_size)) (sym f.split) (
            All-append (λ e. e + 1 < start + min_size) f.junk (positions t f.from (h - f.from))
              f.junk_short
              (All_lt-IsShort h (start + min_size) (positions t f.from (h - f.from)) (omega arith)
                (positions-All t f.from (h - f.from) h (omega (arith, f.from_le)))));
        from_le = omega arith;
        early = omega arith;
        known = inr refl;
      }

  -- Testing the windows that end before `end`.
  pub Found-forward :
      (t : ℕ → Bool) (count start hashed_to end : ℕ) (rest : List ℕ)
      → Found t count start hashed_to rest
      → hashed_to ≤ end
      → end ≤ count
      → Found t count start end (rest ++ positions t hashed_to (end - hashed_to))
  Found-forward t count start h end rest f le fits =
      let n : end - f.from ≡ (h - f.from) + (end - h) = omega (arith, f.from_le) in
      let at : f.from + (h - f.from) ≡ h = omega (arith, f.from_le) in
      record {
        junk = f.junk;
        from = f.from;
        split =
            ap (λ r. r ++ positions t h (end - h)) f.split
            ∙ append_assoc f.junk (positions t f.from (h - f.from)) (positions t h (end - h))
            ∙ ap (λ r. f.junk ++ r)
                (sym (
                  ap (positions t f.from) n
                  ∙ positions-add t f.from (h - f.from) (end - h)
                  ∙ ap (λ i. positions t f.from (h - f.from) ++ positions t i (end - h)) at));
        junk_short = f.junk_short;
        from_le = omega (arith, f.from_le);
        early = f.early;
        known = inl fits;
      }

  -- More bytes, which leave the tests of the windows that are complete alone.
  pub Found-more :
      (t u : ℕ → Bool) (count more start hashed_to : ℕ) (rest : List ℕ)
      → Found t count start hashed_to rest
      → count ≤ more
      → ((i : ℕ) → i < count → t i ≡ u i)
      → Found u more start hashed_to rest
  Found-more t u count more start h rest f le same = record {
    junk = f.junk;
    from = f.from;
    split =
        f.split
        ∙ ap (λ r. f.junk ++ r)
            (elim f.known [
              | inl k ↦
                  positions_ext t u f.from (h - f.from) (λ i p q. same i (omega (arith, f.from_le)))
              | inr k ↦
                  let nothing : h - f.from ≡ 0 = omega arith in
                  ap (positions t f.from) nothing ∙ sym (ap (positions u f.from) nothing)
            ]);
    junk_short = f.junk_short;
    from_le = f.from_le;
    early = f.early;
    known = elim f.known [ inl k ↦ inl (omega arith) | inr k ↦ inr k ];
  }

  -- After the scan, the bounds are the positions from the first byte that may end the chunk.
  pub Found-scan :
      (t : ℕ → Bool) (count start hashed_to : ℕ) (rest : List ℕ)
      → Found t count start hashed_to rest
      → drop (short_count (start + min_size) rest) rest
        ≡ positions t (start + (min_size - 1)) (hashed_to - (start + (min_size - 1)))
  Found-scan t count start h rest f =
      ap (λ r. drop (short_count (start + min_size) r) r) f.split
      ∙ short_count-append (start + min_size) f.junk (positions t f.from (h - f.from)) f.junk_short
      ∙ short_count-positions t (start + min_size) f.from (h - f.from)
          (omega (arith, f.early, positive))
      ∙ ap₂ (positions t) (omega (arith, positive)) (omega (arith, positive, f.from_le))

  -- The bounds after a cut at `end`, where no test before `end` passes from the earliest on, or the
  -- first that does is the last byte of the chunk.
  pub Found-cut :
      (t : ℕ → Bool) (count start hashed_to end : ℕ) (rest : List ℕ)
      → (h : Found t count start hashed_to rest) → start ≤ end
      → ((i : ℕ) → start + (min_size - 1) ≤ i → i < end → t i ≡ false)
      → Found t count end hashed_to
          (positions t (start + (min_size - 1)) (hashed_to - (start + (min_size - 1))))
  Found-cut t count start h end rest f le none_before =
      let lo : ℕ = start + (min_size - 1) in
      let x : ℕ = min h (max lo end) in
      record {
        junk = [];
        from = x;
        split = elim (Bool-cases (ltb lo h)) [
          | inl k ↦
              positions_skip t lo x h (ground arith) (omega arith)
                (λ i p q. none_before i p (omega arith))
          | inr k ↦
              let nothing : h - lo ≡ 0 = ground arith in
              let nothing' : h - x ≡ 0 = ground arith in
              ap (positions t lo) nothing ∙ sym (ap (positions t x) nothing')
        ];
        junk_short = tt;
        from_le = omega arith;
        early = omega arith;
        known = elim f.known [ inl k ↦ inl k | inr k ↦ inr (omega (arith, f.early)) ];
      }

  -- The bounds after the chunk that ends with the first byte that passes.
  pub Found-used :
      (t : ℕ → Bool) (count start hashed_to : ℕ)
      → (f : First t (start + (min_size - 1)) hashed_to) → hashed_to ≤ count
      → Found t count (f.at + 1) hashed_to (positions t (f.at + 1) (hashed_to - (f.at + 1)))
  Found-used t count start h f le = record {
    junk = [];
    from = f.at + 1;
    split = refl;
    junk_short = tt;
    from_le = omega (arith, f.below);
    early = omega arith;
    known = inl le;
  }

  -- With a byte that passes, the windows tested are complete.
  pub Found-known :
      (t : ℕ → Bool) (count start hashed_to : ℕ) (rest : List ℕ)
      → Found t count start hashed_to rest
      → First t (start + (min_size - 1)) hashed_to
      → hashed_to ≤ count
  Found-known t count start h rest f first = elim f.known [
    | inl k ↦ k
    | inr k ↦ absurd (omega (arith, f.early, first.lo_le, first.below))
  ]
