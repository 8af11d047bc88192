-- ===== src/Chunker/Range.antt =====
-- chunker.go: the first bound that is not too short, against the longest chunk.
use rollinghash.Prelude.{
  ℕ, zero, suc, ◌+◌, ◌≤◌, ◌<◌, ltb, leb, ◌==◌, if◌then◌else◌, inl, inr, ◌≡◌, refl, sym, ap, ◌∙◌,
  arith, Bool, true, false, Bool-cases, List, [], ◌∷◌, ◌++◌, none, some, length, get_elem?, take,
  drop,
}
use rollinghash.Hasher.{Hasher}
use rollinghash.Chunker.{Core, max_int, short_count, within, limit, emit, force, choose}
use rollinghash.Chunker.Reference.{latest}
use rollinghash.Chunker.Wrap.{Reaches, limit-cases}

take-empty : (b : ℕ) → ◌≡◌ {A = List ℕ} (take b []) []
take-empty zero = refl
take-empty (suc b) = refl

pub take_add : (a b : ℕ) (xs : List ℕ) → take (a + b) xs ≡ take a xs ++ take b (drop a xs)
take_add zero b xs = ap (λ n. take n xs) (omega arith)
take_add (suc a) b [] = take-empty (suc a + b) ∙ sym (take-empty b)
take_add (suc a) b (x ∷ xs) =
    let n : suc a + b ≡ suc (a + b) = omega arith in
    ap (λ m. take m (x ∷ xs)) n ∙ ap (λ t. x ∷ t) (take_add a b xs)

pub short_count_le : (end : ℕ) (xs : List ℕ) → short_count end xs ≤ length xs
short_count_le end [] = omega arith
short_count_le end (e ∷ xs) = elim (Bool-cases (ltb (e + 1) end)) [
  | inl k ↦ rw (short_count, k) (omega (arith, short_count_le end xs))
  | inr k ↦ rw (short_count, k) (omega arith)
]

module _ {H : Hasher} {Error : Type 0} where
  pub choose-none : (c : Core H Error) → get_elem? c.bounds c.bcur ≡ none → choose c ≡ force c
  unfolding choose
  choose-none c e =
      ap
        (λ o. elim o [
          | none ↦ force c
          | some e ↦
              if within (e + 1) (limit c)
              then emit (record c { bcur = c.bcur + 1 }) (e + 1) true
              else force c
        ])
        e

  pub choose-some :
      (c : Core H Error) (end : ℕ) (b : Bool)
      → get_elem? c.bounds c.bcur ≡ some end
      → within (end + 1) (limit c) ≡ b
      → choose c ≡ (if b then emit (record c { bcur = c.bcur + 1 }) (end + 1) true else force c)
  unfolding choose
  choose-some c end b e k =
      ap
        (λ o. elim o [
          | none ↦ force c
          | some e ↦
              if within (e + 1) (limit c)
              then emit (record c { bcur = c.bcur + 1 }) (e + 1) true
              else force c
        ])
        e
      ∙ ap (λ t. if t then emit (record c { bcur = c.bcur + 1 }) (end + 1) true else force c) k

-- The longest chunk, and the limit that the core computes.
module _ {H : Hasher} {Error : Type 0} (checksum : List ℕ → ℕ) (w mask min_size max_size : ℕ) where
  pub in_range :
      (c : Core H Error) (p : List ℕ) (at : ℕ)
      → Reaches c
      → c.max_size ≡ max_size
      → at < length p
      → within (at + 1) (limit c) ≡ true
      → at < latest checksum w mask min_size max_size p c.chunk_start
  in_range c p at reaches same h k = elim (limit-cases c reaches) [
    | inl (e, none_) ↦
        (let endless : (max_size == max_int) ≡ true = ap (λ n. n == max_int) (sym same) ∙ e in
          rw endless h)
    | inr (e, some_) ↦
        let bounded : (max_size == max_int) ≡ false = ap (λ n. n == max_int) (sym same) ∙ e in
        let k' : leb (at + 1) (c.chunk_start + c.max_size) ≡ true =
          ap (within (at + 1)) (sym some_) ∙ k in
        rw bounded (ground (arith, same))
  ]

  pub out_of_range :
      (c : Core H Error) (p : List ℕ) (at : ℕ)
      → Reaches c
      → c.max_size ≡ max_size
      → within (at + 1) (limit c) ≡ false
      → latest checksum w mask min_size max_size p c.chunk_start ≤ at
  out_of_range c p at reaches same k = elim (limit-cases c reaches) [
    | inl (e, none_) ↦ absurd (cc (ap (within (at + 1)) (sym none_) ∙ k))
    | inr (e, some_) ↦
        let bounded : (max_size == max_int) ≡ false = ap (λ n. n == max_int) (sym same) ∙ e in
        let k' : leb (at + 1) (c.chunk_start + c.max_size) ≡ false =
          ap (within (at + 1)) (sym some_) ∙ k in
        rw bounded (ground (arith, same))
  ]

module _ (checksum : List ℕ → ℕ) (w mask min_size max_size : ℕ) where
  pub reached :
      (p : List ℕ) (start at : ℕ)
      → length p ≤ max_int
      → start + max_size ≤ at
      → latest checksum w mask min_size max_size p start ≤ at
  reached p start at short far = elim (Bool-cases (max_size == max_int)) [
    | inl e ↦ rw e (ground arith)
    | inr e ↦ rw e (omega arith)
  ]
