-- ===== src/Chunker/Short.antt =====
-- chunker.go: the bounds that are too short for a chunk, which `next` scans past.
use rollinghash.Prelude.{
  ℕ, zero, suc, ◌+◌, ◌-◌, ◌≤◌, ◌<◌, ltb, inl, inr, ◌≡◌, refl, sym, ap, ap₂, ◌∙◌, arith, Bool, true,
  false, Bool-cases, List, [], ◌∷◌, ◌++◌, take, drop, All, subst,
}
use rollinghash.Kernel.{positions}
use rollinghash.Chunker.{short_count}

-- Bounds that no chunk of `min_size` bytes from `start` can use.
abbrev pub IsShort : ℕ → List ℕ → Type 0
IsShort end = All (λ e. e + 1 < end)

pub IsShort-le : (a b : ℕ) (bounds : List ℕ) → a ≤ b → IsShort a bounds → IsShort b bounds
IsShort-le a b [] h k = tt
IsShort-le a b (e ∷ bounds) h k = (omega (arith, k.0), IsShort-le a b bounds h k.1)

pub All_lt-IsShort :
    (a b : ℕ) (bounds : List ℕ) → a < b → All (λ e. e < a) bounds → IsShort b bounds
All_lt-IsShort a b [] h k = tt
All_lt-IsShort a b (e ∷ bounds) h k = (omega (arith, k.0), All_lt-IsShort a b bounds h k.1)

pub short_count-short :
    (end e : ℕ) (bounds : List ℕ)
    → ltb (e + 1) end ≡ true
    → short_count end (e ∷ bounds) ≡ suc (short_count end bounds)
short_count-short end e bounds h =
    ap (λ b. elim b [ true ↦ suc (short_count end bounds) | false ↦ 0 ]) h

pub short_count-long :
    (end e : ℕ) (bounds : List ℕ) → ltb (e + 1) end ≡ false → short_count end (e ∷ bounds) ≡ 0
short_count-long end e bounds h =
    ap (λ b. elim b [ true ↦ suc (short_count end bounds) | false ↦ 0 ]) h

pub drop-short :
    (end e : ℕ) (bounds : List ℕ)
    → ltb (e + 1) end ≡ true
    → drop (short_count end (e ∷ bounds)) (e ∷ bounds) ≡ drop (short_count end bounds) bounds
drop-short end e bounds h = ap (λ n. drop n (e ∷ bounds)) (short_count-short end e bounds h)

pub drop-long :
    (end e : ℕ) (bounds : List ℕ)
    → ltb (e + 1) end ≡ false
    → drop (short_count end (e ∷ bounds)) (e ∷ bounds) ≡ e ∷ bounds
drop-long end e bounds h = ap (λ n. drop n (e ∷ bounds)) (short_count-long end e bounds h)

-- The scan counts bounds that are short, all those before the first that is not.
pub short_count-IsShort :
    (end : ℕ) (bounds : List ℕ) → IsShort end (take (short_count end bounds) bounds)
short_count-IsShort end [] = tt
short_count-IsShort end (e ∷ bounds) = elim (Bool-cases (ltb (e + 1) end)) [
  | inl h ↦
      subst (λ n. IsShort end (take n (e ∷ bounds))) (sym (short_count-short end e bounds h))
        ((ground arith), short_count-IsShort end bounds)
  | inr h ↦
      subst (λ n. IsShort end (take n (e ∷ bounds))) (sym (short_count-long end e bounds h)) tt
]

pub short_count-append :
    (end : ℕ) (junk rest : List ℕ)
    → IsShort end junk
    → drop (short_count end (junk ++ rest)) (junk ++ rest) ≡ drop (short_count end rest) rest
short_count-append end [] rest h = refl
short_count-append end (e ∷ junk) rest h =
    let short : ltb (e + 1) end ≡ true = (let lt = h.0 in ground arith) in
    drop-short end e (junk ++ rest) short ∙ short_count-append end junk rest h.1

-- The scan of the positions of an interval stops at the first that is not short.
pub short_count-late :
    (t : ℕ → Bool) (end lo n : ℕ)
    → end ≤ lo + 1
    → drop (short_count end (positions t lo n)) (positions t lo n) ≡ positions t lo n
short_count-late t end lo zero h = refl
short_count-late t end lo (suc n) h =
    let long : ltb (lo + 1) end ≡ false = ground arith in
    elim (Bool-cases (t lo)) [
      | inl e ↦ rw e (drop-long end lo (positions t (lo + 1) n) long)
      | inr e ↦ rw e (short_count-late t end (lo + 1) n (omega arith))
    ]

pub short_count-positions :
    (t : ℕ → Bool) (end lo n : ℕ)
    → lo + 1 ≤ end
    → drop (short_count end (positions t lo n)) (positions t lo n)
      ≡ positions t (end - 1) (lo + n - (end - 1))
short_count-positions t end lo zero h =
    let count : lo + 0 - (end - 1) ≡ 0 = omega arith in sym (ap (positions t (end - 1)) count)
short_count-positions t end lo (suc n) h = elim (Bool-cases (ltb (lo + 1) end)) [
  | inr k ↦
      let start : lo ≡ end - 1 = ground arith in
      let count : suc n ≡ lo + suc n - (end - 1) = ground arith in
      short_count-late t end lo (suc n) (ground arith) ∙ ap₂ (positions t) start count
  | inl k ↦
      let rest : drop (short_count end (positions t (lo + 1) n)) (positions t (lo + 1) n)
          ≡ positions t (end - 1) (lo + suc n - (end - 1)) =
        short_count-positions t end (lo + 1) n (ground arith)
        ∙ ap (positions t (end - 1)) (omega arith) in
      elim (Bool-cases (t lo)) [
        | inl e ↦ rw e (drop-short end lo (positions t (lo + 1) n) k ∙ rest)
        | inr e ↦ rw e rest
      ]
]
