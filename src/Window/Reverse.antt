-- ===== src/Window/Reverse.antt =====
-- The in-place loop of internal/window/window.go reverses, and three reversals move left.
use rollinghash.Prelude.{
  ℕ, zero, suc, ◌+◌, ◌-◌, ◌/◌, ◌≤◌, ◌<◌, le→ltb, ◌≡◌, ◌≢◌, refl, sym, ap, ap₂, ◌∙◌, arith, List, [],
  ◌∷◌, ◌++◌, some, length, get_elem?, set, take, drop, length-append, length-set, set?-eq-set,
  get_elem?-set_self, get_elem?-set_ne, get_elem?_of_lt, get_elem?_of_ge, get_elem?_ext,
  get_elem?-append_left, get_elem?-append_right,
}
use mathlib.Core.List.{reverse-append, reverse-reverse}
use mathlib.Core.List
use native.Mathlib.Decide.{dec_lt}
use rollinghash.Window.{swap, reverse_from, reverse, move_left}

length-reverse : (xs : List ℕ) → length (List.reverse xs) ≡ length xs
length-reverse [] = refl
length-reverse (x ∷ xs) = omega (
  arith,
  ap length (List.reverse-cons x xs),
  length-append (List.reverse xs) (x ∷ []),
  length-reverse xs,
)

get_elem?-reverse :
    (xs : List ℕ) (k : ℕ)
    → k < length xs
    → get_elem? (List.reverse xs) k ≡ get_elem? xs (length xs - 1 - k)
get_elem?-reverse [] k h = absurd (omega arith)
get_elem?-reverse (x ∷ xs) k h =
    ap (λ l. get_elem? l k) (List.reverse-cons x xs) ∙ elim (dec_lt k (length xs)) [
      | yes p ↦
          get_elem?-append_left (List.reverse xs) (x ∷ []) k (rw length-reverse p)
          ∙ get_elem?-reverse xs k p
          ∙ ap (get_elem? (x ∷ xs)) (step p)
      | no p ↦
          get_elem?-append_right (List.reverse xs) (x ∷ []) k (rw length-reverse (omega arith))
          ∙ ap (get_elem? (x ∷ [])) (first p)
          ∙ ap (get_elem? (x ∷ xs)) (last p)
    ]
  where
    step : k < length xs → suc (length xs - 1 - k) ≡ length (x ∷ xs) - 1 - k
    step p = omega arith

    first : ¬ (k < length xs) → k - length (List.reverse xs) ≡ 0
    first p = omega (arith, length-reverse xs)

    last : ¬ (k < length xs) → 0 ≡ length (x ∷ xs) - 1 - k
    last p = omega arith

-- `out` is `w` with the first and the last `i` bytes exchanged.
record IsMirrored (i : ℕ) (w out : List ℕ) : Type 0 where
  same_length : length out ≡ length w
  front : (k : ℕ) → k < i → k < length w → get_elem? out k ≡ get_elem? w (length w - 1 - k)
  back :
      (k : ℕ) → length w - i ≤ k → k < length w → get_elem? out k ≡ get_elem? w (length w - 1 - k)
  inner : (k : ℕ) → i ≤ k → k < length w - i → get_elem? out k ≡ get_elem? w k

swapped : List ℕ → ℕ → ℕ → ℕ → ℕ → List ℕ
swapped w i j x y = set (set w i y) j x

swap_lem :
    (w : List ℕ) (i j x y : ℕ)
    → i < length w
    → j < length w
    → get_elem? w i ≡ some x
    → get_elem? w j ≡ some y
    → swap w i j ≡ some (swapped w i j x y)
unfolding swap swapped
swap_lem w i j x y hi hj ex ey =
    rw (ex, ey, set?-eq-set w i y hi) (set?-eq-set (set w i y) j x (rw length-set hj))

get_elem?-swapped_ne :
    (w : List ℕ) (i j k x y : ℕ) → k ≢ i → k ≢ j → get_elem? (swapped w i j x y) k ≡ get_elem? w k
unfolding swapped
get_elem?-swapped_ne w i j k x y hi hj =
    get_elem?-set_ne (set w i y) j k x (λ e. hj (sym e))
    ∙ get_elem?-set_ne w i k y (λ e. hi (sym e))

get_elem?-swapped_left :
    (w : List ℕ) (i j x y : ℕ) → i ≢ j → i < length w → get_elem? (swapped w i j x y) i ≡ some y
unfolding swapped
get_elem?-swapped_left w i j x y ne hi =
    get_elem?-set_ne (set w i y) j i x (λ e. ne (sym e)) ∙ get_elem?-set_self w i y hi

get_elem?-swapped_right :
    (w : List ℕ) (i j x y : ℕ) → j < length w → get_elem? (swapped w i j x y) j ≡ some x
unfolding swapped
get_elem?-swapped_right w i j x y hj = get_elem?-set_self (set w i y) j x (rw length-set hj)

length-swapped : (w : List ℕ) (i j x y : ℕ) → length (swapped w i j x y) ≡ length w
unfolding swapped
length-swapped w i j x y = length-set (set w i y) j x ∙ length-set w i y

module _ (i j : ℕ) (w cur : List ℕ) (x y : ℕ) (ij : i < j) (last : i + j + 1 ≡ length w)
    (ex : get_elem? cur i ≡ some x) (ey : get_elem? cur j ≡ some y) (m : IsMirrored i w cur) where
  IsMirrored-swapped : IsMirrored (i + 1) w (swapped cur i j x y)
  IsMirrored-swapped = record {
    same_length = length-swapped cur i j x y ∙ m.same_length;
    front = λ k p q. ground (
      arith,
      m.same_length,
      m.front k,
      m.inner i,
      m.inner j,
      get_elem?-swapped_ne cur i j k x y,
      get_elem?-swapped_left cur i j x y,
      ap (get_elem? w) (mirror_of k),
    );
    back = λ k p q. ground (
      arith,
      m.same_length,
      m.back k,
      m.inner i,
      m.inner j,
      get_elem?-swapped_ne cur i j k x y,
      get_elem?-swapped_right cur i j x y,
      ap (get_elem? w) (mirror_of k),
    );
    inner = λ k p q. ground (arith, m.inner k, get_elem?-swapped_ne cur i j k x y);
  }
    where
      mirror_of : (k : ℕ) → length w - 1 - k ≡ i + j - k
      mirror_of k = omega arith

-- The loop at index `i` runs to the middle, and never reads or writes out of range.
reverse_from-IsMirrored :
    (left i : ℕ) (w cur : List ℕ)
    → i + left ≡ length w / 2
    → IsMirrored i w cur
    → (out : List ℕ) × (reverse_from left i cur ≡ some out) × IsMirrored (length w / 2) w out
unfolding reverse_from
reverse_from-IsMirrored zero i w cur e m =
    (cur, refl, (let e' : i ≡ length w / 2 = omega arith in rw e' at m))
reverse_from-IsMirrored (suc left) i w cur e m =
    let (x, ex) = get_elem?_of_lt cur i (omega (arith, m.same_length)) in
    let j : ℕ = length cur - i - 1 in
    let (y, ey) = get_elem?_of_lt cur j (omega (arith, m.same_length)) in
    let ij : i < j = omega (arith, m.same_length) in
    let sum : i + j + 1 ≡ length w = omega (arith, m.same_length) in
    let m' : IsMirrored (i + 1) w (swapped cur i j x y) =
      IsMirrored-swapped i j w cur x y ij sum ex ey m in
    let (out, eo, mo) =
      reverse_from-IsMirrored left (i + 1) w (swapped cur i j x y) (omega arith) m' in
    (
      out,
      rw (swap_lem cur i j x y (omega (arith, m.same_length)) (omega (arith, m.same_length)) ex ey)
          eo,
      mo,
    )

IsMirrored-eq-reverse : (w out : List ℕ) → IsMirrored (length w / 2) w out → out ≡ List.reverse w
IsMirrored-eq-reverse w out m = get_elem?_ext out (List.reverse w) same
  where
    middle :
        (k : ℕ)
        → length w / 2 ≤ k
        → k < length w - length w / 2
        → get_elem? w k ≡ get_elem? w (length w - 1 - k)
    middle k p q = let e : k ≡ length w - 1 - k = omega arith in ap (get_elem? w) e

    inside : (k : ℕ) → k < length w → get_elem? out k ≡ get_elem? w (length w - 1 - k)
    inside k h = ground (arith, m.front k, m.back k, m.inner k, middle k)

    same : (k : ℕ) → get_elem? out k ≡ get_elem? (List.reverse w) k
    same k = elim (dec_lt k (length w)) [
      | yes p ↦ inside k p ∙ sym (get_elem?-reverse w k p)
      | no p ↦
          get_elem?_of_ge out k (omega (arith, m.same_length))
          ∙ sym (get_elem?_of_ge (List.reverse w) k (omega (arith, length-reverse w)))
    ]

-- The in-place `reverse` never reads or writes out of range, and reverses.
pub reverse_lem : (w : List ℕ) → reverse w ≡ some (List.reverse w)
unfolding reverse
reverse_lem w =
    let (out, eo, m) = reverse_from-IsMirrored (length w / 2) 0 w w (omega arith) start in
    eo ∙ ap some (IsMirrored-eq-reverse w out m)
  where
    start : IsMirrored 0 w w
    start = record {
      same_length = refl;
      front = λ k p q. absurd (omega arith);
      back = λ k p q. absurd (omega arith);
      inner = λ k p q. refl;
    }

-- For an oldest that is at most the window's length, MoveLeft does not panic and brings the bytes
-- from oldest on to the front and those before it behind them.
pub move_left_lem :
    (w : List ℕ) (oldest : ℕ)
    → oldest ≤ length w
    → move_left w oldest ≡ some (drop oldest w ++ take oldest w)
unfolding move_left
move_left_lem w oldest h =
    rw (le→ltb (length w) oldest h, reverse_lem (take oldest w), reverse_lem (drop oldest w))
      (reverse_lem (List.reverse (take oldest w) ++ List.reverse (drop oldest w))
        ∙ ap some (
            reverse-append (List.reverse (take oldest w)) (List.reverse (drop oldest w))
            ∙ ap₂ ◌++◌ (reverse-reverse (drop oldest w)) (reverse-reverse (take oldest w))))
