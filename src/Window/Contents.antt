-- ===== src/Window/Contents.antt =====
-- The bytes that a circular window stands for, oldest first, and what `Write` and `Roll` of a
-- digest do to them.
use rollinghash.Prelude.{
  ℕ, ◌+◌, ◌≤◌, ◌<◌, leb, ◌==◌, ==_iff, Bool-cases, ◌⊎◌, inl, inr, ◌≡◌, refl, sym, ap, ap₂, ◌∙◌,
  arith, List, [], ◌∷◌, ◌++◌, append-nil, append_assoc, some, none, true, false, take-append_add,
  drop-append_add, length, take, drop, length-append, take-append, drop-append, split_at,
  get_elem?-middle, set?-middle, length-take, length-drop,
}
use rollinghash.Window.{Circular, append, enter}
use rollinghash.Window.Reverse.{move_left_lem}

unfoldable pub contents : Circular → List ℕ
contents d = drop d.oldest d.window ++ take d.oldest d.window

-- `oldest` is an index of the window, or 0 while the window is empty.
abbrev pub IsValid : Circular → Type 0
IsValid d = (d.oldest ≡ 0) ⊎ (d.oldest < length d.window)

pub length-contents : (d : Circular) → length (contents d) ≡ length d.window
unfolding contents
length-contents d = omega (
  arith,
  length-append (drop d.oldest d.window) (take d.oldest d.window),
  length-take d.oldest d.window,
  length-drop d.oldest d.window,
)

-- On a valid circular window, what Write does to it does not panic and leaves the contents, oldest
-- byte first, followed by the new bytes, with oldest 0.
pub append_lem :
    (d : Circular) (p : List ℕ)
    → IsValid d
    → append d p ≡ some (record { window = contents d ++ p; oldest = 0 })
unfolding append contents
append_lem d p h = elim (Bool-cases (d.oldest == 0)) [
  | inl e ↦
      rw (e, (==_iff d.oldest 0).0 e)
        (ap (λ t. some (record { window = t ++ p; oldest = 0 })) (sym (append-nil d.window)))
  | inr e ↦ rw (e, move_left_lem d.window d.oldest (ground arith)) refl
]

-- `Roll` has taken the oldest byte `x` off the window and put `c` behind the others, `xs`.
pub record IsEntered (d : Circular) (x : ℕ) (xs : List ℕ) (c : ℕ) : Type 0 where
  pub after : Circular
  pub returns : enter d c ≡ some (x, after)
  pub valid : IsValid after
  pub bytes : contents after ≡ xs ++ (c ∷ [])
  pub same_length : length after.window ≡ length d.window

leb_of_le : (a b : ℕ) → a ≤ b → leb a b ≡ true
leb_of_le a b h = ground arith

leb_of_lt : (a b : ℕ) → b < a → leb a b ≡ false
leb_of_lt a b h = ground arith

length-middle :
    (front back : List ℕ) (c : ℕ) → length (front ++ (c ∷ back)) ≡ length front + 1 + length back
length-middle front back c = omega (arith, length-append front (c ∷ back))

-- The oldest byte stands between `front` and `back`.
enter-middle :
    (front back : List ℕ) (x c : ℕ)
    → IsEntered (record { window = front ++ (x ∷ back); oldest = length front }) x (back ++ front) c
unfolding enter contents
enter-middle front [] x c = record {
  after = record { window = front ++ (c ∷ []); oldest = 0 };
  returns = rw (
    get_elem?-middle front [] x,
    set?-middle front [] x c,
    leb_of_le (length (front ++ (c ∷ []))) (length front + 1)
        (omega (arith, length-middle front [] c)),
  );
  valid = inl refl;
  bytes = append-nil (front ++ (c ∷ []));
  same_length = length-middle front [] c ∙ sym (length-middle front [] x);
}
enter-middle front (b ∷ back) x c = record {
  after = record { window = front ++ (c ∷ b ∷ back); oldest = length front + 1 };
  returns = rw (
    get_elem?-middle front (b ∷ back) x,
    set?-middle front (b ∷ back) x c,
    leb_of_lt (length (front ++ (c ∷ b ∷ back))) (length front + 1)
        (omega (arith, length-middle front (b ∷ back) c)),
  );
  valid = inr (omega (arith, length-middle front (b ∷ back) c));
  bytes =
      rw (drop-append_add 1 front (c ∷ b ∷ back), take-append_add 1 front (c ∷ b ∷ back))
        (sym (append_assoc (b ∷ back) front (c ∷ [])));
  same_length = length-middle front (b ∷ back) c ∙ sym (length-middle front (b ∷ back) x);
}

contents-middle :
    (front back : List ℕ) (x : ℕ)
    → contents (record { window = front ++ (x ∷ back); oldest = length front })
      ≡ x ∷ (back ++ front)
unfolding contents
contents-middle front back x =
    ap₂ ◌++◌ (drop-append front (x ∷ back)) (take-append front (x ∷ back))

-- On a valid circular window whose contents start with x, what Roll does to it does not panic,
-- gives x as the leaving byte, and leaves a valid window of the same length whose contents are the
-- others followed by the new byte.
pub enter_lem :
    (d : Circular) (x : ℕ) (xs : List ℕ) (c : ℕ)
    → IsValid d
    → contents d ≡ x ∷ xs
    → IsEntered d x xs c
enter_lem d x xs c v e =
    let in_range : d.oldest < length d.window = ground (arith, length-contents d, ap length e) in
    let (front, a, back, ew, el) = split_at d.window d.oldest in_range in
    let same : d ≡ record { window = front ++ (a ∷ back); oldest = length front } =
      λ i. record { window = ew i; oldest = sym el i } in
    let bytes : x ∷ xs ≡ a ∷ (back ++ front) =
      sym e ∙ ap contents same ∙ contents-middle front back a in
    let head : a ≡ x = cc bytes in
    let rest : back ++ front ≡ xs = cc bytes in
    rw same (rw (← rest, ← head) (enter-middle front back a c))

-- On an empty window `Roll` panics.
pub enter-empty : (d : Circular) (c : ℕ) → d.window ≡ [] → enter d c ≡ none
unfolding enter
enter-empty d c e = rw e
