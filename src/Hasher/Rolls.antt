-- ===== src/Hasher/Rolls.antt =====
-- What a client of the interface may rely on: rolling over a slice gives the checksum of each
-- window, and so does writing in pieces.
use rollinghash.Prelude.{
  ℕ, zero, suc, ◌+◌, ◌-◌, ◌≤◌, ◌<◌, ◌≡◌, refl, sym, ap, ap₂, ◌∙◌, arith, List, [], ◌∷◌, some,
  length, take, drop, slice, tabulate, tabulate_ext, IsBytes, All-take, get_elem?, get_elem?_of_lt,
  lt_of_get_elem?, All-get_elem?, length-drop, length-take, get_elem?-drop, subst,
}
use rollinghash.Kernel.{window_sums, max_window}
use rollinghash.TwoLane.Advance.{drop-eq-cons, slice-suc, slice-snoc}
use rollinghash.Hasher.{Hasher, IsHasher, roll_sums, write_then_roll}

module _ (h : Hasher) (checksum : List ℕ → ℕ) (s : IsHasher h checksum) where
  sums_after : ℕ → List ℕ → ℕ → ℕ → ℕ
  sums_after w p i j = checksum (slice (i + 1 + j) w p)

  -- One roll moves the window by one byte.
  roll_once :
      (w i c : ℕ) (p : List ℕ) (d : h.State)
      → IsBytes p
      → 0 < w
      → get_elem? p (i + w) ≡ some c
      → s.Holds d (slice i w p)
      → (d' : h.State) × (h.roll d c ≡ some d') × s.Holds d' (slice (i + 1) w p)
  roll_once zero i c p d bytes pos e holds = absurd (omega arith)
  roll_once (suc w) i c p d bytes pos e holds =
      let (x, ex) = get_elem?_of_lt p i (omega (arith, lt_of_get_elem? p (i + suc w) c e)) in
      let at_end : get_elem? p (i + 1 + w) ≡ some c = ap (get_elem? p) (omega arith) ∙ e in
      let c_byte : c < 256 = All-get_elem? (λ b. b < 256) p (i + suc w) c bytes e in
      let (d', ed, holds') =
        s.roll_holds d x c (slice (i + 1) w p) (subst (s.Holds d) (slice-suc p i w x ex) holds)
          c_byte in
      (d', ed, subst (s.Holds d') (sym (slice-snoc p (i + 1) w c at_end)) holds')

  dropped :
      (w i c : ℕ) (p q : List ℕ)
      → get_elem? p (i + w) ≡ some c
      → drop (i + w) p ≡ c ∷ q
      → drop (i + 1 + w) p ≡ q
  dropped w i c p q here e =
      let shift : i + 1 + w ≡ i + w + 1 = omega arith in
      ap (λ k. drop k p) shift ∙ cc (drop-eq-cons p (i + w) c here)

  rolled :
      (w i : ℕ) (p q : List ℕ) (d d' : h.State) {c : ℕ}
      → h.roll d c ≡ some d'
      → h.sum d' ≡ checksum (slice (i + 1) w p)
      → roll_sums h d' q ≡ some (tabulate (length q) (sums_after w p (i + 1)))
      → roll_sums h d (c ∷ q) ≡ some (tabulate (suc (length q)) (sums_after w p i))
  unfolding roll_sums sums_after
  rolled w i p q d d' ed sum rest =
      rw (ed, rest, sum)
        (ap some (
          ap₂ ◌∷◌ (ap (λ j. checksum (slice j w p)) (omega arith))
            (tabulate_ext (length q) _ _ (λ j h. ap (λ k. checksum (slice k w p)) (omega arith)))))

  roll_sums_lem :
      (w i : ℕ) (p q : List ℕ) (d : h.State)
      → IsBytes p
      → 0 < w
      → drop (i + w) p ≡ q
      → s.Holds d (slice i w p)
      → roll_sums h d q ≡ some (tabulate (length q) (sums_after w p i))
  unfolding roll_sums sums_after
  roll_sums_lem w i p [] d bytes pos e holds = refl
  roll_sums_lem w i p (c ∷ q) d bytes pos e holds =
      let here : get_elem? p (i + w) ≡ some c =
        ap (get_elem? p) (omega arith)
        ∙ sym (get_elem?-drop (i + w) 0 p)
        ∙ ap (λ t. get_elem? t 0) e in
      let (d', ed, holds') = roll_once w i c p d bytes pos here holds in
      let rest_bytes : drop (i + 1 + w) p ≡ q = dropped w i c p q here e in
      let rest = roll_sums_lem w (i + 1) p q d' bytes pos rest_bytes holds' in
      rolled w i p q d d' ed (s.sum_holds d' (slice (i + 1) w p) holds') rest

  window_sums-cons :
      (w : ℕ) (p : List ℕ)
      → w ≤ length p
      → window_sums checksum w p
        ≡ checksum (take w p) ∷ tabulate (length (drop w p)) (sums_after w p 0)
  unfolding sums_after
  window_sums-cons w p fits =
      let count : length p + 1 - w ≡ suc (length (drop w p)) = omega (arith, length-drop w p) in
      ap (λ n. tabulate n (λ i. checksum (slice i w p))) count
      ∙ ap (λ t. checksum (take w p) ∷ t) (tabulate_ext (length (drop w p)) _ _ same)
    where
      same :
          (j : ℕ)
          → j < length (drop w p)
          → checksum (slice (suc j) w p) ≡ checksum (slice (0 + 1 + j) w p)
      same j h = let e : suc j ≡ 0 + 1 + j = omega arith in ap (λ k. checksum (slice k w p)) e

  -- `Write` of the first window and a `Roll` for each further byte give the checksum of every
  -- window, in order, without a panic.
  pub write_then_roll-window_sums :
      (d : h.State) (p held : List ℕ) (w : ℕ)
      → s.Holds d held
      → IsBytes p
      → 0 < w
      → w < max_window
      → w ≤ length p
      → write_then_roll h d p w ≡ some (window_sums checksum w p)
  unfolding write_then_roll
  write_then_roll-window_sums d p held w holds bytes pos short fits =
      let (d', ed, holds') =
        s.write_holds (h.reset d) [] (take w p) (s.reset_holds d held holds)
          (All-take (λ b. b < 256) w p bytes) (omega (arith, length-take w p)) in
      let none_dropped : 0 + w ≡ w = omega arith in
      let rest =
        roll_sums_lem w 0 p (drop w p) d' bytes pos (ap (λ k. drop k p) none_dropped) holds' in
      rw (ed, rest, s.sum_holds d' (take w p) holds') (ap some (sym (window_sums-cons w p fits)))
