-- ===== src/Bozo/Digest.antt =====
-- bozo32/bozo32.go: the digest as a hasher, and its loops.
use rollinghash.Prelude.{
  ℕ, suc, ◌+◌, ◌^◌, ◌≤◌, ◌<◌, ◌==◌, false, ◌≡◌, inl, refl, sym, ap, ap₂, ◌∙◌, arith, List, [], ◌∷◌,
  ◌++◌, append-nil, foldl, length, take, some, IsBytes, All-append, length-snoc,
}
use native.Mathlib.Nat.{add-zero}
use rollinghash.Window.{Circular}
use rollinghash.Window.Contents
use rollinghash.Window.Contents.{contents, append_lem, enter_lem, length-contents, IsEntered}
use rollinghash.Kernel.{sum_of, window_sums, boundaries, max_window}
use rollinghash.Hasher.{Hasher, IsHasher, write_then_roll}
use rollinghash.Hasher.Rolls.{write_then_roll-window_sums}
use rollinghash.TwoLane.{Hit}
use rollinghash.TwoLane.Sums.{batch_roll-window_sums}
use rollinghash.TwoLane.Hits.{batch_boundaries-boundaries}
use rollinghash.Bozo.{
  Bozo, reset, new_from_int, sum32, absorb, step, rehash, write, roll, power, kernel, batch_roll,
  batch_boundaries,
}
use rollinghash.Bozo.Horner.{kernel-IsRolling_bozo}

module _ (bits a : ℕ) where
  -- The digest has the multiplier `a` and holds the bytes `p`.
  pub record Holds (d : Bozo) (p : List ℕ) : Type 0 where
    pub multiplier : d.a ≡ a
    pub valid : Contents.IsValid d.win
    pub bytes : contents d.win ≡ p
    pub weight : d.an ≡ power bits a (length p)
    pub in_range : IsBytes p
    pub short : length p < max_window
    pub value : d.value ≡ sum_of (kernel bits a) p

  -- The loop of `Write` computes the checksum and the power in one pass.
  rehash_lem :
      (p : List ℕ) (v n : ℕ)
      → rehash bits a p v (power bits a n)
        ≡ (foldl (absorb bits a) v p, power bits a (n + length p))
  unfolding rehash power
  rehash_lem [] v n = rw (add-zero n)
  rehash_lem (c ∷ p) v n =
      rehash_lem p (absorb bits a v c) (suc n)
      ∙ ap (λ k. (foldl (absorb bits a) (absorb bits a v c) p, power bits a k)) (omega arith)

  rehash_start :
      (p : List ℕ) → rehash bits a p 0 1 ≡ (sum_of (kernel bits a) p, power bits a (length p))
  unfolding power
  rehash_start p =
      rehash_lem p 0 0 ∙ ap (λ k. (sum_of (kernel bits a) p, power bits a k)) (omega arith)

  pub new_from_int-Holds : Holds (new_from_int a) []
  unfolding new_from_int contents power
  new_from_int-Holds = record {
    multiplier = refl;
    valid = inl refl;
    bytes = refl;
    weight = refl;
    in_range = tt;
    short = omega arith;
    value = refl;
  }

  pub reset-Holds : (d : Bozo) (p : List ℕ) → Holds d p → Holds (reset d) []
  unfolding reset contents power
  reset-Holds d p h = record {
    multiplier = h.multiplier;
    valid = inl refl;
    bytes = refl;
    weight = refl;
    in_range = tt;
    short = omega arith;
    value = refl;
  }

  -- The digest after a `Write`.
  rewritten : Bozo → List ℕ → Bozo
  rewritten d p = record d {
    value = sum_of (kernel bits a) p;
    an = power bits a (length p);
    win = record { window = p; oldest = 0 };
  }

  rewritten-Holds :
      (d : Bozo) (p : List ℕ)
      → d.a ≡ a
      → IsBytes p
      → length p < max_window
      → Holds (rewritten d p) p
  unfolding rewritten contents
  rewritten-Holds d p e b l = record {
    multiplier = e;
    valid = inl refl;
    bytes = append-nil p;
    weight = refl;
    in_range = b;
    short = l;
    value = refl;
  }

  write_some :
      (d : Bozo) (p q : List ℕ)
      → Holds d p
      → (length q == 0) ≡ false
      → write bits d q ≡ some (rewritten d (p ++ q), length q)
  unfolding write rewritten
  write_some d p q h e =
      rw (e, append_lem d.win q h.valid, h.bytes, h.multiplier, rehash_start (p ++ q)) refl

  -- A Write of bytes that leaves fewer than 2^32 of them in the window does not panic and returns
  -- their number, and the digest then holds the old window followed by the new bytes, its checksum
  -- and its cached values those of that window.
  pub write-Holds_bozo :
      (d : Bozo) (p q : List ℕ)
      → Holds d p
      → IsBytes q
      → length (p ++ q) < max_window
      → (d' : Bozo) × (write bits d q ≡ some (d', length q)) × Holds d' (p ++ q)
  write-Holds_bozo d p [] h b l = (d, (unfold write in refl), rw (append-nil p) h)
  write-Holds_bozo d p (c ∷ q) h b l = (
    rewritten d (p ++ (c ∷ q)),
    write_some d p (c ∷ q) h (ground arith),
    rewritten-Holds d (p ++ (c ∷ q)) h.multiplier (All-append (λ x. x < 256) p (c ∷ q) h.in_range b)
        l,
  )

  -- The digest after a `Roll`, given its window.
  rolled : Bozo → ℕ → ℕ → Circular → Bozo
  rolled d x c win = record d { value = step bits d.a d.an d.value x c; win = win }

  rolled-Holds :
      (d : Bozo) (x c : ℕ) (p : List ℕ)
      → Holds d (x ∷ p)
      → c < 256
      → (e : IsEntered d.win x p c) → Holds (rolled d x c e.after) (p ++ (c ∷ []))
  unfolding rolled
  rolled-Holds d x c p h hc e = record {
    multiplier = h.multiplier;
    valid = e.valid;
    bytes = e.bytes;
    weight = h.weight ∙ ap (power bits a) (sym (length-snoc p c));
    short = omega (arith, length-snoc p c, h.short);
    in_range = All-append (λ x. x < 256) p (c ∷ []) h.in_range.1 (hc, tt);
    value =
        ap₂ (λ (m v : ℕ). step bits m d.an v x c) h.multiplier h.value
        ∙ ap (λ n. step bits a n (sum_of (kernel bits a) (x ∷ p)) x c) h.weight
        ∙ kernel-IsRolling_bozo bits a x c p h.short h.in_range.0 h.in_range.1 hc;
  }

  -- A Roll of a byte on a digest that holds a window that is not empty does not panic, and the
  -- digest then holds the window without its oldest byte and with the new one last, its checksum
  -- and its cached values those of that window.
  pub roll-Holds_bozo :
      (d : Bozo) (x c : ℕ) (p : List ℕ)
      → Holds d (x ∷ p)
      → c < 256
      → (d' : Bozo) × (roll bits d c ≡ some d') × Holds d' (p ++ (c ∷ []))
  roll-Holds_bozo d x c p h hc =
      let e = enter_lem d.win x p c h.valid h.bytes in
      (rolled d x c e.after, (unfold roll rolled in (rw e.returns)), rolled-Holds d x c p h hc e)

  pub sum32-Holds : (d : Bozo) (p : List ℕ) → Holds d p → sum32 d ≡ sum_of (kernel bits a) p
  unfolding sum32
  sum32-Holds d p h = h.value

  abbrev pub hasher : Hasher
  hasher = record {
    State = Bozo;
    fresh = new_from_int a;
    reset = reset;
    write = write bits;
    roll = roll bits;
    sum = sum32;
  }

  -- The package implements the interface: a bozo digest holds a window of bytes under `Reset`,
  -- `Write` and `Roll`, and its sum is the checksum of that window.
  abbrev pub hasher-IsHasher : IsHasher hasher (sum_of (kernel bits a))
  hasher-IsHasher = record {
    Holds = Holds;
    fresh_holds = new_from_int-Holds;
    reset_holds = reset-Holds;
    write_holds = write-Holds_bozo;
    roll_holds = roll-Holds_bozo;
    sum_holds = sum32-Holds;
  }

  -- For a bozo digest of any word size that holds some window, bytes as data, a window of 1 to 2^32
  -- - 1 bytes that fits the data and a dst of exactly the number of windows, BatchRoll does not
  -- panic and leaves the checksum of every window in dst, in order, and a Reset, a Write of the
  -- first window and a Roll for each further byte give the same sums.
  pub batch_roll_bozo :
      (d : Bozo) (held dst p : List ℕ) (w : ℕ)
      → Holds d held
      → IsBytes p
      → 0 < w
      → w < max_window
      → w ≤ length p
      → length dst + w ≡ length p + 1
      → (batch_roll bits d dst p w ≡ some (window_sums (sum_of (kernel bits a)) w p))
        × (write_then_roll hasher d p w ≡ batch_roll bits d dst p w)
  unfolding batch_roll
  batch_roll_bozo d held dst p w h b pos short fits room =
      let batch : batch_roll bits d dst p w ≡ some (window_sums (sum_of (kernel bits a)) w p) =
        rw h.multiplier (
          batch_roll-window_sums (kernel bits a) (kernel-IsRolling_bozo bits a) dst p w b pos short
            fits room) in
      (
        batch,
        write_then_roll-window_sums hasher (sum_of (kernel bits a)) hasher-IsHasher d p held w h b
              pos short fits
            ∙ sym batch,
      )

  -- For a bozo digest that holds some window, bytes as data, a window of 1 to 2^32 - 1 bytes that
  -- fits the data, buffers with room for every window and at most 2^31 windows, BatchBoundaries
  -- does not panic and the hits of lane A followed by those of lane B are exactly the positions
  -- whose checksum has no bit of the mask, in order.
  pub batch_boundaries_bozo :
      (d : Bozo) (held buf_a buf_b p : List ℕ) (w mask : ℕ)
      → Holds d held
      → IsBytes p
      → 0 < w
      → w < max_window
      → w ≤ length p
      → length p + 1 ≤ length buf_a + w
      → length p + 1 ≤ length buf_b + w
      → length p + 1 ≤ 2 ^ 31 + w
      → (r : Hit) × (batch_boundaries bits d buf_a buf_b p w mask ≡ some r)
        × (take r.na r.a ++ take r.nb r.b ≡ boundaries (sum_of (kernel bits a)) mask w p)
  unfolding batch_boundaries
  batch_boundaries_bozo d held buf_a buf_b p w mask h b pos short fits room_a room_b small =
      rw h.multiplier (
        batch_boundaries-boundaries (kernel bits a) (kernel-IsRolling_bozo bits a) mask buf_a buf_b
          p w b pos short fits room_a room_b small)
