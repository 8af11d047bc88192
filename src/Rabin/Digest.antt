-- ===== src/Rabin/Digest.antt =====
-- rabinkarp64/rabinkarp64.go: the digest as a hasher, and its loops.
use rollinghash.Prelude.{
  ℕ, suc, ◌+◌, ◌^◌, ◌≤◌, ◌<◌, ◌==◌, false, ◌≡◌, inl, refl, sym, ap, ap₂, ◌∙◌, arith, List, [], ◌∷◌,
  ◌++◌, append-nil, foldl, length, length-snoc, some, take, IsBytes, All-append,
}
use rollinghash.Window.{Circular}
use rollinghash.Window.Contents
use rollinghash.Window.Contents.{contents, append_lem, enter_lem, IsEntered}
use rollinghash.Kernel.{sum_of, window_sums, boundaries, max_window}
use rollinghash.Hasher.{Hasher, IsHasher, write_then_roll}
use rollinghash.Hasher.Rolls.{write_then_roll-window_sums}
use rollinghash.TwoLane.{Hit}
use rollinghash.TwoLane.Sums.{batch_roll-window_sums}
use rollinghash.TwoLane.Hits.{batch_boundaries-boundaries}
use rollinghash.Rabin.{
  RabinKarp64, Tables, new_from_pol, reset, sum64, build_tables, shift_of, absorb, step, write,
  roll, kernel, batch_roll, batch_boundaries,
}
use rollinghash.Rabin.Reduction.{IsReduction}
use rollinghash.Rabin.Rolling.{kernel-IsRolling_rabin}

module _ (reduce : ℕ → ℕ → ℕ) (degree : ℕ → ℕ) (pol : ℕ) (r : IsReduction reduce pol (degree pol))
    (large : 8 ≤ degree pol) (small : degree pol ≤ 56) where
  -- The digest has the polynomial `pol` and holds the bytes `p`; its tables are those of the window's
  -- length.
  pub record Holds (d : RabinKarp64) (p : List ℕ) : Type 0 where
    pub same_pol : d.pol ≡ pol
    pub valid : Contents.IsValid d.win
    pub bytes : contents d.win ≡ p
    pub in_range : IsBytes p
    pub short : length p < max_window
    pub shift : d.pol_shift ≡ shift_of degree pol
    pub cache : d.tables ≡ build_tables reduce degree pol (length p)
    pub value : d.value ≡ sum_of (kernel reduce degree pol (shift_of degree pol)) p

  pub new_from_pol-Holds : Holds (new_from_pol reduce degree pol) []
  unfolding new_from_pol contents
  new_from_pol-Holds = record {
    same_pol = refl;
    valid = inl refl;
    bytes = refl;
    in_range = tt;
    short = omega arith;
    shift = refl;
    cache = refl;
    value = refl;
  }

  pub reset-Holds : (d : RabinKarp64) (p : List ℕ) → Holds d p → Holds (reset reduce degree d) []
  unfolding reset contents
  reset-Holds d p h = record {
    same_pol = h.same_pol;
    valid = inl refl;
    bytes = refl;
    in_range = tt;
    short = omega arith;
    shift = h.shift;
    cache = ap (λ q. build_tables reduce degree q 0) h.same_pol;
    value = refl;
  }

  pub sum64-Holds :
      (d : RabinKarp64) (p : List ℕ)
      → Holds d p
      → sum64 d ≡ sum_of (kernel reduce degree pol (shift_of degree pol)) p
  unfolding sum64
  sum64-Holds d p h = h.value

  rewritten : ℕ → ℕ → List ℕ → RabinKarp64
  rewritten q shift p = record {
    pol = q;
    tables = build_tables reduce degree q (length p);
    pol_shift = shift;
    value = foldl (absorb reduce q) 0 p;
    win = record { window = p; oldest = 0 };
  }

  rewritten-Holds :
      (p : List ℕ)
      → IsBytes p
      → length p < max_window
      → Holds (rewritten pol (shift_of degree pol) p) p
  unfolding rewritten contents
  rewritten-Holds p b l = record {
    same_pol = refl;
    valid = inl refl;
    bytes = append-nil p;
    in_range = b;
    short = l;
    shift = refl;
    cache = refl;
    value = refl;
  }

  write_some :
      (d : RabinKarp64) (p q : List ℕ)
      → Holds d p
      → (length q == 0) ≡ false
      → write reduce degree d q ≡ some (rewritten pol (shift_of degree pol) (p ++ q), length q)
  unfolding write rewritten
  write_some d p q h e = rw (e, append_lem d.win q h.valid, h.bytes, h.same_pol, h.shift) refl

  -- A Write of bytes that leaves fewer than 2^32 of them in the window does not panic and returns
  -- their number, and the digest then holds the old window followed by the new bytes, its checksum
  -- and its cached values those of that window.
  pub write-Holds_rabin :
      (d : RabinKarp64) (p q : List ℕ)
      → Holds d p
      → IsBytes q
      → length (p ++ q) < max_window
      → (d' : RabinKarp64) × (write reduce degree d q ≡ some (d', length q)) × Holds d' (p ++ q)
  write-Holds_rabin d p [] h b l = (d, (unfold write in refl), rw (append-nil p) h)
  write-Holds_rabin d p (c ∷ q) h b l = (
    rewritten pol (shift_of degree pol) (p ++ (c ∷ q)),
    write_some d p (c ∷ q) h (ground arith),
    rewritten-Holds (p ++ (c ∷ q)) (All-append (λ x. x < 256) p (c ∷ q) h.in_range b) l,
  )

  rolled : RabinKarp64 → ℕ → ℕ → Circular → RabinKarp64
  rolled d x c win = record d { value = step d.pol_shift d.tables d.value x c; win = win }

  rolled-Holds :
      (d : RabinKarp64) (x c : ℕ) (p : List ℕ)
      → Holds d (x ∷ p)
      → c < 256
      → (e : IsEntered d.win x p c) → Holds (rolled d x c e.after) (p ++ (c ∷ []))
  unfolding rolled
  rolled-Holds d x c p h hc e = record {
    same_pol = h.same_pol;
    valid = e.valid;
    bytes = e.bytes;
    in_range = All-append (λ b. b < 256) p (c ∷ []) h.in_range.1 (hc, tt);
    short = omega (arith, length-snoc p c, h.short);
    shift = h.shift;
    cache = h.cache ∙ ap (build_tables reduce degree pol) (sym (length-snoc p c));
    value =
        ap₂ (λ (n : ℕ) (t : Tables). step n t d.value x c) h.shift h.cache
        ∙ ap
            (λ (v : ℕ).
              step (shift_of degree pol) (build_tables reduce degree pol (suc (length p))) v x c)
            h.value
        ∙ kernel-IsRolling_rabin reduce degree pol r large small x c p h.short h.in_range.0
            h.in_range.1 hc;
  }

  -- A Roll of a byte on a digest that holds a window that is not empty does not panic, and the
  -- digest then holds the window without its oldest byte and with the new one last, its checksum
  -- and its cached values those of that window.
  pub roll-Holds_rabin :
      (d : RabinKarp64) (x c : ℕ) (p : List ℕ)
      → Holds d (x ∷ p)
      → c < 256
      → (d' : RabinKarp64) × (roll d c ≡ some d') × Holds d' (p ++ (c ∷ []))
  roll-Holds_rabin d x c p h hc =
      let e = enter_lem d.win x p c h.valid h.bytes in
      (rolled d x c e.after, (unfold roll rolled in (rw e.returns)), rolled-Holds d x c p h hc e)

  abbrev pub hasher : Hasher
  hasher = record {
    State = RabinKarp64;
    fresh = new_from_pol reduce degree pol;
    reset = reset reduce degree;
    write = write reduce degree;
    roll = roll;
    sum = sum64;
  }

  abbrev pub hasher-IsHasher :
      IsHasher hasher (sum_of (kernel reduce degree pol (shift_of degree pol)))
  hasher-IsHasher = record {
    Holds = Holds;
    fresh_holds = new_from_pol-Holds;
    reset_holds = reset-Holds;
    write_holds = write-Holds_rabin;
    roll_holds = roll-Holds_rabin;
    sum_holds = sum64-Holds;
  }

  -- With Mod and Deg of a polynomial of degree 8 to 56 as documented, for a rabinkarp64 digest that
  -- holds some window, bytes as data, a window of 1 to 2^32 - 1 bytes that fits the data and a dst
  -- of exactly the number of windows, BatchRoll does not panic and leaves the checksum of every
  -- window in dst, in order, and a Reset, a Write of the first window and a Roll for each further
  -- byte give the same sums.
  pub batch_roll_rabin :
      (d : RabinKarp64) (held dst p : List ℕ) (w : ℕ)
      → Holds d held
      → IsBytes p
      → 0 < w
      → w < max_window
      → w ≤ length p
      → length dst + w ≡ length p + 1
      → (batch_roll reduce degree d dst p w
          ≡ some (window_sums (sum_of (kernel reduce degree pol (shift_of degree pol))) w p))
        × (write_then_roll hasher d p w ≡ batch_roll reduce degree d dst p w)
  unfolding batch_roll
  batch_roll_rabin d held dst p w h b pos short fits room =
      let batch : batch_roll reduce degree d dst p w
          ≡ some (window_sums (sum_of (kernel reduce degree pol (shift_of degree pol))) w p) =
        rw (h.same_pol, h.shift)
          (batch_roll-window_sums (kernel reduce degree pol (shift_of degree pol))
            (kernel-IsRolling_rabin reduce degree pol r large small) dst p w b pos short fits
            room) in
      (
        batch,
        write_then_roll-window_sums hasher (sum_of (kernel reduce degree pol (shift_of degree pol)))
              hasher-IsHasher d p held w h b pos short fits
            ∙ sym batch,
      )

  -- With Mod and Deg of a polynomial of degree 8 to 56 as documented, for a rabinkarp64 digest that
  -- holds some window, bytes as data, a window of 1 to 2^32 - 1 bytes that fits the data and
  -- buffers with room for every window and at most 2^31 windows, BatchBoundaries does not panic and
  -- the hits of lane A followed by those of lane B are exactly the positions whose checksum has no
  -- bit of the mask, in order.
  pub batch_boundaries_rabin :
      (d : RabinKarp64) (held buf_a buf_b p : List ℕ) (w mask : ℕ)
      → Holds d held
      → IsBytes p
      → 0 < w
      → w < max_window
      → w ≤ length p
      → length p + 1 ≤ length buf_a + w
      → length p + 1 ≤ length buf_b + w
      → length p + 1 ≤ 2 ^ 31 + w
      → (r : Hit) × (batch_boundaries reduce degree d buf_a buf_b p w mask ≡ some r)
        × (take r.na r.a ++ take r.nb r.b
            ≡ boundaries (sum_of (kernel reduce degree pol (shift_of degree pol))) mask w p)
  unfolding batch_boundaries
  batch_boundaries_rabin d held buf_a buf_b p w mask h b pos short fits room_a room_b few =
      rw (h.same_pol, h.shift)
        (batch_boundaries-boundaries (kernel reduce degree pol (shift_of degree pol))
          (kernel-IsRolling_rabin reduce degree pol r large small) mask buf_a buf_b p w b pos short
          fits room_a room_b few)
