-- ===== src/Adler32/Digest.antt =====
-- adler32/adler32.go: the digest as a hasher, and its loops.
use rollinghash.Prelude.{
  ℕ, ◌+◌, ◌*◌, ◌/◌, ◌%◌, ◌^◌, ◌≤◌, ◌<◌, ◌==◌, false, ◌≡◌, inl, refl, sym, ap, ap₂, ◌∙◌, arith, List,
  [], ◌∷◌, ◌++◌, append-nil, length, take, some, IsBytes, All-append, length-snoc, bit_and, bit_or,
}
use rollinghash.Prelude.Bits.{or_fields, and_mask}
use rollinghash.Window.{Circular}
use rollinghash.Window.Contents
use rollinghash.Window.Contents.{contents, append_lem, enter_lem, IsEntered}
use rollinghash.Kernel.{sum_of, lane, window_sums, boundaries, max_window}
use rollinghash.Hasher.{Hasher, IsHasher, write_then_roll}
use rollinghash.Hasher.Rolls.{write_then_roll-window_sums}
use rollinghash.TwoLane.{Hit}
use rollinghash.TwoLane.Sums.{batch_roll-window_sums}
use rollinghash.TwoLane.Hits.{batch_boundaries-boundaries}
use rollinghash.Adler32.{
  Adler32, Accumulators, reset, new, combine, sum32, roll, step, write, kernel, mod_adler,
  batch_roll, batch_boundaries,
}
use rollinghash.Adler32.Sums.{sum_a, sum_b, lane-eq-sums, kernel-IsRolling_adler}

-- The documentation of hash/adler32: `s1` is 1 and the sum of all bytes, `s2` the sum of all `s1`
-- values, both modulo 65521, and the checksum is `s2*65536 + s1`.
abbrev pub adler : List ℕ → ℕ
adler p = sum_b 1 0 p % 65521 * 65536 + sum_a 1 p % 65521

abbrev pub IsVanilla : (List ℕ → ℕ) → Type 0
IsVanilla vanilla = (p : List ℕ) → IsBytes p → vanilla p ≡ adler p

-- `b<<16 | a` of the two sums is the checksum.
pub combine-lem : (b a : ℕ) → b < 65521 → a < 65521 → combine b a ≡ b * 65536 + a
unfolding combine
combine-lem b a hb ha =
    let fits : b * 2 ^ 16 % 2 ^ 32 ≡ b * 2 ^ 16 = omega arith in
    ap (λ t. bit_or t a) fits ∙ or_fields 16 b a (omega arith)

-- For bytes, the warm-up loop of BatchRoll computes the checksum that hash/adler32 documents:
-- s2*65536 + s1, with both sums modulo 65521.
pub sum_of-adler : (p : List ℕ) → IsBytes p → sum_of kernel p ≡ adler p
sum_of-adler p h =
    ap (λ (v : Accumulators). combine v.b v.a) (lane-eq-sums p h)
    ∙ combine-lem (sum_b 1 0 p % 65521) (sum_a 1 p % 65521) (omega arith) (omega arith)

-- The digest holds the bytes `p`.
pub record Holds (d : Adler32) (p : List ℕ) : Type 0 where
  pub valid : Contents.IsValid d.win
  pub bytes : contents d.win ≡ p
  pub in_range : IsBytes p
  pub short : length p < max_window
  pub size : d.n ≡ length p % 2 ^ 32 % mod_adler
  pub sums : ◌≡◌ {A = Accumulators} (record { a = d.a; b = d.b }) (lane kernel p)

pub new-Holds : Holds new []
unfolding new contents
new-Holds = record {
  valid = inl refl;
  bytes = refl;
  in_range = tt;
  short = omega arith;
  size = refl;
  sums = refl;
}

pub reset-Holds : (d : Adler32) (p : List ℕ) → Holds d p → Holds (reset d) []
unfolding reset contents
reset-Holds d p h = record {
  valid = inl refl;
  bytes = refl;
  in_range = tt;
  short = omega arith;
  size = refl;
  sums = refl;
}

-- Where the digest holds a window, its sum is the checksum of the window.
pub sum32-Holds : (d : Adler32) (p : List ℕ) → Holds d p → sum32 d ≡ sum_of kernel p
unfolding sum32
sum32-Holds d p h = ap (λ (v : Accumulators). combine v.b v.a) h.sums

module _ (vanilla : List ℕ → ℕ) (is_vanilla : IsVanilla vanilla) where
  rewritten : List ℕ → Adler32
  rewritten p = record {
    a = bit_and (vanilla p) 0xffff;
    b = vanilla p / 2 ^ 16;
    n = length p % 2 ^ 32 % mod_adler;
    win = record { window = p; oldest = 0 };
  }

  rewritten-Holds : (p : List ℕ) → IsBytes p → length p < max_window → Holds (rewritten p) p
  unfolding rewritten contents
  rewritten-Holds p b l = record {
    valid = inl refl;
    bytes = append-nil p;
    in_range = b;
    short = l;
    size = refl;
    sums = ap₂ pair low high ∙ sym (lane-eq-sums p b);
  }
    where
      pair : ℕ → ℕ → Accumulators
      pair x y = record { a = x; b = y }

      low : bit_and (vanilla p) 0xffff ≡ sum_a 1 p % 65521
      low = and_mask 16 (vanilla p) ∙ omega (arith, is_vanilla p b)

      high : vanilla p / 2 ^ 16 ≡ sum_b 1 0 p % 65521
      high = omega (arith, is_vanilla p b)

  write_some :
      (d : Adler32) (p q : List ℕ)
      → Holds d p
      → (length q == 0) ≡ false
      → write vanilla d q ≡ some (rewritten (p ++ q), length q)
  unfolding write rewritten
  write_some d p q h e = rw (e, append_lem d.win q h.valid, h.bytes) refl

  -- With hash/adler32 as documented, a Write of bytes that leaves fewer than 2^32 of them in the
  -- window does not panic and returns their number, and the digest then holds the old window
  -- followed by the new bytes, its checksum and its cached values those of that window.
  pub write-Holds_adler :
      (d : Adler32) (p q : List ℕ)
      → Holds d p
      → IsBytes q
      → length (p ++ q) < max_window
      → (d' : Adler32) × (write vanilla d q ≡ some (d', length q)) × Holds d' (p ++ q)
  write-Holds_adler d p [] h b l = (d, (unfold write in refl), rw (append-nil p) h)
  write-Holds_adler d p (c ∷ q) h b l = (
    rewritten (p ++ (c ∷ q)),
    write_some d p (c ∷ q) h (ground arith),
    rewritten-Holds (p ++ (c ∷ q)) (All-append (λ x. x < 256) p (c ∷ q) h.in_range b) l,
  )

rolled : Adler32 → ℕ → ℕ → Circular → Adler32
rolled d x c win =
    let v = step d.n (record { a = d.a; b = d.b }) x c in
    record { a = v.a; b = v.b; n = d.n; win = win }

rolled-Holds :
    (d : Adler32) (x c : ℕ) (p : List ℕ)
    → Holds d (x ∷ p)
    → c < 256
    → (e : IsEntered d.win x p c) → Holds (rolled d x c e.after) (p ++ (c ∷ []))
unfolding rolled
rolled-Holds d x c p h hc e = record {
  valid = e.valid;
  bytes = e.bytes;
  in_range = All-append (λ b. b < 256) p (c ∷ []) h.in_range.1 (hc, tt);
  short = omega (arith, length-snoc p c, h.short);
  size = h.size ∙ ap (λ n. n % 2 ^ 32 % mod_adler) (sym (length-snoc p c));
  sums =
      ap₂ (λ n (v : Accumulators). step n v x c) h.size h.sums
      ∙ kernel-IsRolling_adler x c p h.short h.in_range.0 h.in_range.1 hc;
}

-- A Roll of a byte on a digest that holds a window that is not empty does not panic, and the
-- digest then holds the window without its oldest byte and with the new one last, its checksum and
-- its cached values those of that window.
pub roll-Holds_adler :
    (d : Adler32) (x c : ℕ) (p : List ℕ)
    → Holds d (x ∷ p)
    → c < 256
    → (d' : Adler32) × (roll d c ≡ some d') × Holds d' (p ++ (c ∷ []))
roll-Holds_adler d x c p h hc =
    let e = enter_lem d.win x p c h.valid h.bytes in
    (rolled d x c e.after, (unfold roll rolled step in (rw e.returns)), rolled-Holds d x c p h hc e)

-- With hash/adler32 as documented, the Sum32 of a digest that holds a window of bytes, after any
-- writes and rolls that led to it, is what hash/adler32 returns for those bytes.
pub sum32-vanilla :
    (vanilla : List ℕ → ℕ)
    → IsVanilla vanilla
    → (d : Adler32) (p : List ℕ) → Holds d p
    → sum32 d ≡ vanilla p
sum32-vanilla vanilla v d p h = sum32-Holds d p h ∙ sum_of-adler p h.in_range ∙ sym (v p h.in_range)

module _ (vanilla : List ℕ → ℕ) (is_vanilla : IsVanilla vanilla) where
  abbrev pub hasher : Hasher
  hasher = record {
    State = Adler32;
    fresh = new;
    reset = reset;
    write = write vanilla;
    roll = roll;
    sum = sum32;
  }

  abbrev pub hasher-IsHasher : IsHasher hasher (sum_of kernel)
  hasher-IsHasher = record {
    Holds = Holds;
    fresh_holds = new-Holds;
    reset_holds = reset-Holds;
    write_holds = write-Holds_adler vanilla is_vanilla;
    roll_holds = roll-Holds_adler;
    sum_holds = sum32-Holds;
  }

  -- With hash/adler32 as documented, for a digest that holds some window, bytes as data, a window
  -- of 1 to 2^32 - 1 bytes that fits the data and a dst of exactly the number of windows, BatchRoll
  -- does not panic and leaves the checksum of every window in dst, in order, and a Reset, a Write
  -- of the first window and a Roll for each further byte give the same sums.
  pub batch_roll_adler :
      (d : Adler32) (held dst p : List ℕ) (w : ℕ)
      → Holds d held
      → IsBytes p
      → 0 < w
      → w < max_window
      → w ≤ length p
      → length dst + w ≡ length p + 1
      → (batch_roll dst p w ≡ some (window_sums (sum_of kernel) w p))
        × (write_then_roll hasher d p w ≡ batch_roll dst p w)
  unfolding batch_roll
  batch_roll_adler d held dst p w h b pos short fits room =
      let batch : batch_roll dst p w ≡ some (window_sums (sum_of kernel) w p) =
        batch_roll-window_sums kernel kernel-IsRolling_adler dst p w b pos short fits room in
      (
        batch,
        write_then_roll-window_sums hasher (sum_of kernel) hasher-IsHasher d p held w h b pos short
              fits
            ∙ sym batch,
      )

-- For bytes as data, a window of 1 to 2^32 - 1 bytes that fits the data, buffers with room for
-- every window and at most 2^31 windows, BatchBoundaries does not panic and the hits of lane A
-- followed by those of lane B are exactly the positions whose Adler-32 checksum has no bit of the
-- mask, in order.
pub batch_boundaries_adler :
    (buf_a buf_b p : List ℕ) (w mask : ℕ)
    → IsBytes p
    → 0 < w
    → w < max_window
    → w ≤ length p
    → length p + 1 ≤ length buf_a + w
    → length p + 1 ≤ length buf_b + w
    → length p + 1 ≤ 2 ^ 31 + w
    → (r : Hit) × (batch_boundaries buf_a buf_b p w mask ≡ some r)
      × (take r.na r.a ++ take r.nb r.b ≡ boundaries (sum_of kernel) mask w p)
unfolding batch_boundaries
batch_boundaries_adler buf_a buf_b p w mask b pos short fits room_a room_b small =
    batch_boundaries-boundaries kernel kernel-IsRolling_adler mask buf_a buf_b p w b pos short fits
      room_a room_b small
