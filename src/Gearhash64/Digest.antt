-- ===== src/Gearhash64/Digest.antt =====
-- gearhash64/gearhash64.go: the digest as a hasher, and its loops.
use rollinghash.Prelude.{
  ℕ, suc, ◌+◌, ◌≤◌, ◌<◌, ◌==◌, false, ◌≡◌, inl, refl, sym, ap, ap₂, ◌∙◌, arith, List, [], ◌∷◌, ◌++◌,
  append-nil, foldl, length, length-snoc, some, IsBytes, All-append,
}
use rollinghash.Window.{Circular}
use rollinghash.Window.Contents
use rollinghash.Window.Contents.{contents, append_lem, enter_lem, IsEntered}
use rollinghash.Kernel.{sum_of, window_sums, max_window}
use rollinghash.Hasher.{Hasher, IsHasher, write_then_roll}
use rollinghash.Hasher.Rolls.{write_then_roll-window_sums}
use rollinghash.TwoLane.Sums.{batch_roll-window_sums}
use rollinghash.Gearhash64.{
  GearHash64, new_from_table, reset, sum64, shift_table, absorb, step, write, roll, kernel,
  batch_roll,
}
use rollinghash.Gearhash64.Table.{kernel-IsRolling_gear}

module _ (g : ℕ → ℕ) where
  -- The digest has the table `g` and holds the bytes `p`; the cache of shifted entries is that of
  -- the window's length, once there is a window.
  pub record Holds (d : GearHash64) (p : List ℕ) : Type 0 where
    pub table : d.gear ≡ g
    pub valid : Contents.IsValid d.win
    pub bytes : contents d.win ≡ p
    pub in_range : IsBytes p
    pub short : length p < max_window
    pub cache : 0 < length p → d.shifted_gear ≡ shift_table g (length p)
    pub value : d.sum ≡ sum_of (kernel g) p

  pub new_from_table-Holds : Holds (new_from_table g) []
  unfolding new_from_table contents
  new_from_table-Holds = record {
    table = refl;
    valid = inl refl;
    bytes = refl;
    in_range = tt;
    short = omega arith;
    cache = λ h. absurd (omega arith);
    value = refl;
  }

  pub reset-Holds : (d : GearHash64) (p : List ℕ) → Holds d p → Holds (reset d) []
  unfolding reset contents
  reset-Holds d p h = record {
    table = h.table;
    valid = inl refl;
    bytes = refl;
    in_range = tt;
    short = omega arith;
    cache = λ h. absurd (omega arith);
    value = refl;
  }

  pub sum64-Holds : (d : GearHash64) (p : List ℕ) → Holds d p → sum64 d ≡ sum_of (kernel g) p
  unfolding sum64
  sum64-Holds d p h = h.value

  rewritten : (ℕ → ℕ) → List ℕ → GearHash64
  rewritten t p = record {
    sum = foldl (absorb t) 0 p;
    win = record { window = p; oldest = 0 };
    gear = t;
    shifted_gear = shift_table t (length p);
  }

  rewritten-Holds : (p : List ℕ) → IsBytes p → length p < max_window → Holds (rewritten g p) p
  unfolding rewritten contents
  rewritten-Holds p b l = record {
    table = refl;
    valid = inl refl;
    bytes = append-nil p;
    in_range = b;
    short = l;
    cache = λ _. refl;
    value = refl;
  }

  write_some :
      (d : GearHash64) (p q : List ℕ)
      → Holds d p
      → (length q == 0) ≡ false
      → write d q ≡ some (rewritten g (p ++ q), length q)
  unfolding write rewritten
  write_some d p q h e = rw (e, append_lem d.win q h.valid, h.bytes, h.table) refl

  -- A Write of bytes that leaves fewer than 2^32 of them in the window does not panic and returns
  -- their number, and the digest then holds the old window followed by the new bytes, its checksum
  -- and its cached values those of that window.
  pub write-Holds_gear :
      (d : GearHash64) (p q : List ℕ)
      → Holds d p
      → IsBytes q
      → length (p ++ q) < max_window
      → (d' : GearHash64) × (write d q ≡ some (d', length q)) × Holds d' (p ++ q)
  write-Holds_gear d p [] h b l = (d, (unfold write in refl), rw (append-nil p) h)
  write-Holds_gear d p (c ∷ q) h b l = (
    rewritten g (p ++ (c ∷ q)),
    write_some d p (c ∷ q) h (ground arith),
    rewritten-Holds (p ++ (c ∷ q)) (All-append (λ x. x < 256) p (c ∷ q) h.in_range b) l,
  )

  rolled : GearHash64 → ℕ → ℕ → Circular → GearHash64
  rolled d x c win = record d { sum = step d.sum (d.shifted_gear x) (d.gear c); win = win }

  rolled-Holds :
      (d : GearHash64) (x c : ℕ) (p : List ℕ)
      → Holds d (x ∷ p)
      → c < 256
      → (e : IsEntered d.win x p c) → Holds (rolled d x c e.after) (p ++ (c ∷ []))
  unfolding rolled
  rolled-Holds d x c p h hc e =
      let cached : d.shifted_gear ≡ shift_table g (suc (length p)) = h.cache (omega arith) in
      record {
        table = h.table;
        valid = e.valid;
        bytes = e.bytes;
        in_range = All-append (λ b. b < 256) p (c ∷ []) h.in_range.1 (hc, tt);
        short = omega (arith, length-snoc p c, h.short);
        cache = λ _. cached ∙ ap (shift_table g) (sym (length-snoc p c));
        value =
            ap₂ (λ (v : ℕ) (t : ℕ → ℕ). step v (t x) (d.gear c)) h.value cached
            ∙ ap
                (λ (t : ℕ → ℕ).
                  step (sum_of (kernel g) (x ∷ p)) (shift_table g (suc (length p)) x) (t c))
                h.table
            ∙ kernel-IsRolling_gear g x c p h.short h.in_range.0 h.in_range.1 hc;
      }

  -- A Roll of a byte on a digest that holds a window that is not empty does not panic, and the
  -- digest then holds the window without its oldest byte and with the new one last, its checksum
  -- and its cached values those of that window.
  pub roll-Holds_gear :
      (d : GearHash64) (x c : ℕ) (p : List ℕ)
      → Holds d (x ∷ p)
      → c < 256
      → (d' : GearHash64) × (roll d c ≡ some d') × Holds d' (p ++ (c ∷ []))
  roll-Holds_gear d x c p h hc =
      let e = enter_lem d.win x p c h.valid h.bytes in
      (rolled d x c e.after, (unfold roll rolled in (rw e.returns)), rolled-Holds d x c p h hc e)

  abbrev pub hasher : Hasher
  hasher = record {
    State = GearHash64;
    fresh = new_from_table g;
    reset = reset;
    write = write;
    roll = roll;
    sum = sum64;
  }

  abbrev pub hasher-IsHasher : IsHasher hasher (sum_of (kernel g))
  hasher-IsHasher = record {
    Holds = Holds;
    fresh_holds = new_from_table-Holds;
    reset_holds = reset-Holds;
    write_holds = write-Holds_gear;
    roll_holds = roll-Holds_gear;
    sum_holds = sum64-Holds;
  }

  -- For a gearhash digest with any table that holds some window, bytes as data, a window of 1 to
  -- 2^32 - 1 bytes that fits the data and a dst of exactly the number of windows, BatchRoll does
  -- not panic and leaves the checksum of every window in dst, in order, and a Reset, a Write of the
  -- first window and a Roll for each further byte give the same sums.
  pub batch_roll_gear :
      (d : GearHash64) (held dst p : List ℕ) (w : ℕ)
      → Holds d held
      → IsBytes p
      → 0 < w
      → w < max_window
      → w ≤ length p
      → length dst + w ≡ length p + 1
      → (batch_roll d dst p w ≡ some (window_sums (sum_of (kernel g)) w p))
        × (write_then_roll hasher d p w ≡ batch_roll d dst p w)
  unfolding batch_roll
  batch_roll_gear d held dst p w h b pos short fits room =
      let batch : batch_roll d dst p w ≡ some (window_sums (sum_of (kernel g)) w p) = rw h.table (
        batch_roll-window_sums (kernel g) (kernel-IsRolling_gear g) dst p w b pos short fits
          room) in
      (
        batch,
        write_then_roll-window_sums hasher (sum_of (kernel g)) hasher-IsHasher d p held w h b pos
              short fits
            ∙ sym batch,
      )
