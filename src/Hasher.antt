-- ===== src/Hasher.antt =====
-- The interface that the packages implement, `Hash` of rollinghash.go, with the contract that its
-- comments state: a hasher holds a window of bytes, and its sum is the checksum of that window.
pub mod Rolls
use rollinghash.Prelude.{
  ℕ, ◌+◌, ◌≤◌, ◌<◌, ◌≡◌, List, [], ◌∷◌, ◌++◌, Option, some, ◌>>=◌, length, take, drop, IsBytes,
}
use rollinghash.Kernel.{max_window}

-- `Write` returns its count; `none` is a panic.
pub record Hasher : Type 1 where
  pub State : Type 0
  -- what the constructor of the package returns
  pub fresh : State
  pub reset : State → State
  pub write : State → List ℕ → Option (State × ℕ)
  pub roll : State → ℕ → Option State
  pub sum : State → ℕ

pub record IsHasher (h : Hasher) (checksum : List ℕ → ℕ) : Type 1 where
  -- the state holds the window, oldest byte first
  pub Holds : h.State → List ℕ → Type 0
  pub fresh_holds : Holds h.fresh []
  pub reset_holds : (d : h.State) (p : List ℕ) → Holds d p → Holds (h.reset d) []
  pub write_holds :
      (d : h.State) (p q : List ℕ)
      → Holds d p
      → IsBytes q
      → length (p ++ q) < max_window
      → (d' : h.State) × (h.write d q ≡ some (d', length q)) × Holds d' (p ++ q)
  pub roll_holds :
      (d : h.State) (x c : ℕ) (p : List ℕ)
      → Holds d (x ∷ p)
      → c < 256
      → (d' : h.State) × (h.roll d c ≡ some d') × Holds d' (p ++ (c ∷ []))
  pub sum_holds : (d : h.State) (p : List ℕ) → Holds d p → h.sum d ≡ checksum p

module _ (h : Hasher) where
  -- A `Roll` for each byte, recording the sum after each.
  unfoldable pub roll_sums : h.State → List ℕ → Option (List ℕ)
  roll_sums d [] = some []
  roll_sums d (c ∷ q) = do d' ← h.roll d c; rest ← roll_sums d' q; some (h.sum d' ∷ rest)

  -- `Write(data[:window])` on a reset hasher, followed by a `Roll` for each further byte.
  unfoldable pub write_then_roll : h.State → List ℕ → ℕ → Option (List ℕ)
  unfolding roll_sums
  write_then_roll d p w = do
    (d', _) ← h.write (h.reset d) (take w p)
    rest ← roll_sums d' (drop w p)
    some (h.sum d' ∷ rest)
