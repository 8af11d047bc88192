-- ===== src/Window.antt =====
-- internal/window/window.go: the circular window that every digest keeps, its rearrangement and
-- its output, and the three things that the digests do with the fields `window` and `oldest`.
pub mod Reverse
pub mod Contents
pub mod Output
use rollinghash.Prelude.{
  ℕ, zero, suc, ◌+◌, ◌-◌, ◌/◌, ltb, leb, ◌==◌, if◌then◌else◌, List, ◌∷◌, ◌++◌, Option, none, some,
  ◌>>=◌, length, get_elem?, set?, take, drop,
}

-- `w[i], w[j] = w[j], w[i]`
unfoldable pub swap : List ℕ → ℕ → ℕ → Option (List ℕ)
swap w i j = do x ← get_elem? w i; y ← get_elem? w j; w' ← set? w i y; set? w' j x

-- The loop of `reverse` at index `i`, with the rounds that are left.
unfoldable pub reverse_from : ℕ → ℕ → List ℕ → Option (List ℕ)
reverse_from zero i w = some w
reverse_from (suc left) i w = do w' ← swap w i (length w - i - 1); reverse_from left (i + 1) w'

-- `reverse`, in place: `none` would be an index out of range.
unfoldable pub reverse : List ℕ → Option (List ℕ)
reverse w = reverse_from (length w / 2) 0 w

-- `MoveLeft`. Reversing a slice of the window leaves the rest of it alone.
unfoldable pub move_left : List ℕ → ℕ → Option (List ℕ)
move_left w oldest =
    if ltb (length w) oldest
    then none
    else do front ← reverse (take oldest w); back ← reverse (drop oldest w); reverse (front ++ back)

-- The fields `window` and `oldest` of a digest.
pub record Circular : Type 0 where
  pub window : List ℕ
  pub oldest : ℕ

-- What `Write` of each digest does to the window before it hashes it again.
unfoldable pub append : Circular → List ℕ → Option Circular
append d p = do
  w ← (if d.oldest == 0 then some d.window else move_left d.window d.oldest)
  some (record { window = w ++ p; oldest = 0 })

-- What `Roll` of each digest does to the window: the byte that leaves, and the new window.
unfoldable pub enter : Circular → ℕ → Option (ℕ × Circular)
enter d c = do
  leave ← get_elem? d.window d.oldest
  w ← set? d.window d.oldest c
  let oldest = d.oldest + 1
  some (leave, record { window = w; oldest = if leb (length w) oldest then 0 else oldest })

-- `Write` to an `io.Writer`, which returns its new state, the count written and an error if any.
module _ {State Error : Type 0} (write_to : State → List ℕ → State × ℕ × Option Error) where
  unfoldable pub write_older : State → Circular → State × ℕ × Option Error
  write_older s d =
      if ltb d.oldest (length d.window) then write_to s (drop d.oldest d.window) else (s, 0, none)

  unfoldable pub write_newer : State × ℕ × Option Error → Circular → State × ℕ × Option Error
  write_newer (s, n, some err) d = (s, n, some err)
  write_newer (s, n, none) d =
      if ltb 0 d.oldest
      then (let (s', n', err) = write_to s (take d.oldest d.window) in (s', n + n', err))
      else (s, n, none)

  unfoldable pub write : State → Circular → State × ℕ × Option Error
  unfolding write_older write_newer
  write s d = write_newer (write_older s d) d
