-- ===== src/Tests/Windows.antt =====
-- internal/window/window.go on a window of five bytes whose oldest is at index 2.
use rollinghash.Prelude.{
  ℕ, ◌≤◌, inr, ap, ◌≡◌, refl, sym, arith, List, [], ◌∷◌, ◌++◌, Option, some, none, length, take,
  drop, take_all,
}
use rollinghash.Window.{Circular, swap, reverse_from, reverse, move_left, enter, write}
use rollinghash.Window.Contents.{contents}
use rollinghash.Window.Reverse.{move_left_lem}
use rollinghash.Window.Output.{IsWriter, write-Accounts}

abbrev ring : Circular
ring = record { window = 14 ∷ 15 ∷ 11 ∷ 12 ∷ 13 ∷ []; oldest = 2 }

move_left_run : move_left (14 ∷ 15 ∷ 11 ∷ 12 ∷ 13 ∷ []) 2 ≡ some (11 ∷ 12 ∷ 13 ∷ 14 ∷ 15 ∷ [])
unfolding move_left reverse reverse_from swap
move_left_run = refl

move_left_example :
    move_left (14 ∷ 15 ∷ 11 ∷ 12 ∷ 13 ∷ []) 2
    ≡ some (drop 2 (14 ∷ 15 ∷ 11 ∷ 12 ∷ 13 ∷ []) ++ take 2 (14 ∷ 15 ∷ 11 ∷ 12 ∷ 13 ∷ []))
move_left_example = move_left_lem (14 ∷ 15 ∷ 11 ∷ 12 ∷ 13 ∷ []) 2 (omega arith)

enter_run : enter ring 16 ≡ some (11, record { window = 14 ∷ 15 ∷ 16 ∷ 12 ∷ 13 ∷ []; oldest = 3 })
unfolding enter
enter_run = refl

-- A writer that keeps everything.
abbrev keep : List ℕ → List ℕ → List ℕ × ℕ × Option ℕ
keep s p = (s ++ p, length p, none)

keep-IsWriter : IsWriter keep (λ s. s)
keep-IsWriter = record {
  count_le = λ s p. omega arith;
  short_is_error = λ s p e. refl;
  appends = λ s p. ap (λ t. s ++ t) (sym (take_all p (length p) (omega arith)));
}

write_run : write keep [] ring ≡ (11 ∷ 12 ∷ 13 ∷ 14 ∷ 15 ∷ [], 5, none)
unfolding write
write_run = refl

write_example :
    let (s', n, err) = write keep [] ring in
    (s' ≡ [] ++ take n (contents ring)) × (n ≤ 5) × (err ≡ none → n ≡ 5)
write_example = write-Accounts keep (λ s. s) keep-IsWriter [] ring (inr (omega arith))
