-- ===== src/ChunkReader/Calls.antt =====
-- chunker.go: one round of `Next` and of `fillCore`, for each result of the calls in it.
use rollinghash.Prelude.{
  ℕ, suc, ◌≡◌, refl, ap, ◌∙◌, Bool, true, false, if◌then◌else◌, List, [], Option, none, some, ◌>>=◌,
}
use rollinghash.Hasher.{Hasher}
use rollinghash.TwoLane.{Hit}
use rollinghash.BatchRoller.{need_more, emitted, core_done}
use rollinghash.BatchReader.{Status, read_block}
use rollinghash.Chunker.{Core, compact, next}
use rollinghash.ChunkReader.{Reader, filled, fill_core, next_read}

module _ {H : Hasher} {Source Error : Type 0}
    (read : Source → ℕ → Source × List ℕ × Status Error) where
  pub fill_core-block :
      (fuel : ℕ) (r : Reader H Source Error) (c : Core H Error) (b : Source × List ℕ × Status Error)
      → r.core.eof ≡ false
      → compact r.core ≡ some c
      → read_block read fuel r.read_size r.source [] ≡ some b
      → fill_core read fuel r ≡ some (filled (record r { core = c }) b)
  unfolding fill_core
  fill_core-block fuel r c b opened kept got =
      ap
        (λ e.
          if e
          then some (false, r)
          else (compact r.core >>= λ c. read_block read fuel r.read_size r.source [] >>= λ b.
              some (filled (record r { core = c }) b)))
        opened
      ∙ ap
          (λ o. o >>= λ c. read_block read fuel r.read_size r.source [] >>= λ b.
            some (filled (record r { core = c }) b))
          kept
      ∙ ap (λ o. o >>= λ b. some (filled (record r { core = c }) b)) got

module _ {H : Hasher} {Source Error : Type 0} (read : Source → ℕ → Source × List ℕ × Status Error)
    (hits : H.State → List ℕ → List ℕ → List ℕ → ℕ → ℕ → Option Hit) where
  -- `Next` on the core of a reader that waits for bytes goes on with the refilled reader.
  pub next_read-refilled :
      (rounds fuel : ℕ) (r : Reader H Source Error) (c : Core H Error) (b : Bool)
      → (d : Reader H Source Error) → next hits r.core ≡ some (need_more, c)
      → fill_core read fuel (record r { core = c }) ≡ some (b, d)
      → d.core.err ≡ none
      → next_read read hits (suc rounds) fuel r ≡ next_read read hits rounds fuel d
  unfolding next_read
  next_read-refilled rounds fuel r c true d e k ok = rw (next_read, e, k) refl
  next_read-refilled rounds fuel r c false d e k ok =
      rw (next_read, e, k)
        (ap (λ o. elim o [ some err ↦ some (false, d) | none ↦ next_read read hits rounds fuel d ])
          ok)

  pub next_read-emitted :
      (rounds fuel : ℕ) (r : Reader H Source Error) (c : Core H Error)
      → next hits r.core ≡ some (emitted, c)
      → next_read read hits (suc rounds) fuel r ≡ some (true, record r { core = c })
  unfolding next_read
  next_read-emitted rounds fuel r c e = rw (next_read, e) refl

  pub next_read-done :
      (rounds fuel : ℕ) (r : Reader H Source Error) (c : Core H Error)
      → next hits r.core ≡ some (core_done, c)
      → next_read read hits (suc rounds) fuel r ≡ some (false, record r { core = c })
  unfolding next_read
  next_read-done rounds fuel r c e = rw (next_read, e) refl
