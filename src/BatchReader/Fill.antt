-- ===== src/BatchReader/Fill.antt =====
-- batchroller.go: `fillCore`, and the contract of the reader.
use rollinghash.Prelude.{
  ℕ, zero, suc, ◌-◌, ◌≤◌, ◌<◌, ◌⊎◌, inl, inr, ◌≡◌, ◌≢◌, refl, sym, ap, ◌∙◌, arith, List, [], ◌++◌,
  append-nil, append_assoc, some, length, length-append,
}
use rollinghash.BatchReader.{Status, read_ok, at_eof, failed, read_block}

-- What the documentation of `io.Reader` promises of a reader that does not fail, whose stream still
-- has the bytes `remaining`: it puts the next of them in the slice, as many as fit at most; `io.EOF`
-- means that none is left; and it does not return no byte and no error, which is discouraged.
pub record IsReader {Source Error : Type 0} (read : Source → ℕ → Source × List ℕ × Status Error)
    (remaining : Source → List ℕ) : Type 0 where
  pub fits : (s : Source) (n : ℕ) → length (read s n).1 ≤ n
  pub gives : (s : Source) (n : ℕ) → remaining s ≡ (read s n).1 ++ remaining (read s n).0
  pub at_end : (s : Source) (n : ℕ) → (read s n).2 ≡ at_eof → remaining (read s n).0 ≡ []
  pub progress : (s : Source) (n : ℕ) → 0 < n → (read s n).2 ≡ read_ok → 0 < length (read s n).1
  pub never_fails : (s : Source) (n : ℕ) (err : Error) → (read s n).2 ≢ failed err

Status-cases :
    {Error : Type 0} (status : Status Error)
    → (status ≡ read_ok) ⊎ ((status ≡ at_eof) ⊎ ((err : Error) × (status ≡ failed err)))
Status-cases read_ok = inl refl
Status-cases at_eof = inr (inl refl)
Status-cases (failed err) = inr (inr (err, refl))

module _ {Source Error : Type 0} (read : Source → ℕ → Source × List ℕ × Status Error)
    (remaining : Source → List ℕ) (io : IsReader read remaining) where
  -- A block of `room` bytes, or the rest of the stream.
  pub record Blocks (fuel room : ℕ) (s : Source) (got : List ℕ) : Type 0 where
    pub source : Source
    pub bytes : List ℕ
    pub status : Status Error
    pub returns : read_block read fuel room s got ≡ some (source, got ++ bytes, status)
    pub gives : remaining s ≡ bytes ++ remaining source
    pub reason :
        ((status ≡ read_ok) × (length bytes ≡ room)) ⊎ ((status ≡ at_eof) × (remaining source ≡ []))

  -- The first call of `Read`, and the block that the loop reads after it.
  read_more :
      (fuel room : ℕ) (s : Source) (got : List ℕ)
      → (read s (suc room)).2 ≡ read_ok
      → Blocks fuel
          (suc room - length (read s (suc room)).1)
          (read s (suc room)).0
          (got ++ (read s (suc room)).1)
      → Blocks (suc fuel) (suc room) s got
  unfolding read_block
  read_more fuel room s got e b =
      let p : List ℕ = (read s (suc room)).1 in
      record {
        source = b.source;
        bytes = p ++ b.bytes;
        status = b.status;
        returns =
            rw (read_block, e)
              (b.returns ∙ ap (λ t. some (b.source, t, b.status)) (append_assoc got p b.bytes));
        gives =
            io.gives s (suc room)
            ∙ ap (λ t. p ++ t) b.gives
            ∙ sym (append_assoc p b.bytes (remaining b.source));
        reason = elim b.reason [
          | inl full ↦
              inl (full.0, omega (arith, full.1, length-append p b.bytes, io.fits s (suc room)))
          | inr ended ↦ inr ended
        ];
      }

  -- With more rounds of fuel than room, the loop ends.
  pub read_block_lem :
      (fuel room : ℕ) (s : Source) (got : List ℕ) → room < fuel → Blocks fuel room s got
  unfolding read_block
  read_block_lem zero room s got h = absurd (omega arith)
  read_block_lem (suc fuel) zero s got h = record {
    source = s;
    bytes = [];
    status = read_ok;
    returns = ap (λ t. some (s, t, read_ok)) (sym (append-nil got));
    gives = refl;
    reason = inl (refl, refl);
  }
  read_block_lem (suc fuel) (suc room) s got h = elim (Status-cases (read s (suc room)).2) [
    | inl e ↦
        read_more fuel room s got e
          (read_block_lem fuel _ _ _ (omega (arith, io.progress s (suc room) (omega arith) e)))
    | inr (inl e) ↦ record {
      source = (read s (suc room)).0;
      bytes = (read s (suc room)).1;
      status = at_eof;
      returns = rw (read_block, e) refl;
      gives = io.gives s (suc room);
      reason = inr (refl, io.at_end s (suc room) e);
    }
    | inr (inr (err, e)) ↦ absurd (io.never_fails s (suc room) err e)
  ]
