-- ===== src/Window/Output.antt =====
-- `Write` of internal/window/window.go hands the window to an `io.Writer`, oldest byte first.
use rollinghash.Prelude.{
  ℕ, ◌+◌, ◌≤◌, ◌≡◌, refl, sym, ap, ◌∙◌, arith, List, [], ◌++◌, append-nil, append_assoc, Option,
  none, some, length, take, drop, length-append, take-append_left, take-append_add, take_all,
  drop_all, ltb, Bool-cases, inl, inr,
}
use rollinghash.Window.{Circular, write, write_older, write_newer}
use rollinghash.Window.Contents.{contents, IsValid, length-contents}

-- What the documentation of `io.Writer` promises: the count is at most the bytes given, an error
-- comes with every shorter count, and the bytes counted are those at the front.
pub record IsWriter {State Error : Type 0} (write_to : State → List ℕ → State × ℕ × Option Error)
    (written : State → List ℕ) : Type 0 where
  pub count_le : (s : State) (p : List ℕ) → (write_to s p).1 ≤ length p
  pub short_is_error :
      (s : State) (p : List ℕ) → (write_to s p).2 ≡ none → (write_to s p).1 ≡ length p
  pub appends :
      (s : State) (p : List ℕ) → written (write_to s p).0 ≡ written s ++ take (write_to s p).1 p

module _ {State Error : Type 0} (write_to : State → List ℕ → State × ℕ × Option Error)
    (written : State → List ℕ) (io : IsWriter write_to written) where
  -- A result that accounts for the bytes `p` written from state `s`.
  pub record Accounts (s : State) (p : List ℕ) (r : State × ℕ × Option Error) : Type 0 where
    pub count_le : r.1 ≤ length p
    pub complete : r.2 ≡ none → r.1 ≡ length p
    pub appends : written r.0 ≡ written s ++ take r.1 p

  one_call : (s : State) (p : List ℕ) → Accounts s p (write_to s p)
  one_call s p = record {
    count_le = io.count_le s p;
    complete = io.short_is_error s p;
    appends = io.appends s p;
  }

  no_call : (s : State) → Accounts s [] (s, 0, none)
  no_call s = record { count_le = omega arith; complete = λ _. refl; appends = sym (append-nil _) }

  Accounts-stopped :
      (s s' : State) (n : ℕ) (err : Error) (p q : List ℕ)
      → Accounts s p (s', n, some err)
      → Accounts s (p ++ q) (s', n, some err)
  Accounts-stopped s s' n err p q a = record {
    count_le = omega (arith, a.count_le, length-append p q);
    complete = λ e. absurd (cc e);
    appends = a.appends ∙ ap (λ t. written s ++ t) (sym (take-append_left n p q a.count_le));
  }

  Accounts-both :
      (s s' : State) (n : ℕ) (p q : List ℕ) (r : State × ℕ × Option Error)
      → Accounts s p (s', n, none)
      → Accounts s' q r
      → Accounts s (p ++ q) (r.0, n + r.1, r.2)
  Accounts-both s s' n p q r a b =
      let all : n ≡ length p = a.complete refl in
      let prior : written s' ≡ written s ++ p =
        a.appends ∙ ap (λ t. written s ++ t) (take_all p n (omega arith)) in
      record {
        count_le = omega (arith, b.count_le, length-append p q);
        complete = λ e. omega (arith, b.complete e, length-append p q);
        appends =
            b.appends
            ∙ ap (λ t. t ++ take r.1 q) prior
            ∙ append_assoc (written s) p (take r.1 q)
            ∙ ap (λ t. written s ++ t)
                (sym (ap (λ k. take (k + r.1) (p ++ q)) all ∙ take-append_add r.1 p q));
      }

  older-Accounts :
      (s : State) (d : Circular) → Accounts s (drop d.oldest d.window) (write_older write_to s d)
  unfolding write_older
  older-Accounts s d = elim (Bool-cases (ltb d.oldest (length d.window))) [
    | inl e ↦ rw e (one_call s (drop d.oldest d.window))
    | inr e ↦ rw (e, drop_all d.window d.oldest (ground arith)) (no_call s)
  ]

  newer-Accounts :
      (s : State) (d : Circular) (p : List ℕ) (r : State × ℕ × Option Error)
      → Accounts s p r
      → Accounts s (p ++ take d.oldest d.window) (write_newer write_to r d)
  unfolding write_newer
  newer-Accounts s d p (s', n, some err) a =
      Accounts-stopped s s' n err p (take d.oldest d.window) a
  newer-Accounts s d p (s', n, none) a = elim (Bool-cases (ltb 0 d.oldest)) [
    | inl e ↦
        rw e (
          Accounts-both s s' n p (take d.oldest d.window) _ a
            (one_call s' (take d.oldest d.window)))
    | inr e ↦ let none_newer : d.oldest ≡ 0 = ground arith in rw (e, none_newer, append-nil) a
  ]

  -- With a writer that keeps the contract of io.Writer and a valid circular window, Write puts the
  -- first n bytes of the contents, oldest first, behind what was written before, where n is the
  -- count it returns, n is at most the window's length and is that length when no error is
  -- returned.
  pub write-Accounts :
      (s : State) (d : Circular)
      → IsValid d
      → let (s', n, err) = write write_to s d in
        (written s' ≡ written s ++ take n (contents d))
        × (n ≤ length d.window)
        × (err ≡ none → n ≡ length d.window)
  unfolding write contents
  write-Accounts s d v =
      let a =
        newer-Accounts s d (drop d.oldest d.window) (write_older write_to s d)
          (older-Accounts s d) in
      (
        a.appends,
        omega (arith, a.count_le, length-contents d),
        λ e. a.complete e ∙ length-contents d,
      )
