-- ===== src/Rabin/Cache.antt =====
-- rabinkarp64/rabinkarp64.go: the cache of tables, which a mutex guards. A caller cannot tell it from
-- building the tables, so the digests build them.
use rollinghash.Prelude.{
  ℕ, ◌≡◌, refl, sym, ap, ◌∙◌, arith, ◌==◌, ◌&&◌, Bool, Bool-cases, true, false, inl, inr, List, [],
  ◌∷◌, Option, none, some, All,
}
use rollinghash.Rabin.{Tables, build_tables}

-- An entry of the map, at its `index`.
pub record Entry : Type 0 where
  pub pol : ℕ
  pub window_size : ℕ
  pub tables : Tables

abbrev pub is_at : ℕ → ℕ → Entry → Bool
is_at pol n e = (e.pol == pol) && (e.window_size == n)

-- `cache.entries[idx]`
abbrev pub lookup : ℕ → ℕ → List Entry → Option Tables
lookup pol n [] = none
lookup pol n (e ∷ cache) = elim (is_at pol n e) [
  | true ↦ some e.tables
  | false ↦ lookup pol n cache
]

module _ (reduce : ℕ → ℕ → ℕ) (degree : ℕ → ℕ) where
  -- `tablesFor`: the tables and the cache after it. A new entry is put in front of the others.
  unfoldable pub tables_for : List Entry → ℕ → ℕ → Tables × List Entry
  tables_for cache pol n = elim (lookup pol n cache) [
    | some t ↦ (t, cache)
    | none ↦ (
      build_tables reduce degree pol n,
      record { pol = pol; window_size = n; tables = build_tables reduce degree pol n } ∷ cache,
    )
  ]

  -- Every entry has the tables of its index.
  abbrev pub IsCache : List Entry → Type 0
  IsCache = All (λ e. e.tables ≡ build_tables reduce degree e.pol e.window_size)

  lookup_hit :
      (cache : List Entry) (pol n : ℕ) (t : Tables)
      → IsCache cache
      → lookup pol n cache ≡ some t
      → t ≡ build_tables reduce degree pol n
  lookup_hit [] pol n t h e = absurd (cc e)
  lookup_hit (x ∷ cache) pol n t h e = elim (Bool-cases (x.pol == pol)) [
    | inr p ↦ lookup_hit cache pol n t h.1 (sym (miss (rw p refl)) ∙ e)
    | inl p ↦ elim (Bool-cases (x.window_size == n)) [
      | inr q ↦ lookup_hit cache pol n t h.1 (sym (miss (rw (p, q) refl)) ∙ e)
      | inl q ↦
          let same_pol : x.pol ≡ pol = ground arith in
          let same_size : x.window_size ≡ n = ground arith in
          let found : x.tables ≡ t = cc (sym (hit (rw (p, q) refl)) ∙ e) in
          sym found
          ∙ h.0
          ∙ ap (λ a. build_tables reduce degree a x.window_size) same_pol
          ∙ ap (build_tables reduce degree pol) same_size
    ]
  ]
    where
      miss : is_at pol n x ≡ false → lookup pol n (x ∷ cache) ≡ lookup pol n cache
      miss b = ap (λ b. elim b [ true ↦ some x.tables | false ↦ lookup pol n cache ]) b

      hit : is_at pol n x ≡ true → lookup pol n (x ∷ cache) ≡ some x.tables
      hit b = ap (λ b. elim b [ true ↦ some x.tables | false ↦ lookup pol n cache ]) b

  found_or_built :
      (cache : List Entry) (pol n : ℕ) (o : Option Tables)
      → lookup pol n cache ≡ o
      → IsCache cache
      → ((tables_for cache pol n).0 ≡ build_tables reduce degree pol n)
        × IsCache (tables_for cache pol n).1
  unfolding tables_for
  found_or_built cache pol n (some t) e h = rw (tables_for, e) (lookup_hit cache pol n t h e, h)
  found_or_built cache pol n none e h = rw (tables_for, e) (refl, (refl, h))

  -- With a cache whose entries have the tables of their index, tablesFor returns the tables that
  -- buildTables computes, and leaves such a cache.
  pub tables_for-build_tables :
      (cache : List Entry) (pol n : ℕ)
      → IsCache cache
      → ((tables_for cache pol n).0 ≡ build_tables reduce degree pol n)
        × IsCache (tables_for cache pol n).1
  tables_for-build_tables cache pol n h = found_or_built cache pol n (lookup pol n cache) refl h
