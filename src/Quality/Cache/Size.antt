-- ===== src/Quality/Cache/Size.antt =====
-- The number of entries of the caches of ai.rs, and what they keep.
use kanai.Base.{
  ℕ, suc, ◌+◌, ◌≤◌, Option, none, some, List, [], ◌∷◌, ◌++◌, leb, ◌==◌, length, length-append, All,
  All-append, ◌≡◌, refl, arith, subst, if-cases, Bool-cases, Option-cases, inl, inr,
}
use kanai.Quality.Window.{CacheKey}
use kanai.Quality.Cache.{
  key_eq, take_entry, lookup_cache, left_over, without, pop_excess, insert_cache,
}

module _ {ℓ} {V : Type ℓ} where
  length-take_entry :
      (key : CacheKey) (cache : List (CacheKey × V)) (found : (CacheKey × V) × List (CacheKey × V))
      → take_entry key cache ≡ some found
      → length cache ≡ suc (length found.1)
  unfolding take_entry
  length-take_entry key [] found e = absurd (ground (arith, e))
  length-take_entry key (entry ∷ rest) found e = elim (Bool-cases (key_eq entry.0 key)) [
    | inl h ↦ ground (arith, e, h)
    | inr h ↦ elim (Option-cases (take_entry key rest)) [
      | inl f ↦ absurd (ground (arith, e, h, f))
      | inr (inner, f) ↦ ground (arith, e, h, f, length-take_entry key rest inner f)
    ]
  ]

  pub length-lookup_cache :
      (cache : List (CacheKey × V)) (key : CacheKey)
      → length (lookup_cache cache key).0 ≡ length cache
  unfolding lookup_cache
  length-lookup_cache cache key = elim (Option-cases (take_entry key cache)) [
    | inl f ↦ rw (f, lookup_cache) refl
    | inr (found, f) ↦
        rw (f, lookup_cache)
          (omega (arith, length-append found.1 (found.0 ∷ []), length-take_entry key cache found f))
  ]

  length-pop_excess :
      (max_entries : ℕ) (cache : List (CacheKey × V))
      → 1 ≤ max_entries
      → length (pop_excess max_entries cache) + 1 ≤ max_entries
  unfolding pop_excess
  length-pop_excess max_entries [] h = omega (arith, h)
  length-pop_excess max_entries (entry ∷ rest) h =
      ground (arith, length-pop_excess max_entries rest h)

  pub length-insert_cache :
      (cache : List (CacheKey × V)) (max_entries : ℕ) (key : CacheKey) (value : V)
      → length cache ≤ max_entries
      → length (insert_cache cache max_entries key value) ≤ max_entries
  unfolding insert_cache
  length-insert_cache cache max_entries key value h =
      if-cases (λ c. length c ≤ max_entries) (max_entries == 0) cache
        (pop_excess max_entries (without key cache) ++ ((key, value) ∷ [])) (λ e. h)
        (λ e.
          let popped = pop_excess max_entries (without key cache) in
          omega (
            arith,
            length-append popped ((key, value) ∷ []),
            length-pop_excess max_entries (without key cache) (ground (arith, e)),
          ))

-- What holds of every entry of a cache is kept.
module _ {ℓ κ} {V : Type ℓ} (P : CacheKey × V → Type κ) where
  All-take_entry :
      (key : CacheKey) (cache : List (CacheKey × V)) (found : (CacheKey × V) × List (CacheKey × V))
      → take_entry key cache ≡ some found
      → All P cache
      → P found.0 × All P found.1
  unfolding take_entry
  All-take_entry key [] found e h = absurd (ground (arith, e))
  All-take_entry key (entry ∷ rest) found e h = elim (Bool-cases (key_eq entry.0 key)) [
    | inl k ↦
        let same : (entry, rest) ≡ found = ground (arith, e, k) in
        subst (λ f. P f.0 × All P f.1) same h
    | inr k ↦ elim (Option-cases (take_entry key rest)) [
      | inl f ↦ absurd (ground (arith, e, k, f))
      | inr (inner, f) ↦
          let same : (inner.0, entry ∷ inner.1) ≡ found = ground (arith, e, k, f) in
          let (here, there) = All-take_entry key rest inner f h.1 in
          subst (λ f. P f.0 × All P f.1) same (here, (h.0, there))
    ]
  ]

  -- What is found came from an entry.
  abbrev Found : Option V → Type (ℓ ⊔ κ)
  Found found = (v : V) → found ≡ some v → (key : CacheKey) × P (key, v)

  pub All-lookup_cache :
      (cache : List (CacheKey × V)) (key : CacheKey)
      → All P cache
      → All P (lookup_cache cache key).0 × Found (lookup_cache cache key).1
  unfolding lookup_cache
  All-lookup_cache cache key h = elim (Option-cases (take_entry key cache)) [
    | inl f ↦ rw (f, lookup_cache) (h, λ v e. absurd (ground (arith, e)))
    | inr (found, f) ↦
        let (here, there) = All-take_entry key cache found f h in
        rw (f, lookup_cache)
          (
            All-append P found.1 (found.0 ∷ []) there (here, tt),
            λ v e.
                let same : found.0.1 ≡ v = ground (arith, e) in
                (found.0.0, subst (λ w. P (found.0.0, w)) same here),
          )
  ]

  All-pop_excess :
      (max_entries : ℕ) (cache : List (CacheKey × V))
      → All P cache
      → All P (pop_excess max_entries cache)
  unfolding pop_excess
  All-pop_excess max_entries [] h = h
  All-pop_excess max_entries (entry ∷ rest) h =
      if-cases (All P) (leb max_entries (suc (length rest))) (pop_excess max_entries rest)
        (entry ∷ rest) (λ e. All-pop_excess max_entries rest h.1) (λ e. h)

  All-left_over :
      (key : CacheKey) (cache : List (CacheKey × V))
      → (found : Option ((CacheKey × V) × List (CacheKey × V))) → take_entry key cache ≡ found
      → All P cache
      → All P (left_over cache found)
  All-left_over key cache none e h = h
  All-left_over key cache (some found) e h = (All-take_entry key cache found e h).1

  pub All-insert_cache :
      (cache : List (CacheKey × V)) (max_entries : ℕ) (key : CacheKey) (value : V)
      → All P cache
      → P (key, value)
      → All P (insert_cache cache max_entries key value)
  unfolding insert_cache
  All-insert_cache cache max_entries key value h p =
      if-cases (All P) (max_entries == 0) cache
        (pop_excess max_entries (without key cache) ++ ((key, value) ∷ [])) (λ e. h)
        (λ e.
          All-append P (pop_excess max_entries (without key cache)) ((key, value) ∷ [])
            (All-pop_excess max_entries (without key cache)
              (All-left_over key cache (take_entry key cache) refl h))
            (p, tt))
