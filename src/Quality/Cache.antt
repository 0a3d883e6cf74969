-- ===== src/Quality/Cache.antt =====
-- The bounded caches of ai.rs: a deque of keys and values, its oldest entry first.
pub mod Size
use kanai.Base.{
  ℕ, zero, suc, ◌+◌, ◌-◌, Bool, true, false, ◌&&◌, Option, none, some, List, [], ◌∷◌, ◌++◌, ltb,
  leb, ◌==◌, length, drop, if◌then◌else◌,
}
use kanai.Quality.Window.{CacheKey}

unfoldable pub key_eq : CacheKey → CacheKey → Bool
key_eq a b = a.primary == b.primary && a.secondary == b.secondary

-- The two kinds of entry differ in what they keep for a key.
module _ {ℓ} {V : Type ℓ} where
  -- `position` with the key, and `remove` of the entry there: the entry, and what is left.
  unfoldable pub take_entry :
      CacheKey → List (CacheKey × V) → Option ((CacheKey × V) × List (CacheKey × V))
  take_entry key [] = none
  take_entry key (entry ∷ rest) =
      if key_eq entry.0 key then some (entry, rest) else (elim (take_entry key rest) [
        | none ↦ none
        | some found ↦ some (found.0, entry ∷ found.1)
      ])

  -- `lookup_fast_cache` and `lookup_semantic_cache`: an entry that is found moves to the back.
  unfoldable pub lookup_cache : List (CacheKey × V) → CacheKey → List (CacheKey × V) × Option V
  lookup_cache cache key = elim (take_entry key cache) [
    | none ↦ (cache, none)
    | some found ↦ (found.1 ++ (found.0 ∷ []), some found.0.1)
  ]

  abbrev pub left_over :
      List (CacheKey × V) → Option ((CacheKey × V) × List (CacheKey × V)) → List (CacheKey × V)
  left_over cache none = cache
  left_over cache (some found) = found.1

  -- `if let Some(index) = position { cache.remove(index); }`
  abbrev pub without : CacheKey → List (CacheKey × V) → List (CacheKey × V)
  without key cache = left_over cache (take_entry key cache)

  -- `while cache.len() >= max_entries { cache.pop_front(); }`, with `max_entries` above zero.
  unfoldable pub pop_excess : ℕ → List (CacheKey × V) → List (CacheKey × V)
  pop_excess max_entries [] = []
  pop_excess max_entries (entry ∷ rest) =
      let popped = pop_excess max_entries rest in
      if leb max_entries (suc (length rest)) then popped else entry ∷ rest

  -- `insert_fast_cache` and `insert_semantic_cache`.
  unfoldable pub insert_cache : List (CacheKey × V) → ℕ → CacheKey → V → List (CacheKey × V)
  insert_cache cache max_entries key value =
      if max_entries == 0
      then cache
      else pop_excess max_entries (without key cache) ++ ((key, value) ∷ [])
