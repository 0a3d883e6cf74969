-- ===== src/Quality/Engine/Fast/Total.antt =====
-- `rank_fast` of ai.rs as a whole.
use kanai.Base.{
  ℕ, ◌%◌, ◌≤◌, min, Bool, Option, none, some, List, ◌≡◌, refl, subst, length, length-take, get_or,
  map, take, replicate, arith, Bool-cases, Option-cases, Result-cases, inl, inr,
}
use kanai.Quality.Limits.{max_local_quality_candidates}
use kanai.Quality.Order.{
  CandidateIdOrder, IndexOrder, as_slice, overwrite, resolve, apply_index_order,
}
use kanai.Quality.Order.Outcome.{apply_index_order-gathers}
use kanai.Quality.Order.Resolved.{IsIdOrder, Resolved, resolve-Resolved}
use kanai.Quality.Window.{
  PersonalizedCandidate, LocalQualityRequest, Write, CacheKey, id_of, candidate_ids,
  input_cache_key, fast_rank,
}
use kanai.Quality.Cache.{lookup_cache}
use kanai.Quality.Cache.Size.{All-lookup_cache}
use kanai.Quality.Scoring.{ids_of}
use kanai.Quality.Scoring.Scored.{IsMade, length-overwrite}
use kanai.Quality.Engine.{LocalQualityEngine, context_for, window_of}
use kanai.Quality.Engine.Sound.{IsSound, EntryOrder, fast_lookup-IsSound, fast_insert-IsSound}
use kanai.Quality.Engine.Fast.{
  applied, cache_hit, scored_order, cached_order, rank_scored, rank_admitted, fast_guards,
  rank_fast,
}
use kanai.Quality.Engine.Fast.Ranked.{Ranked, left_alone, reordered, scored_order-IsMade}

ids_of-IsIdOrder :
    (order : IndexOrder) (window : List PersonalizedCandidate)
    → order.len ≤ max_local_quality_candidates
    → IsIdOrder (ids_of order window)
unfolding ids_of
ids_of-IsIdOrder order window few = record {
  few = few;
  places =
      length-overwrite (map (λ i. get_or (map id_of window) i 0) (take order.len order.old_indices))
        (replicate max_local_quality_candidates 0);
}

length-window :
    (self : LocalQualityEngine) (candidates : List PersonalizedCandidate)
    → (length (window_of self candidates) ≤ length candidates)
      × (length (window_of self candidates) ≤ self.config.max_candidates)
length-window self candidates =
    let all = length-take (min (length candidates) self.config.max_candidates) candidates in
    (omega (arith, all), omega (arith, all))

length-ids :
    (window : List PersonalizedCandidate) → length (as_slice (candidate_ids window)) ≤ length window
unfolding candidate_ids
length-ids window = omega (
  arith,
  length-take (length window % 256)
      (overwrite (map id_of window) (replicate max_local_quality_candidates 0)),
)

Resolved-IsMade :
    (self : CandidateIdOrder) (expected : List ℕ) (shift : ℕ) (order : IndexOrder)
    → Resolved self expected shift order
    → IsMade order order.len
Resolved-IsMade self expected shift order r = record {
  covers = refl;
  sized = r.sized;
  once = r.once;
  still = r.still;
}

module _ (add : ℕ → ℕ → ℕ) (digest : List Write → ℕ) (late : ℕ → Bool) (micros : ℕ)
    (candidates : List PersonalizedCandidate) (request : LocalQualityRequest) where
  rank_scored-Ranked :
      (self : LocalQualityEngine) (key : CacheKey)
      → IsSound self
      → Ranked candidates (rank_scored add digest late micros self candidates request key)
  unfolding rank_scored
  rank_scored-Ranked self key s =
      let window = window_of self candidates in
      let (fits, few) = length-window self candidates in
      elim (Result-cases (scored_order add digest late micros self window request)) [
        | inr (status, e) ↦
            rw (e, rank_scored) (left_alone self candidates status (length window) micros s)
        | inl (order, e) ↦
            let made =
              scored_order-IsMade add digest late micros self window request order
                (omega (arith, few, s.limits.candidates)) e in
            let enough : order.len ≤ length candidates = omega (arith, made.covers, fits) in
            let (done, size, moved, fixed) =
              apply_index_order-gathers candidates order made.sized made.once enough in
            rw (e, done, rank_scored)
              (reordered _ candidates order applied (length window) micros
                (fast_insert-IsSound self s key (ids_of order window)
                  (ids_of-IsIdOrder order window made.sized.few))
                refl
                (record { covers = refl; sized = made.sized; once = made.once; still = made.still })
                enough)
      ]

  -- An order from the cache that applies: what it leaves.
  cached_order-some :
      (self : LocalQualityEngine) (ids : CandidateIdOrder) (order : CandidateIdOrder)
      → (hit : List PersonalizedCandidate × ℕ) → IsIdOrder order
      → length (as_slice ids) ≤ length candidates
      → cached_order add digest late micros self candidates ids (some order) ≡ some hit
      → (found : IndexOrder) × IsMade found found.len
        × (found.len ≤ length candidates)
        × (((apply_index_order candidates found).0, found.changed_positions) ≡ hit)
  unfolding cached_order
  cached_order-some self ids order hit h fits e =
      elim (Result-cases (resolve order (as_slice ids) self.config.max_rank_shift)) [
        | inr (rejection, f) ↦ absurd (ground (arith, e, f))
        | inl (found, f) ↦
            let r = resolve-Resolved order (as_slice ids) self.config.max_rank_shift found h f in
            let enough : found.len ≤ length candidates = omega (arith, r.covers, fits) in
            let (done, size, moved, fixed) =
              apply_index_order-gathers candidates found r.sized r.once enough in
            elim (Bool-cases (late 1)) [
              | inl l ↦ absurd (ground (arith, e, f, l))
              | inr l ↦ (
                found,
                Resolved-IsMade order (as_slice ids) self.config.max_rank_shift found r,
                enough,
                ground (arith, e, f, l, done),
              )
            ]
      ]

  cached_order-none :
      (self : LocalQualityEngine) (ids : CandidateIdOrder) (found : Option CandidateIdOrder)
      → (hit : List PersonalizedCandidate × ℕ)
      → cached_order add digest late micros self candidates ids found ≡ some hit
      → (order : CandidateIdOrder) × (found ≡ some order)
  unfolding cached_order
  cached_order-none self ids none hit e = absurd (ground (arith, e))
  cached_order-none self ids (some order) hit e = (order, refl)

  rank_admitted-Ranked :
      (self : LocalQualityEngine)
      → IsSound self
      → Ranked candidates (rank_admitted add digest late micros self candidates request)
  unfolding rank_admitted
  rank_admitted-Ranked self s =
      let window = window_of self candidates in
      let (fits, few) = length-window self candidates in
      let ids = candidate_ids window in
      let key =
        input_cache_key digest fast_rank request self.config (context_for self request) ids
          window in
      let looked = lookup_cache self.fast_cache key in
      let sound = fast_lookup-IsSound self s key in
      elim (Option-cases (cached_order add digest late micros self candidates ids looked.1)) [
        | inl e ↦ rw (e, rank_admitted) (rank_scored-Ranked _ key sound)
        | inr (hit, e) ↦
            let (order, f) = cached_order-none self ids looked.1 hit e in
            let (place, kept) =
              (All-lookup_cache EntryOrder self.fast_cache key s.orders).1 order f in
            let e' : cached_order add digest late micros self candidates ids (some order)
                ≡ some hit =
              subst (λ o. cached_order add digest late micros self candidates ids o ≡ some hit) f
                e in
            let (found, made, enough, same) =
              cached_order-some self ids order hit kept (omega (arith, fits, length-ids window))
                e' in
            rw (e, rank_admitted, ← same)
              (reordered _ candidates found cache_hit (length window) micros sound refl made enough)
      ]

  -- Whatever the deadline, the hasher and the addition of floats are, a sound engine returns from
  -- `rank_fast`: the panic of its `expect` is not reached. The engine is sound afterwards, the
  -- candidates are a permutation of what they were, and where the status is not that an order was
  -- applied or hit in the cache, they are exactly what they were.
  pub rank_fast-Ranked :
      (self : LocalQualityEngine)
      → IsSound self
      → Ranked candidates (rank_fast add digest late micros self candidates request)
  unfolding rank_fast
  rank_fast-Ranked self s =
      elim (Result-cases (fast_guards add digest late micros self candidates request)) [
        | inr (status, e) ↦
            rw (e, rank_fast)
              (left_alone self candidates status
                (min (length candidates) self.config.max_candidates) micros s)
        | inl (tt, e) ↦ rw (e, rank_fast) (rank_admitted-Ranked self s)
      ]
