-- ===== src/Quality/Engine/Fast.antt =====
-- `rank_fast` of ai.rs. The tests of its deadline are given as a sequence of answers, and the
-- elapsed time as a number; addition of floats and the hasher are parameters.
pub mod Ranked
pub mod Total
use kanai.Base.{
  ℕ, zero, suc, ◌+◌, ◌-◌, min, Bool, true, false, ◌&&◌, ◌||◌, not, Option, none, some, List, [],
  ◌∷◌, ◌++◌, ltb, leb, ◌==◌, length, map, take, drop, replicate, get_or, list_eq, if◌then◌else◌,
  Result, ok, err, ◌>>=◌, ◌>>◌, fail_if,
}
use mathlib.Core.List.{reverse}
use kanai.Protocol.Text.{Text, is_empty}
use kanai.Quality.Limits.{max_local_quality_candidates}
use kanai.Quality.Order.{
  CandidateIdOrder, IndexOrder, RerankRejection, duplicate_input_candidate, as_slice, overwrite,
  bump, abs_diff, resolve, apply_index_order,
}
use kanai.Quality.Floats.{is_finite, total_key}
use kanai.Quality.Context.{BoundedLocalContext}
use kanai.Quality.Window.{
  PersonalizedCandidate, CandidateOrigin, conversion, prediction, suggestion, user_dictionary,
  user_history, typing_correction, spelling_correction, unknown, LocalQualityRequest, Write,
  CacheKey, trim, valid_reading, validate_candidate_window, id_of, candidate_ids, input_cache_key,
  fast_rank,
}
use kanai.Quality.Decision.{is_generation}
use kanai.Quality.Cache.{lookup_cache, insert_cache}
use kanai.Quality.Scoring.{
  ScoredCandidate, affinity, matches_reading, source_prior, sort_scored, from_scored, ids_of,
  any_far,
}
use kanai.Quality.Engine.{
  LocalQualityEngine, cache_entries, is_mozc_only, is_mozc_baseline, context_for, window_of,
}

pub data FastRankStatus : Type 0 where
  applied cache_hit unchanged mozc_only policy_disabled : FastRankStatus
  stale_generation session_ended deadline_exceeded invalid_input : FastRankStatus
  duplicate_candidate_ids rank_shift_too_large insufficient_candidates : FastRankStatus

pub record FastRankOutcome : Type 0 where
  pub status : FastRankStatus
  pub changed_positions : ℕ
  pub evaluated_candidates : ℕ
  pub cache_entries_left : ℕ
  pub elapsed_micros : ℕ

abbrev pub used_baseline : FastRankStatus → Bool
used_baseline applied = false
used_baseline cache_hit = false
used_baseline _ = true

abbrev pub status_of : RerankRejection → FastRankStatus
status_of duplicate_input_candidate = duplicate_candidate_ids
status_of _ = invalid_input

abbrev pub window_status : Result RerankRejection (Unit {0}) → Result FastRankStatus (Unit {0})
window_status (ok _) = ok tt
window_status (err error) = err (status_of error)

abbrev pub is_some : Option ℕ → Bool
is_some none = false
is_some (some n) = true

-- The outcome that is returned, with the cache as it then is.
unfoldable pub fast_outcome : LocalQualityEngine → FastRankStatus → ℕ → ℕ → ℕ → FastRankOutcome
fast_outcome self status changed evaluated micros = record {
  status = status;
  changed_positions = changed;
  evaluated_candidates = evaluated;
  cache_entries_left = min (cache_entries self) 65535;
  elapsed_micros = micros;
}

abbrev pub FastRun : Type 0
FastRun = LocalQualityEngine × List PersonalizedCandidate × FastRankOutcome

-- A change that is a hit, or none.
abbrev pub status_for : FastRankStatus → ℕ → FastRankStatus
status_for status changed = if ltb 0 changed then status else unchanged

module _ (add : ℕ → ℕ → ℕ) (digest : List Write → ℕ) (late : ℕ → Bool) (micros : ℕ) where
  unfoldable pub fast_score : Text → BoundedLocalContext → PersonalizedCandidate → ℕ
  fast_score reading context c =
      let matched =
        if matches_reading reading c.candidate.reading then 0x4000_0000_0000_0000 else 0 in
      add (add (add c.score (affinity context c.candidate.text)) matched)
        (source_prior c.candidate.origin)

  -- The loop that scores, from `old_index` on.
  unfoldable pub score_from :
      Text
      → BoundedLocalContext
      → ℕ
      → List PersonalizedCandidate
      → Result FastRankStatus (List ScoredCandidate)
  score_from reading context old_index [] = ok []
  score_from reading context old_index (c ∷ cs) = do
    fail_if (late (2 + old_index)) deadline_exceeded
    fail_if (not (is_finite (fast_score reading context c))) invalid_input
    rest ← score_from reading context (suc old_index) cs
    ok (record { old_index = old_index; score = fast_score reading context c } ∷ rest)

  -- The early returns, in their order.
  unfoldable pub fast_guards :
      LocalQualityEngine
      → List PersonalizedCandidate
      → LocalQualityRequest
      → Result FastRankStatus (Unit {0})
  fast_guards self candidates request = do
    fail_if (is_mozc_only request.tier) mozc_only
    fail_if (is_mozc_baseline self.config.data_policy) policy_disabled
    fail_if (not (is_some request.current_generation)) session_ended
    fail_if (not (is_generation request.current_generation request.generation)) stale_generation
    fail_if (ltb (min (length candidates) self.config.max_candidates) 2) insufficient_candidates
    fail_if (not (valid_reading request.reading)) invalid_input
    window_status (validate_candidate_window (window_of self candidates))
    fail_if (late 0) deadline_exceeded

  -- The order that the scores make.
  unfoldable pub scored_order :
      LocalQualityEngine
      → List PersonalizedCandidate
      → LocalQualityRequest
      → Result FastRankStatus IndexOrder
  scored_order self window request = do
    scored ← score_from (trim request.reading) (context_for self request) 0 window
    fail_if
        (any_far self.config.max_rank_shift 0
          (take (length window) (from_scored (sort_scored scored)).old_indices))
        rank_shift_too_large
    fail_if (late 11) deadline_exceeded
    ok (from_scored (sort_scored scored))

  -- An order that was found, where it resolves in time and applies: the candidates, and how many
  -- positions changed.
  unfoldable pub cached_order :
      LocalQualityEngine
      → List PersonalizedCandidate
      → CandidateIdOrder
      → Option CandidateIdOrder
      → Option (List PersonalizedCandidate × ℕ)
  cached_order self candidates ids none = none
  cached_order self candidates ids (some order) =
      elim (resolve order (as_slice ids) self.config.max_rank_shift) [
        | err rejection ↦ none
        | ok index_order ↦
            if late 1 then none else (elim (apply_index_order candidates index_order).1 [
              | err rejection ↦ none
              | ok changed ↦ some ((apply_index_order candidates index_order).0, changed)
            ])
      ]

  -- The rest of `rank_fast`, once nothing cached applies. `none` stands for the panic of `expect`.
  unfoldable pub rank_scored :
      LocalQualityEngine
      → List PersonalizedCandidate
      → LocalQualityRequest
      → CacheKey
      → Option FastRun
  rank_scored self candidates request key =
      let window = window_of self candidates in
      let evaluated = length window in
      elim (scored_order self window request) [
        | err status ↦ some (self, candidates, fast_outcome self status 0 evaluated micros)
        | ok order ↦ elim (apply_index_order candidates order).1 [
          | err rejection ↦ none
          | ok changed ↦
              let self' = record self {
                fast_cache =
                    insert_cache self.fast_cache self.fast_cache_limit key (ids_of order window);
              } in
              some (
                self',
                (apply_index_order candidates order).0,
                fast_outcome self' (status_for applied changed) changed evaluated micros,
              )
        ]
      ]

  -- The part of `rank_fast` behind the early returns.
  unfoldable pub rank_admitted :
      LocalQualityEngine → List PersonalizedCandidate → LocalQualityRequest → Option FastRun
  rank_admitted self candidates request =
      let window = window_of self candidates in
      let ids = candidate_ids window in
      let key =
        input_cache_key digest fast_rank request self.config (context_for self request) ids
          window in
      let looked = lookup_cache self.fast_cache key in
      let self' = record self { fast_cache = looked.0 } in
      elim (cached_order self candidates ids looked.1) [
        | some hit ↦ some (
          self',
          hit.0,
          fast_outcome self' (status_for cache_hit hit.1) hit.1 (length window) micros,
        )
        | none ↦ rank_scored self' candidates request key
      ]

  unfoldable pub rank_fast :
      LocalQualityEngine → List PersonalizedCandidate → LocalQualityRequest → Option FastRun
  rank_fast self candidates request = elim (fast_guards self candidates request) [
    | err status ↦ some (
      self,
      candidates,
      fast_outcome self status 0 (min (length candidates) self.config.max_candidates) micros,
    )
    | ok _ ↦ rank_admitted self candidates request
  ]
