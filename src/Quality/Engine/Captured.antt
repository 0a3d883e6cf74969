-- ===== src/Quality/Engine/Captured.antt =====
-- What `capture_semantic_rerank` of ai.rs captures.
use kanai.Base.{
  ℕ, zero, suc, ◌%◌, ◌≤◌, min, true, false, List, [], ◌∷◌, ◌≡◌, refl, sym, ap, subst, ◌∙◌, ==_iff,
  ltb, length, length-take, map, take, replicate, arith, ok,
}
use kanai.Quality.Limits.{IsBounded, max_local_quality_candidates}
use kanai.Quality.Order.{as_slice, overwrite}
use kanai.Quality.Window.{
  PersonalizedCandidate, LocalQualityRequest, Write, id_of, candidate_ids, candidate_fingerprint,
}
use kanai.Quality.Decision.{
  SemanticRerankSnapshot, is_generation, all_match, matches_candidates, check_admission,
}
use kanai.Quality.Engine.{LocalQualityEngine, window_of, snapshot_of, capture_semantic_rerank}

overwritten : (xs ys : List ℕ) → length xs ≤ length ys → take (length xs) (overwrite xs ys) ≡ xs
overwritten [] ys h = refl
overwritten (x ∷ xs) [] h = absurd (omega (arith, h))
overwritten (x ∷ xs) (y ∷ ys) h = ap (◌∷◌ x) (overwritten xs ys (omega (arith, h)))

length-map_id : (window : List PersonalizedCandidate) → length (map id_of window) ≡ length window
length-map_id [] = refl
length-map_id (c ∷ cs) = ap suc (length-map_id cs)

-- The ids of a window of at most nine are those of its candidates.
window_ids :
    (window : List PersonalizedCandidate)
    → length window ≤ max_local_quality_candidates
    → as_slice (candidate_ids window) ≡ map id_of window
unfolding candidate_ids
window_ids window h =
    ap (λ n. take n (overwrite (map id_of window) (replicate max_local_quality_candidates 0)))
      (omega (arith, h, length-map_id window))
    ∙ overwritten (map id_of window) (replicate max_local_quality_candidates 0)
        (omega (arith, h, length-map_id window))

module _ (digest : List Write → ℕ) where
  all_match_self :
      (n : ℕ) (candidates : List PersonalizedCandidate)
      → all_match digest
          (map id_of (take n candidates))
          (map (candidate_fingerprint digest) (take n candidates))
          candidates
        ≡ true
  unfolding all_match
  all_match_self zero candidates = refl
  all_match_self (suc n) [] = refl
  all_match_self (suc n) (c ∷ cs) =
      let print = candidate_fingerprint digest c in
      ground (
        arith,
        all_match_self n cs,
        ==_iff c.candidate.id c.candidate.id,
        ==_iff print.primary_print print.primary_print,
        ==_iff print.secondary_print print.secondary_print,
      )

  captured :
      (self : LocalQualityEngine) (request : LocalQualityRequest)
      → (candidates : List PersonalizedCandidate) (snapshot : SemanticRerankSnapshot)
      → capture_semantic_rerank digest self request candidates ≡ ok snapshot
      → (is_generation request.current_generation request.generation ≡ true)
        × (snapshot_of digest self request (window_of self candidates) ≡ snapshot)
  unfolding capture_semantic_rerank
  captured self request candidates snapshot e = (ground (arith, e), ground (arith, e))

  matches_self :
      (self : LocalQualityEngine) (request : LocalQualityRequest)
      → (candidates : List PersonalizedCandidate)
      → self.config.max_candidates ≤ max_local_quality_candidates
      → matches_candidates digest
          (snapshot_of digest self request (window_of self candidates))
          candidates
        ≡ true
  unfolding matches_candidates snapshot_of candidate_ids
  matches_self self request candidates h =
      let n = min (length candidates) self.config.max_candidates in
      let all = length-take n candidates in
      let few : length (take n candidates) ≤ 9 = omega (arith, all, h) in
      let matching =
        subst
          (λ ids.
            all_match digest ids (map (candidate_fingerprint digest) (take n candidates)) candidates
            ≡ true)
          (sym (window_ids (take n candidates) few)) (all_match_self n candidates) in
      let enough : ltb (length candidates) (length (take n candidates) % 256) ≡ false =
        ground (arith, all) in
      rw (enough, matching) refl

  -- A snapshot that was just captured is admitted for the same candidates, at the generation and
  -- the revisions of the request that it was captured for.
  pub capture_semantic_rerank-check_admission :
      (self : LocalQualityEngine) (request : LocalQualityRequest)
      → (candidates : List PersonalizedCandidate) (snapshot : SemanticRerankSnapshot)
      → IsBounded self.config
      → capture_semantic_rerank digest self request candidates ≡ ok snapshot
      → check_admission digest snapshot (record {
        current_generation = request.current_generation;
        current_model_revision = request.model_revision;
        current_learning_version = request.learning_version;
        candidates = candidates;
      })
        ≡ ok tt
  unfolding check_admission snapshot_of
  capture_semantic_rerank-check_admission self request candidates snapshot b e =
      let (current, same) = captured self request candidates snapshot e in
      let matching = matches_self self request candidates b.candidates in
      subst
        (λ s.
          check_admission digest s (record {
            current_generation = request.current_generation;
            current_model_revision = request.model_revision;
            current_learning_version = request.learning_version;
            candidates = candidates;
          })
          ≡ ok tt)
        same
        (ground (
          arith,
          current,
          matching,
          ==_iff request.model_revision request.model_revision,
          ==_iff request.learning_version request.learning_version,
        ))
