-- ===== src/Quality/Engine/Reached.antt =====
-- The engines of ai.rs that its operations reach.
use kanai.Base.{
  ℕ, ◌≤◌, Bool, some, List, ◌≡◌, sym, subst, length, arith, Option-cases, Result-cases, inl, inr,
  Result, ok, err,
}
use kanai.Quality.Limits.{
  LocalQualityConfig, Built, Built-IsBounded, max_local_quality_cache_entries,
}
use kanai.Quality.Order.{RerankRejection}
use kanai.Quality.Order.Resolved.{IsIdOrder}
use kanai.Quality.Window.{PersonalizedCandidate, LocalQualityRequest, Write}
use kanai.Quality.Decision.{
  SemanticRerankDecision, SemanticProviderError, SemanticRerankSnapshot, SemanticRerankPlan,
  SemanticRerankAdmission, SemanticRerankApply, apply, validate_semantic_rerank,
}
use kanai.Quality.Engine.{
  LocalQualityEngine, new_engine, clear_cache, cache_entries, cached_semantic_rerank, keep_plan,
  resolve_decision, resolve_semantic_rerank,
}
use kanai.Quality.Engine.Sound.{
  IsSound, new_engine-IsSound, clear_cache-IsSound, semantic_lookup-IsSound,
  semantic_insert-IsSound,
}
use kanai.Quality.Engine.Semantic.{DecisionOrder, validate-Carries}
use kanai.Quality.Engine.Fast.{FastRun, rank_fast}
use kanai.Quality.Engine.Fast.Total.{rank_fast-Ranked}

module _ (add : ℕ → ℕ → ℕ) (digest : List Write → ℕ) where
  -- An engine is made of a configuration, cleared, looked at, used to rank, and used to resolve.
  pub data Reached : LocalQualityEngine → Type 0 where
    made : (config : LocalQualityConfig) → Built config → Reached (new_engine config)
    cleared : {self : LocalQualityEngine} → Reached self → Reached (clear_cache self)
    looked :
        {self : LocalQualityEngine} (snapshot : SemanticRerankSnapshot)
        → Reached self
        → Reached (cached_semantic_rerank self snapshot).0
    ranked :
        {self : LocalQualityEngine} (late : ℕ → Bool) (micros : ℕ)
        → (candidates : List PersonalizedCandidate) (request : LocalQualityRequest) (run : FastRun)
        → rank_fast add digest late micros self candidates request ≡ some run
        → Reached self
        → Reached run.0
    resolved :
        {self : LocalQualityEngine} (snapshot : SemanticRerankSnapshot)
        → (admission : SemanticRerankAdmission)
        → (provider_result : Result SemanticProviderError SemanticRerankDecision)
        → DecisionOrder provider_result
        → Reached self
        → Reached (resolve_semantic_rerank digest self snapshot admission provider_result).0

  keep_plan-IsSound :
      (self : LocalQualityEngine) (snapshot : SemanticRerankSnapshot) (plan : SemanticRerankPlan)
      → (run : List PersonalizedCandidate × Result RerankRejection SemanticRerankApply)
      → IsIdOrder plan.candidate_ids
      → IsSound self
      → IsSound (keep_plan digest self snapshot plan run).0
  keep_plan-IsSound self snapshot plan (candidates, err rejection) h s = s
  keep_plan-IsSound self snapshot plan (candidates, ok outcome) h s =
      semantic_insert-IsSound self s snapshot.cache_key plan h

  module _ (snapshot : SemanticRerankSnapshot) (admission : SemanticRerankAdmission) where
    resolve_decision-IsSound :
        (self : LocalQualityEngine) (provider : Result SemanticProviderError SemanticRerankDecision)
        → DecisionOrder provider
        → IsSound self
        → IsSound (resolve_decision digest self snapshot admission provider).0
    unfolding resolve_decision
    resolve_decision-IsSound self (err error) d s = s
    resolve_decision-IsSound self (ok decision) d s =
        elim (Result-cases (validate_semantic_rerank digest decision snapshot admission)) [
          | inr (rejection, e) ↦ rw (e, resolve_decision) s
          | inl (plan, e) ↦
              rw (e, resolve_decision)
                (keep_plan-IsSound self snapshot plan (apply digest plan admission)
                  (subst IsIdOrder
                    (sym ((validate-Carries digest decision snapshot admission plan e).1)) d)
                  s)
        ]

    resolve-IsSound :
        (self : LocalQualityEngine) (provider : Result SemanticProviderError SemanticRerankDecision)
        → DecisionOrder provider
        → IsSound self
        → IsSound (resolve_semantic_rerank digest self snapshot admission provider).0
    unfolding resolve_semantic_rerank cached_semantic_rerank
    resolve-IsSound self provider d s =
        let looked : IsSound (cached_semantic_rerank self snapshot).0 =
          semantic_lookup-IsSound self s snapshot.cache_key in
        elim (Option-cases (cached_semantic_rerank self snapshot).1) [
          | inl e ↦
              rw (e, resolve_semantic_rerank)
                (resolve_decision-IsSound (cached_semantic_rerank self snapshot).0 provider d
                  looked)
          | inr (plan, e) ↦ rw (e, resolve_semantic_rerank) looked
        ]

  pub Reached-IsSound : {self : LocalQualityEngine} → Reached self → IsSound self
  unfolding cached_semantic_rerank
  Reached-IsSound (made config b) = new_engine-IsSound config (Built-IsBounded b)
  Reached-IsSound (cleared {self = self} r) = clear_cache-IsSound self (Reached-IsSound r)
  Reached-IsSound (looked {self = self} snapshot r) =
      semantic_lookup-IsSound self (Reached-IsSound r) snapshot.cache_key
  Reached-IsSound (ranked {self = self} late micros candidates request run e r) =
      let (found, f, s, perm, rest) =
        rank_fast-Ranked add digest late micros candidates request self (Reached-IsSound r) in
      let same : found ≡ run = ground (arith, e, f) in subst (λ (x : FastRun). IsSound x.0) same s
  Reached-IsSound (resolved {self = self} snapshot admission provider d r) =
      resolve-IsSound snapshot admission self provider d (Reached-IsSound r)

  -- However an engine is configured and used, its two caches together never hold more than 128
  -- entries, and each is within its own limit.
  pub Reached-cache_entries :
      {self : LocalQualityEngine}
      → Reached self
      → (cache_entries self ≤ max_local_quality_cache_entries)
        × (length self.fast_cache ≤ self.fast_cache_limit)
        × (length self.semantic_cache ≤ self.semantic_cache_limit)
  unfolding cache_entries
  Reached-cache_entries r =
      let s = Reached-IsSound r in (omega (arith, s.total, s.fast, s.semantic), s.fast, s.semantic)
