-- ===== src/Quality/Engine/Semantic.antt =====
-- What `resolve_semantic_rerank` of ai.rs leaves of the candidates.
use kanai.Base.{
  ℕ, true, Option, none, some, List, ◌≡◌, ◌≢◌, refl, sym, subst, All, arith, Bool-cases,
  Option-cases, Result-cases, inl, inr, Result, ok, err,
}
use kanai.Quality.Order.{RerankRejection, as_slice, resolve}
use kanai.Quality.Order.Resolved.{IsIdOrder}
use kanai.Quality.Window.{PersonalizedCandidate, Write, CacheKey}
use kanai.Quality.Decision.{
  SemanticRerankAction, SemanticRerankDecision, SemanticProviderError, SemanticRerankSnapshot,
  SemanticRerankPlan, SemanticRerankAdmission, SemanticRerankApply, rerank, abstain_action, apply,
  validate_action, validate_semantic_rerank,
}
use kanai.Quality.Cache.{key_eq, lookup_cache}
use kanai.Quality.Cache.Size.{All-lookup_cache}
use kanai.Quality.Engine.Sound.{PlanOrder}
use kanai.Quality.Engine.{
  LocalQualityEngine, SemanticRerankResolution, resolution_applied, fallback, rejected,
  preserved_baseline, resolution_of, same_snapshot, cached_semantic_rerank, keep_plan,
  resolve_decision, resolve_semantic_rerank,
}

-- A decision of the provider holds an id order, where there is one.
abbrev pub DecisionOrder : Result SemanticProviderError SemanticRerankDecision → Type 0
DecisionOrder (err error) = Unit {0}
DecisionOrder (ok decision) = IsIdOrder decision.candidate_ids

same_snapshot-some :
    (key : CacheKey) (found : Option SemanticRerankPlan) (plan : SemanticRerankPlan)
    → same_snapshot key found ≡ some plan
    → found ≡ some plan
same_snapshot-some key none plan e = absurd (ground (arith, e))
same_snapshot-some key (some p) plan e = elim (Bool-cases (key_eq p.snapshot.cache_key key)) [
  | inl k ↦ ground (arith, e, k)
  | inr k ↦ absurd (ground (arith, e, k))
]

same_snapshot-key :
    (key : CacheKey) (found : Option SemanticRerankPlan) (plan : SemanticRerankPlan)
    → same_snapshot key found ≡ some plan
    → key_eq plan.snapshot.cache_key key ≡ true
same_snapshot-key key none plan e = absurd (ground (arith, e))
same_snapshot-key key (some p) plan e = elim (Bool-cases (key_eq p.snapshot.cache_key key)) [
  | inl k ↦
      let same : p ≡ plan = ground (arith, e, k) in
      subst (λ (q : SemanticRerankPlan). key_eq q.snapshot.cache_key key ≡ true) same k
  | inr k ↦ absurd (ground (arith, e, k))
]

module _ (digest : List Write → ℕ) where
  pub cached-PlanOrder :
      (self : LocalQualityEngine) (snapshot : SemanticRerankSnapshot) (plan : SemanticRerankPlan)
      → All PlanOrder self.semantic_cache
      → (cached_semantic_rerank self snapshot).1 ≡ some plan
      → IsIdOrder plan.candidate_ids
  unfolding cached_semantic_rerank
  cached-PlanOrder self snapshot plan h e =
      let (kept, found) = All-lookup_cache PlanOrder self.semantic_cache snapshot.cache_key h in
      let (key, order) = found plan (
        same_snapshot-some snapshot.cache_key
          (lookup_cache self.semantic_cache snapshot.cache_key).1 plan e) in
      order

  -- A plan keeps the snapshot it was made for, and the order that was decided.
  abbrev Carries : SemanticRerankPlan → SemanticRerankSnapshot → SemanticRerankDecision → Type 0
  Carries plan snapshot decision =
      (plan.snapshot ≡ snapshot) × (plan.candidate_ids ≡ decision.candidate_ids)

  validate_action-Carries :
      (action : SemanticRerankAction) (decision : SemanticRerankDecision)
      → (snapshot : SemanticRerankSnapshot) (plan : SemanticRerankPlan)
      → validate_action action decision snapshot ≡ ok plan
      → Carries plan snapshot decision
  unfolding validate_action
  validate_action-Carries abstain_action decision snapshot plan e =
      (ground (arith, e), ground (arith, e))
  validate_action-Carries rerank decision snapshot plan e =
      elim (Result-cases (
        resolve decision.candidate_ids (as_slice snapshot.candidate_ids) snapshot.max_rank_shift)) [
          | inl (order, f) ↦ (ground (arith, e, f), ground (arith, e, f))
          | inr (rejection, f) ↦ absurd (ground (arith, e, f))
        ]

  pub validate-Carries :
      (decision : SemanticRerankDecision) (snapshot : SemanticRerankSnapshot)
      → (admission : SemanticRerankAdmission) (plan : SemanticRerankPlan)
      → validate_semantic_rerank digest decision snapshot admission ≡ ok plan
      → Carries plan snapshot decision
  unfolding validate_semantic_rerank
  validate-Carries decision snapshot admission plan e =
      validate_action-Carries decision.action decision snapshot plan (ground (arith, e))

  -- Where the plan comes from that is applied: it is the one that the cache keeps for the snapshot's
  -- key, or else the provider's decision, validated against this snapshot.
  pub data Origin (self : LocalQualityEngine) (snapshot : SemanticRerankSnapshot)
      (admission : SemanticRerankAdmission)
      (provider : Result SemanticProviderError SemanticRerankDecision) (plan : SemanticRerankPlan)
      : Type 0 where
    from_cache :
        (cached_semantic_rerank self snapshot).1 ≡ some plan
        → key_eq plan.snapshot.cache_key snapshot.cache_key ≡ true
        → Origin self snapshot admission provider plan
    from_provider :
        (decision : SemanticRerankDecision)
        → (cached_semantic_rerank self snapshot).1 ≡ none
        → provider ≡ ok decision
        → validate_semantic_rerank digest decision snapshot admission ≡ ok plan
        → plan.snapshot ≡ snapshot
        → plan.candidate_ids ≡ decision.candidate_ids
        → Origin self snapshot admission provider plan

  cached_key :
      (self : LocalQualityEngine) (snapshot : SemanticRerankSnapshot) (plan : SemanticRerankPlan)
      → (cached_semantic_rerank self snapshot).1 ≡ some plan
      → key_eq plan.snapshot.cache_key snapshot.cache_key ≡ true
  unfolding cached_semantic_rerank
  cached_key self snapshot plan e =
      same_snapshot-key snapshot.cache_key (lookup_cache self.semantic_cache snapshot.cache_key).1
        plan e

  abbrev Answer : Type 0
  Answer = LocalQualityEngine × List PersonalizedCandidate × SemanticRerankResolution

  kept_plan :
      (self : LocalQualityEngine) (snapshot : SemanticRerankSnapshot) (plan : SemanticRerankPlan)
      → (run : List PersonalizedCandidate × Result RerankRejection SemanticRerankApply)
      → ((keep_plan digest self snapshot plan run).1 ≡ run.0)
        × ((keep_plan digest self snapshot plan run).2 ≡ resolution_of run.1)
  kept_plan self snapshot plan (candidates, err rejection) = (refl, refl)
  kept_plan self snapshot plan (candidates, ok outcome) = (refl, refl)

  -- What holds where the candidates are left alone and no order is said to be applied, and where
  -- a plan with an id order is applied to them, holds of `resolve_semantic_rerank`.
  module _ {κ} (P : List PersonalizedCandidate → SemanticRerankResolution → Type κ)
      (snapshot : SemanticRerankSnapshot) (admission : SemanticRerankAdmission)
      (self : LocalQualityEngine) (provider : Result SemanticProviderError SemanticRerankDecision)
      (left : (r : SemanticRerankResolution)
        → preserved_baseline r ≡ true
        → ((n : ℕ) → r ≢ resolution_applied n)
        → P admission.candidates r)
      (ran : (plan : SemanticRerankPlan)
        → Origin self snapshot admission provider plan
        → IsIdOrder plan.candidate_ids
        → P (apply digest plan admission).0 (resolution_of (apply digest plan admission).1)) where
    decision_cases :
        (looked : LocalQualityEngine) (answer : Result SemanticProviderError SemanticRerankDecision)
        → (cached_semantic_rerank self snapshot).1 ≡ none
        → provider ≡ answer
        → DecisionOrder answer
        → P
            (resolve_decision digest looked snapshot admission answer).1
            (resolve_decision digest looked snapshot admission answer).2
    unfolding resolve_decision
    decision_cases looked (err error) missing same d =
        left (fallback error) refl (λ n e. ground (arith, e))
    decision_cases looked (ok decision) missing same d =
        elim (Result-cases (validate_semantic_rerank digest decision snapshot admission)) [
          | inr (rejection, e) ↦
              rw (e, resolve_decision) (left (rejected rejection) refl (λ n h. ground (arith, h)))
          | inl (plan, e) ↦
              let (own, decided) = validate-Carries decision snapshot admission plan e in
              let (kept, answer) = kept_plan looked snapshot plan (apply digest plan admission) in
              rw (e, resolve_decision, kept, answer)
                (ran plan (from_provider decision missing same e own decided)
                  (subst IsIdOrder (sym decided) d))
        ]

    pub resolve-cases :
        All PlanOrder self.semantic_cache
        → DecisionOrder provider
        → P
            (resolve_semantic_rerank digest self snapshot admission provider).1
            (resolve_semantic_rerank digest self snapshot admission provider).2
    unfolding resolve_semantic_rerank
    resolve-cases h d = elim (Option-cases (cached_semantic_rerank self snapshot).1) [
      | inl e ↦
          rw (e, resolve_semantic_rerank)
            (decision_cases (cached_semantic_rerank self snapshot).0 provider e refl d)
      | inr (plan, e) ↦
          rw (e, resolve_semantic_rerank)
            (ran plan (from_cache e (cached_key self snapshot plan e))
              (cached-PlanOrder self snapshot plan h e))
    ]
