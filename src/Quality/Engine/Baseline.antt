-- ===== src/Quality/Engine/Baseline.antt =====
-- The candidates after `resolve_semantic_rerank` of ai.rs.
use mathlib.Core.List.{Perm}
use mathlib.Core.List.Perm
use kanai.Base.{ℕ, true, List, ◌≡◌, refl, All, arith, Result, ok, err}
use kanai.Quality.Order.{RerankRejection}
use kanai.Quality.Order.Resolved.{IsIdOrder}
use kanai.Quality.Window.{Write}
use kanai.Quality.Decision.{
  SemanticRerankDecision, SemanticProviderError, SemanticRerankSnapshot, SemanticRerankPlan,
  SemanticRerankAdmission, SemanticRerankApply, applied, abstained, apply,
}
use kanai.Quality.Decision.Applied.{apply_index_order_still}
use kanai.Quality.Decision.Outcome.{apply-cases, apply-Perm}
use kanai.Quality.Decision.Reordered.{reorders, IsAdmitted, Reordered, apply-Reordered}
use kanai.Quality.Engine.{
  LocalQualityEngine, resolution_applied, preserved_baseline, resolution_of,
  resolve_semantic_rerank,
}
use kanai.Quality.Engine.Sound.{PlanOrder}
use kanai.Quality.Engine.Semantic.{DecisionOrder, Origin, resolve-cases}

module _ (digest : List Write → ℕ) (admission : SemanticRerankAdmission) where
  apply_preserves :
      (self : SemanticRerankPlan)
      → IsIdOrder self.candidate_ids
      → preserved_baseline (resolution_of (apply digest self admission).1) ≡ true
      → (apply digest self admission).0 ≡ admission.candidates
  apply_preserves self s =
      apply-cases digest self admission
        (λ r. preserved_baseline (resolution_of r.1) ≡ true → r.0 ≡ admission.candidates)
        (λ rejection p. refl) (λ p. refl)
        (λ order e f p.
          let (done, resolved, fits, r) = reorders digest self admission order s e f in
          let none_changed : order.changed_positions ≡ 0 = ground (arith, done, p) in
          apply_index_order_still admission.candidates order resolved.sized resolved.once fits
            (resolved.still none_changed))

  applied_answer :
      (result : Result RerankRejection SemanticRerankApply) (n : ℕ)
      → resolution_of result ≡ resolution_applied n
      → result ≡ ok (applied n)
  applied_answer (ok (applied m)) n e = ground (arith, e)
  applied_answer (ok abstained) n e = absurd (ground (arith, e))
  applied_answer (err rejection) n e = absurd (ground (arith, e))

  module _ (self : LocalQualityEngine) (snapshot : SemanticRerankSnapshot)
      (provider_result : Result SemanticProviderError SemanticRerankDecision)
      (plans : All PlanOrder self.semantic_cache) (decided : DecisionOrder provider_result) where
    -- Whatever the provider answers and whatever the cache holds, `resolve_semantic_rerank` leaves a
    -- permutation of the candidates: none is lost, repeated, made up or changed.
    pub resolve_semantic_rerank-Perm :
        Perm
          (resolve_semantic_rerank digest self snapshot admission provider_result).1
          admission.candidates
    resolve_semantic_rerank-Perm =
        resolve-cases digest (λ after r. Perm after admission.candidates) snapshot admission self
          provider_result (λ r p q. Perm.refl _) (λ plan o s. apply-Perm digest plan admission)
          plans decided

    -- Where the resolution says that it preserved the baseline, that is, it is an abstention, a
    -- fallback or a rejection, or no position changed, the candidates are exactly what they were.
    pub resolve_semantic_rerank-preserves :
        preserved_baseline
            (resolve_semantic_rerank digest self snapshot admission provider_result).2
          ≡ true
        → (resolve_semantic_rerank digest self snapshot admission provider_result).1
          ≡ admission.candidates
    resolve_semantic_rerank-preserves =
        resolve-cases digest (λ after r. preserved_baseline r ≡ true → after ≡ admission.candidates)
          snapshot admission self provider_result (λ r p q h. refl)
          (λ plan o s h. apply_preserves plan s h) plans decided

    -- Where the resolution is that `n` positions changed, a plan was applied that either the cache
    -- keeps for the snapshot's key, or, when the cache has none, is the provider's decision validated
    -- against this snapshot, whose order and snapshot it has. The generation, the model revision, the
    -- learning version and the ids of the admission are those of that plan's snapshot, the candidates
    -- are then in the plan's order, and each has moved by at most its snapshot's shift.
    pub resolve_semantic_rerank-Reordered :
        (n : ℕ)
        → (resolve_semantic_rerank digest self snapshot admission provider_result).2
          ≡ resolution_applied n
        → (plan : SemanticRerankPlan) × Origin digest self snapshot admission provider_result plan
          × IsAdmitted digest plan.snapshot admission
          × Reordered digest plan admission.candidates
              (resolve_semantic_rerank digest self snapshot admission provider_result).1
              n
    resolve_semantic_rerank-Reordered n =
        resolve-cases digest
          (λ after r.
            r ≡ resolution_applied n
            → (plan : SemanticRerankPlan) × Origin digest self snapshot admission provider_result
                plan
              × IsAdmitted digest plan.snapshot admission
              × Reordered digest plan admission.candidates after n)
          snapshot admission self provider_result (λ r p q h. absurd (q n h))
          (λ plan o s h.
            let (admitted, reordered) =
              apply-Reordered digest plan admission n s
                (applied_answer (apply digest plan admission).1 n h) in
            (plan, o, admitted, reordered))
          plans decided
