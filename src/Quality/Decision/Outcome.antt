-- ===== src/Quality/Decision/Outcome.antt =====
-- The branches of `SemanticRerankPlan::apply` of ai.rs, and what each leaves.
use mathlib.Core.List.{Perm}
use mathlib.Core.List.Perm
use kanai.Base.{ℕ, List, ◌≡◌, Bool-cases, Result-cases, inl, inr, Result, ok, err}
use kanai.Quality.Order.{IndexOrder, RerankRejection, as_slice, resolve}
use kanai.Quality.Order.Outcome.{apply_index_order-Perm}
use kanai.Quality.Window.{PersonalizedCandidate, Write}
use kanai.Quality.Decision.{
  SemanticRerankPlan, SemanticRerankAdmission, SemanticRerankApply, abstained, is_abstain,
  check_admission, apply_resolved, apply,
}

abbrev pub Run : Type 0
Run = List PersonalizedCandidate × Result RerankRejection SemanticRerankApply

module _ (digest : List Write → ℕ) (self : SemanticRerankPlan)
    (admission : SemanticRerankAdmission) where
  -- What holds of a run that leaves the candidates, and of one that applies an order to them after
  -- the admission was checked, holds of `apply`.
  pub apply-cases {κ} :
      (P : Run → Type κ)
      → ((rejection : RerankRejection) → P (admission.candidates, err rejection))
      → P (admission.candidates, ok abstained)
      → ((order : IndexOrder)
          → check_admission digest self.snapshot admission ≡ ok tt
          → resolve self.candidate_ids
              (as_slice self.snapshot.candidate_ids)
              self.snapshot.max_rank_shift
            ≡ ok order
          → P (apply_resolved admission.candidates (ok order)))
      → P (apply digest self admission)
  unfolding apply
  apply-cases P refused stays runs =
      elim (Result-cases (check_admission digest self.snapshot admission)) [
        | inr (rejection, e) ↦ rw (e, apply) (refused rejection)
        | inl (tt, e) ↦ elim (Bool-cases (is_abstain self)) [
          | inl a ↦ rw (e, a, apply) stays
          | inr a ↦
              elim (Result-cases (
                resolve self.candidate_ids (as_slice self.snapshot.candidate_ids)
                  self.snapshot.max_rank_shift)) [
                    | inr (rejection, f) ↦ rw (e, a, f, apply) (refused rejection)
                    | inl (order, f) ↦ rw (e, a, f, apply) (runs order e f)
                  ]
        ]
      ]

  -- Whatever the plan and whatever has changed since it was made, `apply` leaves a permutation of
  -- the candidates.
  pub apply-Perm : Perm (apply digest self admission).0 admission.candidates
  apply-Perm =
      apply-cases (λ r. Perm r.0 admission.candidates) (λ rejection. Perm.refl _) (Perm.refl _)
        (λ order e f. apply_index_order-Perm admission.candidates order)
