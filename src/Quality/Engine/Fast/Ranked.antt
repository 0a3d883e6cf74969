-- ===== src/Quality/Engine/Fast/Ranked.antt =====
-- What `rank_fast` of ai.rs returns and leaves.
use mathlib.Core.List.{Perm}
use mathlib.Core.List.Perm
use kanai.Base.{
  ℕ, suc, ◌+◌, ◌≤◌, Bool, true, false, Option, some, List, [], ◌∷◌, ◌≡◌, refl, ap, subst, ltb,
  length, arith, Bool-cases, Result-cases, inl, inr, ok,
}
use kanai.Quality.Limits.{max_local_quality_candidates}
use kanai.Quality.Order.{IndexOrder, apply_index_order}
use kanai.Quality.Order.Outcome.{apply_index_order-Perm}
use kanai.Quality.Decision.Applied.{apply_index_order_still}
use kanai.Protocol.Text.{Text}
use kanai.Quality.Floats.{is_finite}
use kanai.Quality.Context.{BoundedLocalContext}
use kanai.Quality.Window.{PersonalizedCandidate, LocalQualityRequest, Write, trim}
use kanai.Quality.Scoring.{ScoredCandidate, sort_scored, from_scored}
use kanai.Quality.Scoring.Sorted.{indices, upto}
use kanai.Quality.Scoring.Scored.{IsWindow, IsMade, from_scored-IsMade}
use kanai.Quality.Engine.{LocalQualityEngine, context_for}
use kanai.Quality.Engine.Sound.{IsSound}
use kanai.Quality.Engine.Fast.{
  FastRun, FastRankStatus, used_baseline, status_for, fast_outcome, fast_score, score_from,
  scored_order,
}

-- A run that returns: the engine stays sound, the candidates are a permutation of what they were,
-- and the same where the status says that the baseline was used.
abbrev pub Ranked : List PersonalizedCandidate → Option FastRun → Type 0
Ranked candidates result =
    (run : FastRun) × (result ≡ some run)
    × IsSound run.0
    × Perm run.1 candidates
    × (used_baseline run.2.status ≡ true → run.1 ≡ candidates)

-- Returns that leave the candidates.
pub left_alone :
    (self : LocalQualityEngine) (candidates : List PersonalizedCandidate) (status : FastRankStatus)
    → (evaluated micros : ℕ) → IsSound self
    → Ranked candidates (some (self, candidates, fast_outcome self status 0 evaluated micros))
left_alone self candidates status evaluated micros s = (
  (self, candidates, fast_outcome self status 0 evaluated micros),
  refl,
  s,
  Perm.refl _,
  λ h. refl,
)

-- Returns after an order was applied.
pub reordered :
    (self : LocalQualityEngine) (candidates : List PersonalizedCandidate) (order : IndexOrder)
    → (status : FastRankStatus) (evaluated micros : ℕ) → IsSound self
    → used_baseline status ≡ false
    → IsMade order order.len
    → order.len ≤ length candidates
    → Ranked candidates (
        some (
          self,
          (apply_index_order candidates order).0,
          fast_outcome self
              (status_for status order.changed_positions)
              order.changed_positions
              evaluated
              micros,
        ))
unfolding fast_outcome
reordered self candidates order status evaluated micros s shows made fits = (
  (
    self,
    (apply_index_order candidates order).0,
    fast_outcome self (status_for status order.changed_positions) order.changed_positions evaluated
        micros,
  ),
  refl,
  s,
  apply_index_order-Perm candidates order,
  λ h. apply_index_order_still candidates order made.sized made.once fits (
      made.still (elim (Bool-cases (ltb 0 order.changed_positions)) [
        | inl e ↦ absurd (ground (arith, e, h, shows))
        | inr e ↦ ground (arith, e)
      ])),
)

module _ (add : ℕ → ℕ → ℕ) (digest : List Write → ℕ) (late : ℕ → Bool) (micros : ℕ) where
  score_from-IsWindow :
      (reading : Text) (context : BoundedLocalContext) (from : ℕ)
      (window : List PersonalizedCandidate)
      → (scored : List ScoredCandidate)
      → score_from add digest late micros reading context from window ≡ ok scored
      → (length scored ≡ length window) × (indices scored ≡ upto from (length window))
  unfolding score_from upto
  score_from-IsWindow reading context from [] scored e =
      let same : [] ≡ scored = ground (arith, e) in
      subst (λ l. (length l ≡ 0) × (indices l ≡ [])) same (refl, refl)
  score_from-IsWindow reading context from (c ∷ cs) scored e = elim (Bool-cases (late (2 + from))) [
    | inl l ↦ absurd (ground (arith, e, l))
    | inr l ↦
        let score = fast_score add digest late micros reading context c in
        elim (Bool-cases (is_finite score)) [
          | inr f ↦ absurd (ground (arith, e, l, f))
          | inl f ↦
              elim (Result-cases
                (score_from add digest late micros reading context (suc from) cs)) [
                  | inr (status, g) ↦ absurd (ground (arith, e, l, f, g))
                  | inl (rest, g) ↦
                      let first : ScoredCandidate = record { old_index = from; score = score } in
                      let same : first ∷ rest ≡ scored = ground (arith, e, l, f, g) in
                      let (count, numbers) =
                        score_from-IsWindow reading context (suc from) cs rest g in
                      subst
                        (λ s.
                          (length s ≡ suc (length cs))
                          × (indices s ≡ from ∷ upto (suc from) (length cs)))
                        same (ap suc count, ap (◌∷◌ from) numbers)
                ]
        ]
  ]

  pub scored_order-IsMade :
      (self : LocalQualityEngine) (window : List PersonalizedCandidate)
      (request : LocalQualityRequest)
      → (order : IndexOrder) → length window ≤ max_local_quality_candidates
      → scored_order add digest late micros self window request ≡ ok order
      → IsMade order (length window)
  unfolding scored_order
  scored_order-IsMade self window request order few e =
      elim (Result-cases (
        score_from add digest late micros (trim request.reading) (context_for self request) 0
          window)) [
            | inr (status, f) ↦ absurd (ground (arith, e, f))
            | inl (scored, f) ↦
                let (count, numbers) =
                  score_from-IsWindow (trim request.reading) (context_for self request) 0 window
                    scored f in
                let w : IsWindow scored = record {
                  few = rw count few;
                  numbered = rw count numbers;
                } in
                let same : from_scored (sort_scored scored) ≡ order = ground (arith, e, f) in
                subst (λ o. IsMade o (length window)) same
                  (subst (IsMade (from_scored (sort_scored scored))) count
                    (from_scored-IsMade scored w))
          ]
